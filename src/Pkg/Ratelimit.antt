-- ===== src/Pkg/Ratelimit.antt =====
-- pkg/ratelimit/limiter.go: a fixed-window limiter. The map `records` is an association list; the
-- mutex makes each method one step. Each method takes the time of its call.
use security_system_gsb.Common.{
  ℕ, ◌+◌, ◌-◌, String, Bool, true, false, Option, none, some, List, [], ◌∷◌, ltb, leb, ◌==◌,
  string_eq, if◌then◌else◌,
}
pub mod Windows

pub record Window : Type 0 where
  pub count : ℕ
  pub window_end : ℕ

pub record Limiter : Type 0 where
  pub records : List (String × Window)
  pub limit : ℕ
  pub duration : ℕ

unfoldable pub lookup : String → List (String × Window) → Option Window
lookup key [] = none
lookup key ((k, rec) ∷ records) = if k == key then some rec else lookup key records

-- delete(records, key)
unfoldable pub remove : String → List (String × Window) → List (String × Window)
remove key [] = []
remove key ((k, rec) ∷ records) =
    let rest = remove key records in if k == key then rest else (k, rec) ∷ rest

-- records[key] = rec
unfoldable pub put : String → Window → List (String × Window) → List (String × Window)
unfolding remove
put key rec records = (key, rec) ∷ remove key records

unfoldable pub new_limiter : ℕ → ℕ → Limiter
new_limiter limit duration = record { records = []; limit = limit; duration = duration }

abbrev pub opened : String → ℕ → Limiter → Limiter
opened key now l = record l {
  records = put key (record { count = 1; window_end = now + l.duration }) l.records;
}

-- `Allow` on the record that it finds.
unfoldable pub admit : String → ℕ → Option Window → Limiter → Bool × Limiter
unfolding put
admit key now none l = (true, opened key now l)
admit key now (some rec) l =
    if ltb rec.window_end now
    then (true, opened key now l)
    else if leb l.limit rec.count
    then (false, l)
    else (true, record l { records = put key (record rec { count = rec.count + 1 }) l.records })

unfoldable pub allow : String → ℕ → Limiter → Bool × Limiter
unfolding admit
allow key now l = admit key now (lookup key l.records) l

abbrev pub left_in : ℕ → Option Window → ℕ → ℕ
left_in now none limit = limit
left_in now (some rec) limit = if ltb rec.window_end now then limit else limit - rec.count

-- `limit - count`, and 0 where that is negative.
unfoldable pub remaining : String → ℕ → Limiter → ℕ
remaining key now l = left_in now (lookup key l.records) l.limit

unfoldable pub reset : String → Limiter → Limiter
reset key l = record l { records = remove key l.records }

unfoldable pub drop_expired : ℕ → List (String × Window) → List (String × Window)
drop_expired now [] = []
drop_expired now ((k, rec) ∷ records) =
    let rest = drop_expired now records in if ltb rec.window_end now then rest else (k, rec) ∷ rest

-- One round of `cleanupLoop`.
unfoldable pub cleanup : ℕ → Limiter → Limiter
unfolding drop_expired
cleanup now l = record l { records = drop_expired now l.records }
