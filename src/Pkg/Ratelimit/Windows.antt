-- ===== src/Pkg/Ratelimit/Windows.antt =====
-- `Windows`: how many calls the limiter lets through.
use security_system_gsb.Common.{
  ℕ, suc, ◌+◌, ◌-◌, ◌≡◌, ◌≤◌, ◌<◌, ◌⊎◌, refl, String, Bool, true, false, Option, none, some, List,
  [], ◌∷◌, ltb, leb, ◌==◌, string_eq, if◌then◌else◌, arith, All, Bool-cases, sym, ap, subst, ◌∙◌,
  eq_iff, inl, inr,
}
use security_system_gsb.Pkg.Ratelimit.{
  Window, Limiter, lookup, remove, put, admit, allow, remaining, left_in, opened,
}

lookup-remove :
    (key other : String) (rs : List (String × Window))
    → key == other ≡ false
    → lookup other (remove key rs) ≡ lookup other rs
unfolding lookup remove
lookup-remove key other [] d = refl
lookup-remove key other ((k, r) ∷ rs) d = elim (Bool-cases (k == key)) [
  | inl same ↦
      let differs = ap (λ x. x == other) ((eq_iff k key).0 same) ∙ d in
      rw (same, differs, lookup-remove key other rs d)
  | inr apart ↦ rw (apart, lookup-remove key other rs d)
]

lookup-put :
    (key : String) (r : Window) (rs : List (String × Window)) → lookup key (put key r rs) ≡ some r
unfolding lookup put
lookup-put key r rs = rw ((eq_iff key key).1 refl)

lookup-put_other :
    (key other : String) (r : Window) (rs : List (String × Window))
    → key == other ≡ false
    → lookup other (put key r rs) ≡ lookup other rs
unfolding lookup put
lookup-put_other key other r rs d = rw (d, lookup-remove key other rs d)

admit-left :
    (key : String) (now : ℕ) (o : Option Window) (l : Limiter)
    → 1 ≤ l.limit
    → lookup key l.records ≡ o
    → ((admit key now o l).0 ≡ ltb 0 (left_in now o l.limit))
      × (left_in now (lookup key (admit key now o l).1.records) (admit key now o l).1.limit
          ≡ left_in now o l.limit - 1)
unfolding admit
admit-left key now none l pos e =
    ground (arith, lookup-put key (record { count = 1; window_end = now + l.duration }) l.records)
admit-left key now (some r) l pos e = ground (
  arith,
  lookup-put key (record { count = 1; window_end = now + l.duration }) l.records,
  lookup-put key (record r { count = r.count + 1 }) l.records,
)

admit_keeps :
    (key other : String) (now : ℕ) (o : Option Window) (l : Limiter)
    → key == other ≡ false
    → (lookup other (admit key now o l).1.records ≡ lookup other l.records)
      × ((admit key now o l).1.limit ≡ l.limit)
unfolding admit
admit_keeps key other now none l d = (lookup-put_other key other _ l.records d, refl)
admit_keeps key other now (some r) l d = ground (
  arith,
  lookup-put_other key other (record { count = 1; window_end = now + l.duration }) l.records d,
  lookup-put_other key other (record r { count = r.count + 1 }) l.records d,
)

-- A call lets through exactly when a call is left, and takes one of those that are left; the
-- limit is not 0.
pub allow-remaining :
    (key : String) (now : ℕ) (l : Limiter)
    → 1 ≤ l.limit
    → ((allow key now l).0 ≡ ltb 0 (remaining key now l))
      × (remaining key now (allow key now l).1 ≡ remaining key now l - 1)
unfolding allow remaining
allow-remaining key now l pos = admit-left key now (lookup key l.records) l pos refl

admit_answer :
    (key : String) (now : ℕ) (o : Option Window) (l m : Limiter)
    → l.limit ≡ m.limit
    → (admit key now o l).0 ≡ (admit key now o m).0
unfolding admit
admit_answer key now none l m e = refl
admit_answer key now (some r) l m e = ground arith

-- A call for one key leaves the answer to another key, and what that key has left, as they were.
pub allow-other :
    (key other : String) (now t : ℕ) (l : Limiter)
    → key == other ≡ false
    → ((allow other t (allow key now l).1).0 ≡ (allow other t l).0)
      × (remaining other t (allow key now l).1 ≡ remaining other t l)
unfolding allow remaining
allow-other key other now t l d =
    let (rows, limits) = admit_keeps key other now (lookup key l.records) l d in
    (
      ap (λ o. (admit other t o (admit key now (lookup key l.records) l).1).0) rows
          ∙ admit_answer other t (lookup other l.records) _ l limits,
      ap (λ o. left_in t o (admit key now (lookup key l.records) l).1.limit) rows
          ∙ ap (left_in t (lookup other l.records)) limits,
    )

-- The number of the calls at the times `ts` that are let through.
unfoldable pub let_through : String → List ℕ → Limiter → ℕ
let_through key [] l = 0
let_through key (t ∷ ts) l =
    let rest = let_through key ts (allow key t l).1 in if (allow key t l).0 then suc rest else rest

-- A window that goes on.
abbrev Counts : String → Window → ℕ → Limiter → Bool × Limiter → Type 0
Counts key r t l (passed, m) =
    (q : Window) × (lookup key m.records ≡ some q)
    × (q.window_end ≡ r.window_end)
    × (m.limit ≡ l.limit)
    × ((if passed then 1 else 0) + (l.limit - q.count) ≡ l.limit - r.count)

admit_within :
    (key : String) (t : ℕ) (r : Window) (l : Limiter)
    → lookup key l.records ≡ some r
    → t ≤ r.window_end
    → Counts key r t l (admit key t (some r) l)
unfolding admit
admit_within key t r l e in_time =
    let going_on : ltb r.window_end t ≡ false = ground arith in
    elim (Bool-cases (leb l.limit r.count)) [
      | inl full ↦
          let c : Counts key r t l (false, l) = (r, e, refl, refl, omega arith) in
          let run : admit key t (some r) l ≡ (false, l) = rw (going_on, full) in
          subst (Counts key r t l) (sym run) c
      | inr room ↦
          let q : Window = record r { count = r.count + 1 } in
          let m : Limiter = record l { records = put key q l.records } in
          let c : Counts key r t l (true, m) =
            (q, lookup-put key q l.records, refl, refl, ground arith) in
          let run : admit key t (some r) l ≡ (true, m) = rw (going_on, room) in
          subst (Counts key r t l) (sym run) c
    ]

within_window :
    (key : String) (t : ℕ) (r : Window) (l : Limiter)
    → lookup key l.records ≡ some r
    → t ≤ r.window_end
    → Counts key r t l (allow key t l)
unfolding allow
within_window key t r l e in_time =
    subst (λ o. Counts key r t l (admit key t o l)) (sym e) (admit_within key t r l e in_time)

let_through_within :
    (key : String) (ts : List ℕ) (r : Window) (l : Limiter)
    → lookup key l.records ≡ some r
    → All (λ t. t ≤ r.window_end) ts
    → let_through key ts l ≤ l.limit - r.count
unfolding let_through
let_through_within key [] r l e in_time = omega arith
let_through_within key (t ∷ ts) r l e (now, later) =
    let (q, found, same_end, same_limit, counted) = within_window key t r l e now in
    let rest =
      let_through_within key ts q (allow key t l).1 found
        (subst (λ n. All (λ u. u ≤ n) ts) (sym same_end) later) in
    ground arith

opens :
    (key : String) (t : ℕ) (l : Limiter)
    → (lookup key l.records ≡ none)
      ⊎ ((r : Window) × (lookup key l.records ≡ some r) × (r.window_end < t))
    → allow key t l ≡ (true, opened key t l)
unfolding allow admit
opens key t l (inl absent) = ap (λ o. admit key t o l) absent
opens key t l (inr (r, found, over)) =
    let ended : ltb r.window_end t ≡ true = ground arith in
    ap (λ o. admit key t o l) found ∙ rw (ended)

-- From a call that opens a window on, for as long as the window lasts, no more calls of one key
-- are let through than the limit, which is not 0.
pub window_bound :
    (key : String) (t : ℕ) (ts : List ℕ) (l : Limiter)
    → 1 ≤ l.limit
    → (lookup key l.records ≡ none)
      ⊎ ((r : Window) × (lookup key l.records ≡ some r) × (r.window_end < t))
    → All (λ u. u ≤ t + l.duration) ts
    → let_through key (t ∷ ts) l ≤ l.limit
unfolding let_through
window_bound key t ts l pos fresh in_time =
    let first : Window = record { count = 1; window_end = t + l.duration } in
    let rest =
      let_through_within key ts first (opened key t l) (lookup-put key first l.records) in_time in
    subst (λ x. (if x.0 then suc (let_through key ts x.1) else let_through key ts x.1) ≤ l.limit)
      (sym (opens key t l fresh)) (omega arith)
