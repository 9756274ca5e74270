-- ===== src/Repository/Audits.antt =====
-- internal/repository/audit_repo.go, over `audit_logs`. Its hash columns are CHAR(64) in
-- migrations/001_schema.sql: a shorter text is stored and read back with blanks behind it.
use security_system_gsb.Common.{
  Bool, true, false, ◌&&◌, ◌||◌, nat_eq, select, ℕ, zero, suc, ◌+◌, String, Option, none, some,
  List, [], ◌∷◌, ◌++◌, map, ltb, ◌==◌, string_eq, if◌then◌else◌, order_by,
}
use security_system_gsb.Error.{◌++◌ as join, ok}
use security_system_gsb.World.{World, Exec, statement, gets}
use security_system_gsb.Model.Audit.{AuditLog, AuditQueryParams}
use security_system_gsb.Repository.Paging.{Paged, paged, offset_bits, page_size_within, limit}
use security_system_gsb.Strconv.{codes}

-- A text in a column CHAR(n).
unfoldable pub padded : ℕ → String → String
padded zero s = s
padded (suc n) String.[] = String.◌∷◌ " " (padded n String.[])
padded (suc n) (String.◌∷◌ c s) = String.◌∷◌ c (padded n s)

abbrev pub stored : AuditLog → World → AuditLog
stored l w = record l {
  id = w.serials.audit_logs + 1;
  prev_hash = padded 64 l.prev_hash;
  hash = padded 64 l.hash;
  created_at = w.now;
}

-- Returns the new row's identifier.
unfoldable pub create : AuditLog → Exec ℕ
unfolding padded
create l = statement λ w. (
  ok (w.serials.audit_logs + 1),
  record w {
    audit_logs = w.audit_logs ++ stored l w ∷ [];
    serials = record (w.serials) { audit_logs = w.serials.audit_logs + 1 };
  },
)

-- ORDER BY id DESC
abbrev pub newest_first : List AuditLog → List AuditLog
newest_first = order_by λ a b. ltb b.id a.id

abbrev pub initial_hash : String
initial_hash = "0000000000000000000000000000000000000000000000000000000000000000"

-- The first row of the query, or the initial hash on sql.ErrNoRows.
unfoldable pub hash_or_initial : List AuditLog → String
hash_or_initial [] = initial_hash
hash_or_initial (l ∷ ls) = l.hash

unfoldable pub get_last_hash : Exec String
unfolding hash_or_initial
get_last_hash = statement (gets λ w. hash_or_initial (newest_first w.audit_logs))

pub record Entry : Type 0 where
  pub id : ℕ
  pub prev_hash : String
  pub hash : String

abbrev pub entry : AuditLog → Entry
entry l = record { id = l.id; prev_hash = l.prev_hash; hash = l.hash }

-- The loop of `VerifyChain`: the entries are newest first and it starts at the oldest, so the
-- rest of the list is looked at before the pair at its head.
abbrev or_newer : Option ℕ → Entry → Entry → Option ℕ
or_newer (some id) newer older = some id
or_newer none newer older = if newer.prev_hash == older.hash then none else some newer.id

unfoldable pub first_broken : List Entry → Option ℕ
first_broken [] = none
first_broken (newer ∷ []) = none
first_broken (newer ∷ older ∷ rest) = or_newer (first_broken (older ∷ rest)) newer older

abbrev pub or_zero : Option ℕ → ℕ
or_zero none = 0
or_zero (some id) = id

unfoldable pub verify_chain : ℕ → Exec ℕ
unfolding first_broken limit
verify_chain last_n =
    statement
      (gets λ w. or_zero (first_broken (map entry (limit last_n (newest_first w.audit_logs)))))

-- The pattern of LIKE: `%` is any text, `_` any character, and a backslash takes the next one as
-- it stands.
abbrev some_rest : (List ℕ → Bool) → List ℕ → Bool
some_rest fits [] = fits []
some_rest fits (c ∷ cs) = fits (c ∷ cs) || some_rest fits cs

abbrev one_then : (List ℕ → Bool) → (ℕ → Bool) → List ℕ → Bool
one_then fits test [] = false
one_then fits test (c ∷ cs) = test c && fits cs

unfoldable pub like : List ℕ → List ℕ → Bool
like [] [] = true
like [] (c ∷ cs) = false
like (p ∷ []) cs =
    if p == b'%'
    then true
    else if p == b'_'
    then one_then (like []) (λ c. true) cs
    else one_then (like []) (λ c. c == p) cs
like (p ∷ q ∷ ps) cs =
    let behind = like (q ∷ ps) in
    let escaped = like ps in
    if p == b'%'
    then some_rest behind cs
    else if p == b'_'
    then one_then behind (λ c. true) cs
    else if p == b'\\'
    then one_then escaped (λ c. c == q) cs
    else one_then behind (λ c. c == p) cs

-- action LIKE $1, with the parameter `action + "%"`.
abbrev pub action_like : String → String → Bool
action_like pattern action = like (codes (join pattern "%")) (codes action)

-- The conditions that the code puts into WHERE.
unfoldable pub matches : AuditQueryParams → AuditLog → Bool
unfolding like
matches q l =
    (q.user_id == 0 || l.user_id == q.user_id)
    && ((q.action == "" || action_like q.action l.action)
        && ((q.resource == "" || l.resource == q.resource)
            && (q.result == "" || l.result == q.result)))

-- The query does not read `prev_hash`.
abbrev scanned : AuditLog → AuditLog
scanned l = record l { prev_hash = "" }

-- At most 200 rows, 50 where the request asks for none or more.
unfoldable pub list : AuditQueryParams → Exec (Paged AuditLog)
unfolding matches
list q =
    let size = page_size_within 200 50 q.page_size in
    paged (offset_bits q.page size) size (λ w. select (matches q) w.audit_logs) newest_first scanned
