-- ===== src/Service/Rbac/Termination.antt =====
-- The walks over parents end, whatever roles are stored and whatever statements fail: a role that
-- is visited is in `visited` from then on, so each round uses up one role.
use security_system_gsb.Common.{
  ℕ, zero, suc, ◌+◌, ◌≡◌, ◌≤◌, ◌<◌, refl, false, not, inl, inr, String, Option, none, some, List,
  [], ◌∷◌, ◌==◌, nat_eq, arith, find, has_key, select, count_where, contains, length, Bool-cases,
}
use security_system_gsb.Error.{Result, ok, err}
use security_system_gsb.World.{World, Exec, one_row}
use security_system_gsb.World.Statements.{with_faults}
use security_system_gsb.Model.Role.{Role, Permission}
use security_system_gsb.Repository.Reads.{find_role, role_permissions}
use security_system_gsb.Repository.Roles.{role_id, grants}
use security_system_gsb.Service.Rbac.{
  resolve_inherited_perms, resolve_role, with_role, with_permissions, with_parent, names, add_new,
  rank_from, role_rank, climb, parent_of, walk_fuel,
}

-- The number of stored roles that a walk has not visited.
unfoldable pub fresh : List ℕ → List Role → ℕ
fresh visited = count_where λ r. not (contains r.id visited)

fresh_visit_le :
    (id : ℕ) (visited : List ℕ) (roles : List Role)
    → fresh (id ∷ visited) roles ≤ fresh visited roles
unfolding fresh count_where contains
fresh_visit_le id visited [] = omega arith
fresh_visit_le id visited (r ∷ rs) = ground (arith, fresh_visit_le id visited rs)

-- A visit of a role that is stored and new uses it up.
pub fresh_visit :
    (id : ℕ) (visited : List ℕ) (roles : List Role) (r : Role)
    → find (has_key role_id id) roles ≡ some r
    → contains id visited ≡ false
    → fresh (id ∷ visited) roles < fresh visited roles
unfolding fresh count_where contains find
fresh_visit id visited [] r e n = absurd (cc)
fresh_visit id visited (x ∷ xs) r e n = elim (Bool-cases (x.id == id)) [
  | inl y ↦
      let same : x.id ≡ id = ground arith in
      let new : contains x.id visited ≡ false = rw same n in
      ground (arith, fresh_visit_le id visited xs)
  | inr m ↦ ground (arith, fresh_visit id visited xs r (rw m at e) n)
]

pub fresh_le_length : (visited : List ℕ) (roles : List Role) → fresh visited roles ≤ length roles
unfolding fresh count_where
fresh_le_length visited [] = omega arith
fresh_le_length visited (r ∷ rs) = ground (arith, fresh_le_length visited rs)

-- A run that returns, and leaves all but the schedule of faults as it was.
abbrev pub Reads {ℓ} : {A : Type ℓ} → Exec A → World → Type ℓ
Reads {A} m w = (a : A) × (fs : List (Option String)) × (m w ≡ (ok a, with_faults w fs))

module _ (above : ℕ → Exec (List String)) where
  with_parent-Reads :
      (own : List String) (parent : Option ℕ) (w : World)
      → ((p : ℕ) → parent ≡ some p → Reads (above p) w)
      → Reads (with_parent above own parent) w
  unfolding with_parent
  with_parent-Reads own none w go = (own, w.faults, refl)
  with_parent-Reads own (some p) w go =
      let (inherited, fs, e) = go p refl in (add_new own inherited, fs, rw e)

  with_permissions-Reads :
      (r : Role) (directs : Result (List Permission)) (w : World)
      → ((p : ℕ) → r.parent_id ≡ some p → Reads (above p) w)
      → Reads (with_permissions above r directs) w
  with_permissions-Reads r (err x) w go = ([], w.faults, refl)
  with_permissions-Reads r (ok ps) w go = with_parent-Reads (add_new [] (names ps)) r.parent_id w go

  with_role-Reads :
      (id : ℕ) (found : Option Role) (w : World)
      → ((r : Role) (p : ℕ) (fs : List (Option String))
          → found ≡ some r
          → Reads (above p) (with_faults w fs))
      → Reads (with_role above id (one_row found)) w
  with_role-Reads id none w go = ([], w.faults, refl)
  with_role-Reads id (some r) w go = elim (role_permissions id w) [
    | inl (fs, e) ↦
        let (perms, fs', e') =
          with_permissions-Reads r (ok (select (grants id w.role_permissions) w.permissions))
            (with_faults w fs) (λ p _. go r p fs refl) in
        (perms, fs', rw e e')
    | inr (fs, text, e) ↦ ([], fs, rw e)
  ]

  resolve_role-Reads :
      (id : ℕ) (w : World)
      → ((r : Role) (p : ℕ) (fs : List (Option String))
          → find (has_key role_id id) w.roles ≡ some r
          → Reads (above p) (with_faults w fs))
      → Reads (resolve_role above id) w
  unfolding resolve_role
  resolve_role-Reads id w go = elim (find_role id w) [
    | inl (fs, e) ↦
        let (perms, fs', e') =
          with_role-Reads id (find (has_key role_id id) w.roles) (with_faults w fs)
            (λ r p fs found. go r p fs found) in
        (perms, fs', rw e e')
    | inr (fs, text, e) ↦ ([], fs, rw e)
  ]

resolve-Reads :
    (fuel id : ℕ) (visited : List ℕ) (w : World)
    → fresh visited w.roles < fuel
    → Reads (resolve_inherited_perms fuel id visited) w
unfolding resolve_inherited_perms
resolve-Reads zero id visited w h = absurd (omega arith)
resolve-Reads (suc fuel) id visited w h = elim (Bool-cases (contains id visited)) [
  | inl seen ↦ ([], w.faults, rw seen)
  | inr new ↦ rw new (
      resolve_role-Reads (λ parent. resolve_inherited_perms fuel parent (id ∷ visited)) id w
        (λ r p fs found.
          resolve-Reads fuel p (id ∷ visited) (with_faults w fs)
            (omega (arith, fresh_visit id visited w.roles r found new))))
]

-- With fuel for every stored role and one more, the resolution of a role's permissions returns,
-- whatever the parents are (cycles included) and whatever statements fail, and changes nothing.
pub resolve_inherited_perms-Reads :
    (id : ℕ) (w : World) → Reads (resolve_inherited_perms (walk_fuel w) id []) w
resolve_inherited_perms-Reads id w =
    resolve-Reads (walk_fuel w) id [] w (omega (arith, fresh_le_length [] w.roles))

-- A rank that is reached, at most one step above `rank` for each role not visited.
abbrev Ranks : Exec ℕ → ℕ → List ℕ → World → Type 0
Ranks m rank visited w =
    (n : ℕ) × (fs : List (Option String)) × (m w ≡ (ok n, with_faults w fs))
    × (n ≤ rank + fresh visited w.roles)

module _ (above : ℕ → Exec ℕ) (rank cur : ℕ) (visited : List ℕ)
    (new : contains cur visited ≡ false) where
  climb-Ranks :
      (r : Role) (w : World)
      → find (has_key role_id cur) w.roles ≡ some r
      → (parent : Option ℕ) → ((p : ℕ) → Ranks (above p) (suc rank) (cur ∷ visited) w)
      → Ranks (climb above rank parent) rank visited w
  climb-Ranks r w e none go = (rank, w.faults, refl, omega arith)
  climb-Ranks r w e (some p) go =
      let (n, fs, done, bound) = go p in
      (n, fs, done, omega (arith, fresh_visit cur visited w.roles r e new))

  found-Ranks :
      (row : Option Role) (w : World)
      → find (has_key role_id cur) w.roles ≡ row
      → ((r : Role) (p : ℕ) → row ≡ some r → Ranks (above p) (suc rank) (cur ∷ visited) w)
      → Ranks (climb above rank (parent_of (one_row row))) rank visited w
  found-Ranks none w e go = (rank, w.faults, refl, omega arith)
  found-Ranks (some r) w e go = climb-Ranks r w e r.parent_id (λ p. go r p refl)

rank-Reads :
    (fuel cur : ℕ) (visited : List ℕ) (rank : ℕ) (w : World)
    → fresh visited w.roles < fuel
    → Ranks (rank_from fuel cur visited rank) rank visited w
unfolding rank_from
rank-Reads zero cur visited rank w h = absurd (omega arith)
rank-Reads (suc fuel) cur visited rank w h = elim (Bool-cases (contains cur visited)) [
  | inl seen ↦ (rank, w.faults, rw seen, omega arith)
  | inr new ↦ rw new (elim (find_role cur w) [
    | inl (fs, e) ↦ rw e (
        found-Ranks (λ parent. rank_from fuel parent (cur ∷ visited) (suc rank)) rank cur visited
          new (find (has_key role_id cur) w.roles) (with_faults w fs) refl
          (λ r p found.
            rank-Reads fuel p (cur ∷ visited) (suc rank) (with_faults w fs)
              (omega (arith, fresh_visit cur visited w.roles r found new))))
    | inr (fs, text, e) ↦ rw e (rank, fs, refl, omega arith)
  ])
]

-- The rank of a role is always found, is at most the number of stored roles, and finding it
-- changes nothing, whatever the parents are and whatever statements fail.
pub role_rank_bounded :
    (id : ℕ) (w : World)
    → (n : ℕ) × (fs : List (Option String)) × (role_rank id w ≡ (ok n, with_faults w fs))
      × (n ≤ length w.roles)
unfolding role_rank
role_rank_bounded id w =
    let (n, fs, e, bound) =
      rank-Reads (walk_fuel w) id [] 0 w (omega (arith, fresh_le_length [] w.roles)) in
    (n, fs, e, omega (arith, fresh_le_length [] w.roles))
