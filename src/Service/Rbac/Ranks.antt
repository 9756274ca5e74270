-- ===== src/Service/Rbac/Ranks.antt =====
-- `Ranks`: the rank of a role as a function of the stored roles, where the database answers.
use security_system_gsb.Common.{
  ℕ, zero, suc, ◌≡◌, ◌<◌, ap, sym, ◌∙◌, inl, inr, String, Bool, Option, none, some, List, [], ◌∷◌,
  if◌then◌else◌, arith, find, has_key, contains, length, nat_eq, string_eq, Bool-cases,
  Option-cases,
}
use security_system_gsb.Error.{ok}
use security_system_gsb.World.{World, statement}
use security_system_gsb.World.Statements.{with_faults}
use security_system_gsb.Model.Role.{Role}
use security_system_gsb.Repository.Roles
use security_system_gsb.Repository.Roles.{role_id}
use security_system_gsb.Service.Rbac.{
  rank_from, role_rank, walk_fuel, get, set, has_permission, resolve_inherited_perms, Cache,
}
use security_system_gsb.Service.Rbac.Termination.{fresh, fresh_visit, fresh_le_length}
use security_system_gsb.Service.Rbac.Resolution.{answer}

module _ (roles : List Role) where
  abbrev parent_row : Option Role → Option ℕ
  parent_row none = none
  parent_row (some r) = r.parent_id

  abbrev or_climb : ℕ → (ℕ → ℕ) → Option ℕ → ℕ
  or_climb rank above none = rank
  or_climb rank above (some parent) = above parent

  -- `rank`, and one more for each parent up to a role that is not stored or was visited.
  unfoldable pub depth_from : ℕ → ℕ → List ℕ → ℕ → ℕ
  depth_from zero cur visited rank = rank
  depth_from (suc fuel) cur visited rank =
      let up =
        or_climb rank (λ parent. depth_from fuel parent (cur ∷ visited) (suc rank))
          (parent_row (find (has_key role_id cur) roles)) in
      if contains cur visited then rank else up

  unfoldable pub depth : ℕ → ℕ
  unfolding depth_from
  depth id = depth_from (suc (length roles)) id [] 0

rank_from-depth_from :
    (w : World) (fuel cur : ℕ) (visited : List ℕ) (rank : ℕ)
    → fresh visited w.roles < fuel
    → rank_from fuel cur visited rank (with_faults w [])
      ≡ (ok (depth_from w.roles fuel cur visited rank), with_faults w [])
unfolding rank_from depth_from Roles.find_by_id statement
rank_from-depth_from w zero cur visited rank f = absurd (omega arith)
rank_from-depth_from w (suc fuel) cur visited rank f = elim (Bool-cases (contains cur visited)) [
  | inl seen ↦ rw (seen)
  | inr new ↦ elim (Option-cases (find (has_key role_id cur) w.roles)) [
    | inl missing ↦ rw (new, missing)
    | inr (r, found) ↦ elim (Option-cases r.parent_id) [
      | inl root ↦ rw (new, found, root)
      | inr (parent, p) ↦
          rw (new, found, p)
            (rank_from-depth_from w fuel parent (cur ∷ visited) (suc rank)
              (omega (arith, fresh_visit cur visited w.roles r found new)))
    ]
  ]
]

-- Where the database answers, `RoleRank` is `depth` of the stored roles, and changes nothing.
pub role_rank-depth :
    (id : ℕ) (w : World) → w.faults ≡ [] → role_rank id w ≡ (ok (depth w.roles id), w)
unfolding role_rank depth
role_rank-depth id w f =
    let same : w ≡ with_faults w [] = ap (with_faults w) f in
    ap (role_rank id) same
    ∙ rank_from-depth_from w (walk_fuel w) id [] 0 (omega (arith, fresh_le_length [] w.roles))
    ∙ ap (λ v. (ok (depth w.roles id), v)) (sym same)

-- The check of a permission that is not cached, where the database answers.
missed :
    (role user : ℕ) (perm : String) (ps : List String) (w : World)
    → get user w.perm_cache ≡ none
    → resolve_inherited_perms (walk_fuel w) role [] (with_faults w []) ≡ (ok ps, with_faults w [])
    → has_permission role user perm (with_faults w [])
      ≡ (ok (contains perm ps), record w { perm_cache = set user ps w.perm_cache; faults = [] })
unfolding has_permission
missed role user perm ps w cold run = rw (cold, run)

hit :
    (role user : ℕ) (perm : String) (ps : List String) (w : World)
    → get user w.perm_cache ≡ some ps
    → has_permission role user perm (with_faults w [])
      ≡ (ok (contains perm ps), record w { perm_cache = w.perm_cache; faults = [] })
unfolding has_permission
hit role user perm ps w warm = rw (warm)

-- A check of a permission, where the database answers: the cache may change, and nothing else.
pub has_permission_quiet :
    (role user : ℕ) (perm : String) (w : World)
    → w.faults ≡ []
    → (b : Bool) × (cache : Cache) × (has_permission role user perm w
        ≡ (ok b, record w { perm_cache = cache; faults = [] }))
has_permission_quiet role user perm w f =
    let same : w ≡ with_faults w [] = ap (with_faults w) f in
    elim (Option-cases (get user w.perm_cache)) [
      | inr (ps, warm) ↦ (
        contains perm ps,
        w.perm_cache,
        ap (has_permission role user perm) same ∙ hit role user perm ps w warm,
      )
      | inl cold ↦
          let (ps, run, iff) =
            answer w perm (walk_fuel w) role [] (omega (arith, fresh_le_length [] w.roles)) in
          (
            contains perm ps,
            set user ps w.perm_cache,
            ap (has_permission role user perm) same ∙ missed role user perm ps w cold run,
          )
    ]
