-- ===== src/Service/Rbac/Collected.antt =====
-- `Collected`: what `collectDescendantRoles` returns where the roles are a tree.
use security_system_gsb.Common.{
  ℕ, suc, some, ◌≡◌, ◌↔◌, ap, sym, ◌∙◌, true, List, [], ◌∷◌, Distinct, order_by, order_by-All,
  order_by-Distinct, contains, ltb, length, nat_eq,
}
use security_system_gsb.Error.{ok}
use security_system_gsb.World.{World, statement}
use security_system_gsb.World.Frames.{core}
use security_system_gsb.World.Statements.{with_faults}
use security_system_gsb.Repository.Roles
use security_system_gsb.Model.Role.{Role}
use security_system_gsb.Repository.Roles.{role_id}
use security_system_gsb.Service.Rbac.{collect_descendant_roles, bfs}
use security_system_gsb.Service.Rbac.Descendants.{Below, Below-order_by, Below-unordered, bfs-Below}
use security_system_gsb.Service.Rbac.Descent.{self, bfs_ends, All-contains}
use security_system_gsb.Service.Rbac.Tree.{Tree, HasOlderParent}

collects :
    (id : ℕ) (ids : List ℕ) (w : World)
    → w.faults ≡ []
    → (let all = order_by (λ a b. ltb a.id b.id) w.roles in
        bfs (suc (length all)) all (id ∷ []) [] ≡ some ids)
    → collect_descendant_roles id w ≡ (ok ids, with_faults w [])
unfolding collect_descendant_roles Roles.list_all statement
collects id ids w f e = rw (f, e)

-- Where the database answers and the roles are a tree (their identifiers are distinct and a
-- parent's is smaller), the search for the roles below a role ends, changes nothing, and returns
-- the role and those below it, each once and no other.
pub collect_exactly :
    (id : ℕ) (w : World)
    → w.faults ≡ []
    → Tree (core w)
    → (ids : List ℕ) × (collect_descendant_roles id w ≡ (ok ids, w))
      × Distinct self ids
      × ((x : ℕ) → (contains x ids ≡ true) ↔ Below w.roles id x)
collect_exactly id w f t =
    let before = λ (a b : Role). ltb a.id b.id in
    let all = order_by before w.roles in
    let (ids, ended, once, below) =
      bfs_ends all id (order_by-Distinct role_id before w.roles t.distinct)
        (order_by-All HasOlderParent before w.roles t.older) in
    (
      ids,
      collects id ids w f ended ∙ ap (λ fs. (ok ids, with_faults w fs)) (sym f),
      once,
      λ x. (
        λ there.
            Below-unordered before w.roles id x (All-contains (Below all id) x ids there below),
        λ under_.
            bfs-Below all (suc (length all)) id x ids ended
              (Below-order_by before w.roles id x under_),
      ),
    )
