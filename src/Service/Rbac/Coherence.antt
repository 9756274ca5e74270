-- ===== src/Service/Rbac/Coherence.antt =====
-- `Coherence`: a change to the permissions of a role takes effect at once.
use security_system_gsb.Common.{
  ℕ, suc, ◌≡◌, ◌↔◌, inl, inr, refl, ap, sym, ◌∙◌, Bool, true, some, none, List, [], ◌∷◌, find,
  order_by, length, contains, if◌then◌else◌, ltb, ◌==◌, nat_eq, string_eq, Bool-cases, Option-cases,
  String, has_key,
}
use security_system_gsb.Error.{Result, Result-cases, ok, err}
use security_system_gsb.World.{World, statement, continue, ◌>>=◌}
use security_system_gsb.World.Statements.{with_faults}
use security_system_gsb.Model.User.{User}
use security_system_gsb.Model.Role.{Role}
use security_system_gsb.Repository.Users.{user_id}
use security_system_gsb.Repository.Roles
use security_system_gsb.Repository.Roles.{Tx, insert_links, save_permissions, delete_links, commit}
use security_system_gsb.Service.Rbac.{
  has_permission, get, invalidate_roles, bfs, collect_descendant_roles, update_role_permissions,
}
use security_system_gsb.Service.Rbac.Inheritance.{Has}
use security_system_gsb.Service.Rbac.Resolution.{has_permission_iff}
use security_system_gsb.Service.Rbac.Descendants.{Below, Below-order_by, bfs-Below}
use security_system_gsb.Service.Rbac.Invalidation.{invalidate_roles-get, invalidate_roles-links}
use security_system_gsb.Service.Rbac.Saved.{
  insert_links-same, has_link, Sets, save_permissions-Sets,
}

abbrev Same : World → World → Type 0
Same w v =
    (v.users ≡ w.users) × (v.roles ≡ w.roles) × (v.perm_cache ≡ w.perm_cache) × (v.faults ≡ [])

commit-Same :
    (r : Result Tx) (w v : World)
    → v ≡ with_faults w []
    → Same w (continue r (λ tx. statement (commit tx)) v).1
unfolding statement
commit-Same (err e) w v same = rw same (refl, refl, refl, refl)
commit-Same (ok tx) w v same = rw same (elim (Bool-cases tx.failed) [
  | inl failed ↦ rw failed (refl, refl, refl, refl)
  | inr fine ↦ rw fine (refl, refl, refl, refl)
])

save-Same :
    (role : ℕ) (perms : List ℕ) (w : World)
    → Same w (save_permissions role perms (with_faults w [])).1
unfolding save_permissions statement
save-Same role [] w =
    commit-Same (insert_links role [] (delete_links role w) (with_faults w [])).0 w _
      (insert_links-same role [] (delete_links role w) w)
save-Same role (perm ∷ perms) w =
    commit-Same (insert_links role (perm ∷ perms) (delete_links role w) (with_faults w [])).0 w _
      (insert_links-same role (perm ∷ perms) (delete_links role w) w)

-- The roles in the order in which the search reads them.
abbrev by_id : World → List Role
by_id w = order_by (λ a b. ltb a.id b.id) w.roles

-- What the search and the invalidation leave stored.
stored_links :
    (role : ℕ) (v : World)
    → v.faults ≡ []
    → ((collect_descendant_roles role >>= invalidate_roles) v).0 ≡ ok tt
    → ((collect_descendant_roles role >>= invalidate_roles) v).1.role_permissions
      ≡ v.role_permissions
unfolding collect_descendant_roles Roles.list_all statement
stored_links role v faults e =
    elim (Option-cases (bfs (suc (length (by_id v))) (by_id v) (role ∷ []) [])) [
      | inl endless ↦ absurd (cc (rw (faults, endless) at e))
      | inr (ids, ended) ↦ rw (faults, ended) (invalidate_roles-links ids v)
    ]

refreshed :
    (role n : ℕ) (u : User) (w v : World)
    → Same w v
    → ((collect_descendant_roles role >>= invalidate_roles) v).0 ≡ ok tt
    → find (has_key user_id n) w.users ≡ some u
    → Below w.roles role u.role_id
    → get u.id ((collect_descendant_roles role >>= invalidate_roles) v).1.perm_cache ≡ none
unfolding collect_descendant_roles Roles.list_all statement
refreshed role n u w v (users, roles, cache, faults) e found below =
    elim (Option-cases (bfs (suc (length (by_id v))) (by_id v) (role ∷ []) [])) [
      | inl endless ↦ absurd (cc (rw (faults, endless) at e))
      | inr (ids, ended) ↦
          let below' = Below-order_by (λ a b. ltb a.id b.id) w.roles role u.role_id below in
          let listed =
            bfs-Below (by_id v) (suc (length (by_id v))) role u.role_id ids ended
              (rw roles below') in
          rw (faults, ended) (invalidate_roles-get ids n u v (rw users found) (inl listed))
    ]

-- Where the database answers and the permissions of a role have been changed, no user that is
-- stored with this role or with a role below it, by any chain of parents, has permissions in the
-- cache: the next check resolves them anew.
pub update_role_permissions-get :
    (role n : ℕ) (perms : List ℕ) (u : User) (w : World)
    → w.faults ≡ []
    → (update_role_permissions role perms w).0 ≡ ok tt
    → find (has_key user_id n) w.users ≡ some u
    → Below w.roles role u.role_id
    → get u.id (update_role_permissions role perms w).1.perm_cache ≡ none
unfolding update_role_permissions
update_role_permissions-get role n perms u w f e found below =
    let same : w ≡ with_faults w [] = ap (with_faults w) f in
    let v = (save_permissions role perms (with_faults w [])).1 in
    let e2 : (update_role_permissions role perms (with_faults w [])).0 ≡ ok tt =
      ap (λ x. (update_role_permissions role perms x).0) (sym same) ∙ e in
    elim (Result-cases (save_permissions role perms (with_faults w [])).0) [
      | inr (x, failed) ↦ absurd (cc (rw failed at e2))
      | inl (_, saved) ↦
          ap (λ x. get u.id (update_role_permissions role perms x).1.perm_cache) same
          ∙ rw (saved)
              (refreshed role n u w v (save-Same role perms w) (rw saved at e2) found below)
    ]

update_role_permissions-Sets :
    (role : ℕ) (perms : List ℕ) (w : World) (r p : ℕ)
    → w.faults ≡ []
    → (update_role_permissions role perms w).0 ≡ ok tt
    → Sets role perms r p w (update_role_permissions role perms w).1
unfolding update_role_permissions
update_role_permissions-Sets role perms w r p f e =
    let same : w ≡ with_faults w [] = ap (with_faults w) f in
    let v = (save_permissions role perms (with_faults w [])).1 in
    let e2 : (update_role_permissions role perms (with_faults w [])).0 ≡ ok tt =
      ap (λ x. (update_role_permissions role perms x).0) (sym same) ∙ e in
    let (users, roles, cache, faults) = save-Same role perms w in
    elim (Result-cases (save_permissions role perms (with_faults w [])).0) [
      | inr (x, failed) ↦ absurd (cc (rw failed at e2))
      | inl (_, saved) ↦
          ap (λ x. has_link r p (update_role_permissions role perms x).1.role_permissions) same
          ∙ rw (saved) (
              ap (has_link r p) (stored_links role v faults (rw saved at e2))
              ∙ save_permissions-Sets role perms w r p saved)
    ]

-- Where the database answers, a change to the permissions of a role takes effect at once. When it
-- returns without an error, the stored rows give the role exactly the permissions of the list, and
-- every other role exactly what it had; and the next check for a user that is stored with this
-- role, or with a role below it by any chain of parents, says whether the user's role has the
-- permission by what is stored after the change. Permissions that were cached before play no part.
pub update_takes_effect :
    (role n : ℕ) (perms : List ℕ) (u : User) (w : World) (name : String)
    → w.faults ≡ []
    → (update_role_permissions role perms w).0 ≡ ok tt
    → find (has_key user_id n) w.users ≡ some u
    → Below w.roles role u.role_id
    → let v = with_faults (update_role_permissions role perms w).1 [] in
      ((r p : ℕ)
        → has_link r p v.role_permissions
          ≡ (if role == r then contains p perms else has_link r p w.role_permissions))
      × (b : Bool) × ((has_permission u.role_id u.id name v).0 ≡ ok b)
      × ((b ≡ true) ↔ Has v name u.role_id)
update_takes_effect role n perms u w name f e found below =
    let v = with_faults (update_role_permissions role perms w).1 [] in
    let cold = update_role_permissions-get role n perms u w f e found below in
    let (b, run, iff) = has_permission_iff v name u.role_id u.id refl cold in
    (λ r p. update_role_permissions-Sets role perms w r p f e, b, run, iff)
