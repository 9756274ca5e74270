-- ===== src/Service/Users/Permissions.antt =====
-- `Permissions`: what an update of a user does to the permission cache.
use security_system_gsb.Common.{
  ℕ, ◌≡◌, ◌<◌, true, none, ltb, ◌==◌, nat_eq, string_eq, if◌then◌else◌, arith, ap, ◌∙◌,
}
use security_system_gsb.Error.{ok}
use security_system_gsb.World.{World, statement, pure}
use security_system_gsb.World.Statements.{bind_run}
use security_system_gsb.Model.User.{UpdateUserRequest}
use security_system_gsb.Repository.Users
use security_system_gsb.Service.Rbac.{get, invalidate}
use security_system_gsb.Service.Rbac.Invalidation.{get-without}
use security_system_gsb.Service.Users.{update}

update_row-cache :
    (id : ℕ) (req : UpdateUserRequest) (w : World)
    → (Users.update id req w).1.perm_cache ≡ w.perm_cache
unfolding Users.update statement
update_row-cache id req w = ground arith

-- An update that names a role and succeeds drops the user's cached permissions, so that the next
-- request resolves those of the new role, and leaves what is cached for others. Any statement
-- may fail.
pub update-get :
    (id : ℕ) (req : UpdateUserRequest) (w : World)
    → (update id req w).0 ≡ ok tt
    → 0 < req.role_id
    → (other : ℕ)
    → get other (update id req w).1.perm_cache
      ≡ (if other == id then none else get other w.perm_cache)
unfolding update invalidate
update-get id req w e named other =
    let named_test : ltb 0 req.role_id ≡ true = ground arith in
    let (_, same) =
      bind_run (Users.update id req) (λ _. if ltb 0 req.role_id then invalidate id else pure tt) w
        e in
    ap (λ x. get other x.1.perm_cache) same
    ∙ rw (named_test, update_row-cache id req w, get-without id other w.perm_cache)
