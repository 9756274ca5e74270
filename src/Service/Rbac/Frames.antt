-- ===== src/Service/Rbac/Frames.antt =====
-- `Frames`: the update of a role's permissions leaves the roles, the audit log and its channel
-- alone; the creation of a role adds one.
use security_system_gsb.Common.{
  ℕ, String, List, [], ◌∷◌, Option, none, some, nat_eq, string_eq, suc, length, arith,
}
use security_system_gsb.Error.{Result, ok, err}
use security_system_gsb.World.{World, Exec}
use security_system_gsb.World.Frames.{Core, Ends, ends_rules}
use security_system_gsb.Repository.Frames.{repository_rules}
use security_system_gsb.Repository.Roles
use security_system_gsb.Repository.Roles.{
  Tx, insert_links, insert_link, after_insert, commit, prepare, inserted,
}
use security_system_gsb.Model.Role.{Role, CreateRoleRequest}
use security_system_gsb.Service.Rbac

module _ {P : Core → Type 0} where
  after_insert-Ends :
      (code : Option String) (m : Exec Tx) (w : World)
      → Ends P w
      → Ends P (m w).1
      → Ends P (after_insert code m w).1
  unfolding after_insert
  after_insert-Ends none m w h hm = hm
  after_insert-Ends (some code) m w h hm = search ends_rules

  insert_links-Ends :
      (role : ℕ) (perms : List ℕ) (tx : Tx) (w : World)
      → Ends P w
      → Ends P (insert_links role perms tx w).1
  unfolding insert_links
  insert_links-Ends role [] tx w h = h
  insert_links-Ends role (perm ∷ perms) tx w h =
      search (ends_rules, after_insert-Ends, insert_links-Ends role perms) depth 20

  prepare-Ends : (perms : List ℕ) (w : World) → Ends P w → Ends P (prepare perms w).1
  prepare-Ends [] w h = h
  prepare-Ends (perm ∷ perms) w h = search ends_rules

  commit-Ends : (tx : Tx) (w : World) → Ends P w → Ends P (commit tx w).1
  commit-Ends tx w h = let here = h.at in record { at = ground arith }

  save_permissions-Ends :
      (role : ℕ) (perms : List ℕ) (w : World)
      → Ends P w
      → Ends P (Roles.save_permissions role perms w).1
  unfolding Roles.save_permissions
  save_permissions-Ends role perms w h =
      search (ends_rules, insert_links-Ends, prepare-Ends, commit-Ends) depth 20

  invalidate_users-Ends :
      (users : List ℕ) (w : World) → Ends P w → Ends P (Rbac.invalidate_users users w).1
  unfolding Rbac.invalidate_users Rbac.invalidate
  invalidate_users-Ends [] w h = h
  invalidate_users-Ends (user ∷ users) w h = invalidate_users-Ends users _ (record { at = h.at })

  invalidate_roles-Ends :
      (roles : List ℕ) (w : World) → Ends P w → Ends P (Rbac.invalidate_roles roles w).1
  unfolding Rbac.invalidate_roles
  invalidate_roles-Ends [] w h = h
  invalidate_roles-Ends (role ∷ roles) w h =
      search (ends_rules, repository_rules, invalidate_users-Ends, invalidate_roles-Ends roles)
        depth 20

  or_out_of_fuel-Ends :
      (ids : Option (List ℕ)) (w : World) → Ends P w → Ends P (Rbac.or_out_of_fuel ids w).1
  or_out_of_fuel-Ends none w h = h
  or_out_of_fuel-Ends (some ids) w h = h

  collect_from-Ends :
      (id : ℕ) (all : Result (List Role)) (w : World)
      → Ends P w
      → Ends P (Rbac.collect_from id all w).1
  collect_from-Ends id (err e) w h = h
  collect_from-Ends id (ok all) w h =
      or_out_of_fuel-Ends (Rbac.bfs (suc (length all)) all (id ∷ []) []) w h

  pub update_role_permissions-Ends :
      (role : ℕ) (perms : List ℕ) (w : World)
      → Ends P w
      → Ends P (Rbac.update_role_permissions role perms w).1
  unfolding Rbac.update_role_permissions Rbac.collect_descendant_roles
  update_role_permissions-Ends role perms w h =
      search
        (
          ends_rules, repository_rules, save_permissions-Ends, collect_from-Ends,
          invalidate_roles-Ends,
        )
        depth 20

  check_parent-Ends :
      (parent : Option ℕ) (w : World) → Ends P w → Ends P (Rbac.check_parent parent w).1
  check_parent-Ends none w h = h
  check_parent-Ends (some parent) w h = search (ends_rules, repository_rules)

  pub create_role-Ends :
      ((req : CreateRoleRequest) (v : World) → Ends P v → Ends P (Roles.create req v).1)
      → (req : CreateRoleRequest) (w : World) → Ends P w
      → Ends P (Rbac.create_role req w).1
  unfolding Rbac.create_role
  create_role-Ends creates req w h = search (ends_rules, check_parent-Ends, creates) depth 20
