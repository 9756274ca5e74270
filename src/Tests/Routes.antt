-- ===== src/Tests/Routes.antt =====
-- Requests on the desk, as the router takes them, and the roles behind them.
use security_system_gsb.Common.{
  ℕ, arith, any_where, order_by, some, [], ◌∷◌, ◌==◌, Bool-cases, inl, inr, contains, find, select,
  has_key, ◌≡◌, ◌⊎◌, ◌↔◌, refl, if◌then◌else◌, Bool, true, none, string_eq, nat_eq,
}
use security_system_gsb.World.{statement}
use security_system_gsb.World.Statements.{with_faults}
use security_system_gsb.Model.User.{User}
use security_system_gsb.Repository.Users.{user_id}
use security_system_gsb.Repository.Roles.{
  role_id, save_permissions, insert_links, list_all, find_users_with_role,
}
use security_system_gsb.Service.Rbac.Descendants.{itself, under, bfs_endless}
use security_system_gsb.Service.Rbac.Coherence.{update_takes_effect}
use security_system_gsb.Service.Rbac.Saved.{has_link}
use security_system_gsb.Service.Rbac.{
  update_role_permissions, children, bfs, collect_descendant_roles, invalidate_roles,
}
use security_system_gsb.Error.{ok}
use security_system_gsb.Pkg.Libraries.{AccessClaims}
use security_system_gsb.Service.Rbac.{has_permission, role_rank, get}
use security_system_gsb.Service.Rbac.Inheritance.{Has}
use security_system_gsb.Service.Rbac.Resolution.{has_permission_iff}
use security_system_gsb.Service.Rbac.Depth.{AtDepth, root, child, role_rank-AtDepth}
use security_system_gsb.Router.{
  is_public, auth_logout, admin_verify_audit_chain, handler, required, route,
}
use security_system_gsb.Router.Guards.{route_cases, Refused, Runs, Identified}
use security_system_gsb.Router.Sessions.{logout-sessions}
use security_system_gsb.Tests.Data.{service, ann, world}
use security_system_gsb.Tests.Desk.{base, officer, admin, desk, open_libs, arriving}

route_cases_example :
    let out = route open_libs service admin_verify_audit_chain (arriving "1") desk in
    Refused desk out
    ⊎ ((claims : AccessClaims) × Identified open_libs service admin_verify_audit_chain
          (arriving "1")
          desk
          claims
        × Runs claims
            (required admin_verify_audit_chain)
            (handler open_libs service admin_verify_audit_chain)
            (arriving "1")
            desk
            out)
unfolding is_public
route_cases_example =
    route_cases open_libs service admin_verify_audit_chain (arriving "1") desk refl

logout-sessions_example :
    (route open_libs service auth_logout (arriving "") desk).1.sessions ≡ desk.sessions
logout-sessions_example = logout-sessions open_libs service (arriving "") desk refl

not_cached : get 2 desk.perm_cache ≡ none
unfolding get
not_cached = refl

has_permission_iff_example :
    (b : Bool) × ((has_permission 3 2 "alert:read" desk).0 ≡ ok b)
    × ((b ≡ true) ↔ Has desk "alert:read" 3)
has_permission_iff_example = has_permission_iff desk "alert:read" 3 2 refl not_cached

base_found : find (has_key role_id 1) desk.roles ≡ some base
unfolding find
base_found = refl

officer_found : find (has_key role_id 2) desk.roles ≡ some officer
unfolding find
officer_found = refl

admin_found : find (has_key role_id 3) desk.roles ≡ some admin
unfolding find
admin_found = refl

admin_depth : AtDepth desk.roles 3 2
admin_depth =
    child admin 2 admin_found refl (child officer 1 officer_found refl (root base base_found refl))

role_rank-AtDepth_example : role_rank 3 desk ≡ (ok 2, desk)
role_rank-AtDepth_example = role_rank-AtDepth 3 2 desk refl admin_depth

abbrev admin_ann : User
admin_ann = record ann { role_id = 3 }

regranted : (update_role_permissions 1 (1 ∷ []) desk).0 ≡ ok tt
unfolding update_role_permissions save_permissions statement insert_links any_where select
    collect_descendant_roles list_all order_by invalidate_roles find_users_with_role
regranted = refl

ann_found : find (has_key user_id 1) desk.users ≡ some admin_ann
unfolding find
ann_found = refl

officer_below : contains 2 (children desk.roles 1) ≡ true
unfolding contains select
officer_below = refl

admin_below : contains 3 (children desk.roles 2) ≡ true
unfolding contains select
admin_below = refl

update_takes_effect_example :
    let v = with_faults (update_role_permissions 1 (1 ∷ []) desk).1 [] in
    ((r p : ℕ)
      → has_link r p v.role_permissions
        ≡ (if 1 == r then contains p (1 ∷ []) else has_link r p desk.role_permissions))
    × (b : Bool) × ((has_permission 3 1 "alert:read" v).0 ≡ ok b)
    × ((b ≡ true) ↔ Has v "alert:read" 3)
update_takes_effect_example =
    update_takes_effect 1 1 (1 ∷ []) admin_ann desk "alert:read" refl regranted ann_found
      (under 2 (under 1 itself officer_below) admin_below)

each_other :
    (x : ℕ)
    → contains x (1 ∷ 2 ∷ []) ≡ true
    → (c : ℕ) × (contains c (1 ∷ 2 ∷ []) ≡ true) × (contains c (children world.roles x) ≡ true)
unfolding contains select
each_other x seen = elim (Bool-cases (x == 1)) [
  | inl one ↦ let e : x ≡ 1 = ground arith in (2, refl, rw e refl)
  | inr other ↦ let e : x ≡ 2 = ground arith in (1, refl, rw e refl)
]

bfs_endless_example : bfs 1000 world.roles (1 ∷ []) [] ≡ none
unfolding contains
bfs_endless_example = bfs_endless world.roles (1 ∷ 2 ∷ []) 1 each_other refl 1000
