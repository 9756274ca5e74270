-- ===== src/Service/Rbac.antt =====
-- internal/service/rbac_service.go. The map `store` of the cache is an association list in `World`;
-- the mutex makes each access one step. The walk over parents takes fuel, one round for each role
-- and one more.
pub mod Collected
pub mod Descent
pub mod Tree
pub mod Frames
pub mod Termination
pub mod Inheritance
pub mod Resolution
pub mod Effects
pub mod Ranks
pub mod Depth
pub mod Descendants
pub mod Invalidation
pub mod Saved
pub mod Coherence
use security_system_gsb.Common.{
  ℕ, zero, suc, ◌≡◌, String, Bool, true, false, Option, none, some, List, [], ◌∷◌, ◌++◌, map, ◌==◌,
  nat_eq, string_eq, if◌then◌else◌, length, contains, select,
}
use security_system_gsb.Error.{Error, wrap, out_of_fuel, Result, ok, err}
use security_system_gsb.World.{World, Exec, pure, raise, gets, modify, lift, attempt, ◌>>=◌, ◌>>◌}
use security_system_gsb.Model.Role.{Role, Permission, CreateRoleRequest}
use security_system_gsb.Repository.Roles

abbrev pub Cache : Type 0
Cache = List (ℕ × List String)

unfoldable pub get : ℕ → Cache → Option (List String)
get user [] = none
get user ((u, perms) ∷ store) = if u == user then some perms else get user store

-- delete(c.store, userID)
unfoldable pub without : ℕ → Cache → Cache
without user [] = []
without user ((u, perms) ∷ store) =
    let rest = without user store in if u == user then rest else (u, perms) ∷ rest

unfoldable pub set : ℕ → List String → Cache → Cache
unfolding without
set user perms store = (user, perms) ∷ without user store

unfoldable pub invalidate : ℕ → Exec (Unit {0})
unfolding without
invalidate user = modify (λ w. record w { perm_cache = without user w.perm_cache })

unfoldable pub invalidate_all : Exec (Unit {0})
invalidate_all = modify (λ w. record w { perm_cache = [] })

-- The loop over names with the set `seen` of those in `result`.
unfoldable pub add_new : List String → List String → List String
unfolding contains
add_new result [] = result
add_new result (name ∷ names) =
    add_new (if contains name result then result else result ++ name ∷ []) names

abbrev pub names : List Permission → List String
names = map λ p. p.name

-- The part of `resolveInheritedPerms` behind the direct permissions; `above` is its own call.
unfoldable pub with_parent : (ℕ → Exec (List String)) → List String → Option ℕ → Exec (List String)
unfolding add_new
with_parent above own none = pure own
with_parent above own (some parent) = do inherited ← above parent; pure (add_new own inherited)

abbrev pub with_permissions :
    (ℕ → Exec (List String)) → Role → Result (List Permission) → Exec (List String)
with_permissions above role (err e) = pure []
with_permissions above role (ok ps) = with_parent above (add_new [] (names ps)) role.parent_id

abbrev pub with_role : (ℕ → Exec (List String)) → ℕ → Result Role → Exec (List String)
with_role above id (err e) = pure []
with_role above id (ok role) = do
  directs ← attempt (Roles.get_permissions id)
  with_permissions above role directs

unfoldable pub resolve_role : (ℕ → Exec (List String)) → ℕ → Exec (List String)
unfolding with_parent
resolve_role above id = do found ← attempt (Roles.find_by_id id); with_role above id found

unfoldable pub resolve_inherited_perms : ℕ → ℕ → List ℕ → Exec (List String)
unfolding resolve_role contains
resolve_inherited_perms zero id visited = raise out_of_fuel
resolve_inherited_perms (suc fuel) id visited =
    if contains id visited
    then pure []
    else resolve_role (λ parent. resolve_inherited_perms fuel parent (id ∷ visited)) id

abbrev pub walk_fuel : World → ℕ
walk_fuel w = suc (length w.roles)

-- On a miss the resolved permissions are stored under the user alone.
abbrev on_miss : ℕ → ℕ → Option (List String) → Exec (List String)
on_miss role user (some perms) = pure perms
on_miss role user none = do
  fuel ← gets walk_fuel
  perms ← resolve_inherited_perms fuel role []
  modify (λ w. record w { perm_cache = set user perms w.perm_cache })
  pure perms

unfoldable pub get_effective_permissions : ℕ → ℕ → Exec (List String)
unfolding set
get_effective_permissions role user = do
  cached ← gets (λ w. get user w.perm_cache)
  on_miss role user cached

unfoldable pub has_permission : ℕ → ℕ → String → Exec Bool
unfolding get_effective_permissions
has_permission role user perm = do
  perms ← get_effective_permissions role user
  pure (contains perm perms)

-- The parent of a role, `none` where the walk of `RoleRank` ends.
abbrev pub parent_of : Result Role → Option ℕ
parent_of (err e) = none
parent_of (ok role) = role.parent_id

abbrev pub climb : (ℕ → Exec ℕ) → ℕ → Option ℕ → Exec ℕ
climb above rank none = pure rank
climb above rank (some parent) = above parent

unfoldable pub rank_from : ℕ → ℕ → List ℕ → ℕ → Exec ℕ
rank_from zero cur visited rank = raise out_of_fuel
rank_from (suc fuel) cur visited rank = if contains cur visited then pure rank else do
  found ← attempt (Roles.find_by_id cur)
  climb (λ parent. rank_from fuel parent (cur ∷ visited) (suc rank)) rank (parent_of found)

unfoldable pub role_rank : ℕ → Exec ℕ
unfolding rank_from
role_rank id = do fuel ← gets walk_fuel; rank_from fuel id [] 0

abbrev pub is_child_of : ℕ → Role → Bool
is_child_of id role = elim role.parent_id [ none ↦ false | some p ↦ p == id ]

-- childMap[id]
abbrev pub children : List Role → ℕ → List ℕ
children all id = map (λ (r : Role). r.id) (select (is_child_of id) all)

-- The loop over the queue; `none` marks a queue that outlasts the fuel.
unfoldable pub bfs : ℕ → List Role → List ℕ → List ℕ → Option (List ℕ)
bfs fuel all [] result = some result
bfs zero all (cur ∷ queue) result = none
bfs (suc fuel) all (cur ∷ queue) result =
    bfs fuel all (queue ++ children all cur) (result ++ cur ∷ [])

abbrev pub or_out_of_fuel : Option (List ℕ) → Exec (List ℕ)
or_out_of_fuel none = raise out_of_fuel
or_out_of_fuel (some ids) = pure ids

abbrev pub collect_from : ℕ → Result (List Role) → Exec (List ℕ)
collect_from id (err e) = pure (id ∷ [])
collect_from id (ok all) = or_out_of_fuel (bfs (suc (length all)) all (id ∷ []) [])

unfoldable pub collect_descendant_roles : ℕ → Exec (List ℕ)
unfolding bfs
collect_descendant_roles id = do all ← attempt Roles.list_all; collect_from id all

unfoldable pub invalidate_users : List ℕ → Exec (Unit {0})
unfolding invalidate
invalidate_users [] = pure tt
invalidate_users (user ∷ users) = do invalidate user; invalidate_users users

abbrev pub or_no_users : Result (List ℕ) → List ℕ
or_no_users (err e) = []
or_no_users (ok users) = users

unfoldable pub invalidate_roles : List ℕ → Exec (Unit {0})
unfolding invalidate_users
invalidate_roles [] = pure tt
invalidate_roles (id ∷ ids) = do
  users ← attempt (Roles.find_users_with_role id)
  invalidate_users (or_no_users users)
  invalidate_roles ids

unfoldable pub update_role_permissions : ℕ → List ℕ → Exec (Unit {0})
update_role_permissions id perms = do
  Roles.save_permissions id perms
  affected ← collect_descendant_roles id
  invalidate_roles affected

abbrev parent_found : Result Role → Result (Unit {0})
parent_found (ok role) = ok tt
parent_found (err e) = err (wrap "父角色不存在: " e "")

abbrev pub check_parent : Option ℕ → Exec (Unit {0})
check_parent none = pure tt
check_parent (some parent) = do found ← attempt (Roles.find_by_id parent); lift (parent_found found)

unfoldable pub create_role : CreateRoleRequest → Exec Role
create_role req = do check_parent req.parent_id; Roles.create req

unfoldable pub list_roles : Exec (List Role)
list_roles = Roles.list_all

unfoldable pub list_permissions : Exec (List Permission)
list_permissions = Roles.list_permissions

unfoldable pub get_role_permissions : ℕ → Exec (List Permission)
get_role_permissions role = Roles.get_permissions role

unfoldable pub get_role_by_name : String → Exec Role
get_role_by_name name = Roles.find_by_name name
