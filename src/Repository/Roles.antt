-- ===== src/Repository/Roles.antt =====
-- internal/repository/role_repo.go, over `roles`, `permissions`, `role_permissions` and `users`.
use Prim.Native.Nat.{Ordering}
use Prim.Native.String.{compare}
use security_system_gsb.Common.{
  ℕ, ◌+◌, String, Bool, true, false, not, ◌&&◌, Option, none, some, List, [], ◌∷◌, ◌++◌, map, ltb,
  ◌==◌, nat_eq, string_eq, if◌then◌else◌, find, has_key, select, any_where, order_by,
}
use security_system_gsb.Error.{library, ok, err}
use security_system_gsb.World.{World, Exec, statement, one_row, gets, pure, raise, ◌>>=◌, ◌>>◌}
use security_system_gsb.Model.User.{User}
use security_system_gsb.Model.Role.{Role, Permission, RolePermission, CreateRoleRequest}

abbrev pub role_id : Role → ℕ
role_id r = r.id

unfoldable pub find_by_id : ℕ → Exec Role
find_by_id id = statement (λ w. (one_row (find (has_key role_id id) w.roles), w))

unfoldable pub find_by_name : String → Exec Role
find_by_name name = statement (λ w. (one_row (find (λ r. r.name == name) w.roles), w))

unfoldable pub list_all : Exec (List Role)
list_all = statement (gets λ w. order_by (λ a b. ltb a.id b.id) w.roles)

abbrev pub parent_exists : Option ℕ → List Role → Bool
parent_exists none roles = true
parent_exists (some p) roles = any_where (has_key role_id p) roles

abbrev pub inserted : CreateRoleRequest → World → Role
inserted req w = record {
  id = w.serials.roles + 1;
  name = req.name;
  display_name = req.display_name;
  parent_id = req.parent_id;
  created_at = w.now;
}

unfoldable pub create : CreateRoleRequest → Exec Role
create req = statement λ w.
    if any_where (λ (r : Role). r.name == req.name) w.roles
    then (err (library "unique_violation"), w)
    else if not (parent_exists req.parent_id w.roles)
    then (err (library "foreign_key_violation"), w)
    else (
      ok (inserted req w),
      record w {
        roles = w.roles ++ inserted req w ∷ [];
        serials = record (w.serials) { roles = w.serials.roles + 1 };
      },
    )

-- role_permissions rp ON rp.permission_id = p.id WHERE rp.role_id = $1
abbrev pub grants : ℕ → List RolePermission → Permission → Bool
grants id links p = any_where (λ l. l.role_id == id && l.permission_id == p.id) links

unfoldable pub get_permissions : ℕ → Exec (List Permission)
get_permissions id = statement (gets λ w. select (grants id w.role_permissions) w.permissions)

-- A transaction: the rows as it sees them, and whether a statement of it has failed. PostgreSQL
-- refuses every later statement of a failed transaction.
pub record Tx : Type 0 where
  pub rows : List RolePermission
  pub failed : Bool

abbrev pub link : ℕ → ℕ → RolePermission
link role perm = record { role_id = role; permission_id = perm }

abbrev pub is_link : ℕ → ℕ → RolePermission → Bool
is_link role perm l = l.role_id == role && l.permission_id == perm

abbrev pub perm_exists : ℕ → World → Bool
perm_exists perm w = any_where (λ (p : Permission). p.id == perm) w.permissions

abbrev pub is_role : ℕ → World → Bool
is_role role w = any_where (has_key role_id role) w.roles

-- What the INSERT of one link does: the new transaction, and the error's code if it fails.
unfoldable pub insert_link : ℕ → ℕ → World → Tx → Option String × Tx
insert_link role perm w tx =
    if tx.failed
    then (some "25P02", tx)
    else if any_where (is_link role perm) tx.rows
    then (some "23505", record tx { failed = true })
    else if not (perm_exists perm w && is_role role w)
    then (some "23503", record tx { failed = true })
    else (none, record tx { rows = link role perm ∷ tx.rows })

abbrev tx_statement : (World → Tx → Option String × Tx) → Tx → Exec (Option String × Tx)
tx_statement f tx = statement (λ w. (ok (f w tx), w))

-- `continue` on a duplicate (code 23505), and return on any other error.
unfoldable pub after_insert : Option String → Exec Tx → Exec Tx
after_insert none go_on = go_on
after_insert (some code) go_on = if code == "23505" then go_on else raise (library code)

-- The loop of `SavePermissions`.
unfoldable pub insert_links : ℕ → List ℕ → Tx → Exec Tx
unfolding insert_link after_insert
insert_links role [] tx = pure tx
insert_links role (perm ∷ perms) tx =
    tx_statement (insert_link role perm) tx >>= λ r. after_insert r.0 (insert_links role perms r.1)

abbrev pub prepare : List ℕ → Exec (Unit {0})
prepare [] = pure tt
prepare (perm ∷ perms) = statement (pure tt)

abbrev pub delete_links : ℕ → World → Tx
delete_links role w = record {
  rows = select (λ l. not (l.role_id == role)) w.role_permissions;
  failed = false;
}

-- COMMIT of a failed transaction reports an error and keeps nothing.
abbrev pub commit : Tx → Exec (Unit {0})
commit tx w =
    if tx.failed
    then (err (library "25P02"), w)
    else (ok tt, record w { role_permissions = tx.rows })

unfoldable pub save_permissions : ℕ → List ℕ → Exec (Unit {0})
unfolding insert_links
save_permissions role perms = do
  statement (pure tt)
  tx ← statement (gets (delete_links role))
  prepare perms
  tx' ← insert_links role perms tx
  statement (commit tx')

abbrev name_before : String → String → Bool
name_before a b = elim (compare a b) [ Ordering.lt ↦ true | _ ↦ false ]

unfoldable pub list_permissions : Exec (List Permission)
list_permissions = statement (gets λ w. order_by (λ a b. name_before a.name b.name) w.permissions)

unfoldable pub find_users_with_role : ℕ → Exec (List ℕ)
find_users_with_role role =
    statement (gets λ w. map (λ (u : User). u.id) (select (λ u. u.role_id == role) w.users))
