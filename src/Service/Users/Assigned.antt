-- ===== src/Service/Users/Assigned.antt =====
-- `Assigned`: which roles an update of a user changes.
use security_system_gsb.Common.{
  ℕ, ◌≡◌, ◌≢◌, ◌⊎◌, inl, inr, refl, ap, some, Bool-cases, find, has_key, ◌==◌, nat_eq, update_where,
  find-update_key, if◌then◌else◌, arith, string_eq,
}
use security_system_gsb.Error.{Result-cases}
use security_system_gsb.World.{World, statement}
use security_system_gsb.Model.User.{User, UpdateUserRequest}
use security_system_gsb.Repository.Users
use security_system_gsb.Repository.Users.{user_id, assign_columns}
use security_system_gsb.Service.Rbac.{invalidate}
use security_system_gsb.Service.Users.{update}

row_cases :
    (id : ℕ) (req : UpdateUserRequest) (w : World)
    → ((Users.update id req w).1.users ≡ w.users)
      ⊎ ((Users.update id req w).1.users
          ≡ update_where (has_key user_id id) (assign_columns w.now req) w.users)
unfolding Users.update statement
row_cases id req w = ground arith

users_same :
    (id : ℕ) (req : UpdateUserRequest) (w : World)
    → (update id req w).1.users ≡ (Users.update id req w).1.users
unfolding update invalidate
users_same id req w = elim (Result-cases (Users.update id req w).0) [
  | inl (_, run) ↦ ground arith
  | inr (e, failed) ↦ rw failed
]

-- A row after an update has the role that it had, or it is the row of the update and has the
-- role of the request.
pub update-role :
    (id : ℕ) (req : UpdateUserRequest) (w : World) (j : ℕ) (u v : User)
    → find (has_key user_id j) w.users ≡ some u
    → find (has_key user_id j) (update id req w).1.users ≡ some v
    → (v.role_id ≡ u.role_id) ⊎ ((j ≡ id) × (v.role_id ≡ req.role_id) × (req.role_id ≢ 0))
unfolding assign_columns
update-role id req w j u v before after =
    let here = users_same id req w in
    let found : find (has_key user_id j) (Users.update id req w).1.users ≡ some v =
      rw (← here) after in
    elim (row_cases id req w) [
      | inl same ↦
          let e : some u ≡ some v = rw (same, before) at found in
          let one : v ≡ u = cc in inl (ap (λ x. x.role_id) one)
      | inr changed ↦
          let moved = find-update_key user_id (assign_columns w.now req) (λ a. refl) id j w.users in
          elim (Bool-cases (id == j)) [
            | inr other ↦
                let e : some u ≡ some v = rw (changed, moved, other, before) at found in
                let one : v ≡ u = cc in inl (ap (λ x. x.role_id) one)
            | inl same ↦
                let e : some (assign_columns w.now req u) ≡ some v =
                  rw (changed, moved, same, before) at found in
                let one : v ≡ assign_columns w.now req u = cc in
                let role : v.role_id ≡ (if req.role_id == 0 then u.role_id else req.role_id) =
                  ap (λ x. x.role_id) one in
                ground arith
          ]
    ]
