-- ===== src/Service/Auth/Passwords.antt =====
-- `Passwords`: what a change of the password leaves behind.
use security_system_gsb.Common.{
  ℕ, ◌≡◌, ◌<◌, refl, inl, inr, String, true, false, some, List, [], ◌∷◌, arith, All, find, has_key,
  find-updated, update_where, nat_eq, Bool-cases, Option-cases,
}
use security_system_gsb.Error.{Result-cases, ok}
use security_system_gsb.World.{World, statement}
use security_system_gsb.Model.User.{User, ChangePasswordRequest}
use security_system_gsb.Model.Session.{Session, is_valid, is_expired}
use security_system_gsb.Repository.Users
use security_system_gsb.Repository.Users.{user_id}
use security_system_gsb.Repository.Sessions
use security_system_gsb.Repository.Sessions.{is_active_of, revoked}
use security_system_gsb.Pkg.Libraries.{Libraries}
use security_system_gsb.Pkg.Crypto.{hash_password, check_password}
use security_system_gsb.Service.Auth.{AuthService, change_password}

-- A session of the user is not valid at any later time.
abbrev pub Over : ℕ → ℕ → Session → Type 0
Over user now s = s.user_id ≡ user → (t : ℕ) → now < t → is_valid t s ≡ false

revoked-Over :
    (user now : ℕ) (sessions : List Session)
    → All (Over user now) (update_where (is_active_of user now) (revoked now) sessions)
unfolding update_where is_valid is_expired
revoked-Over user now [] = tt
revoked-Over user now (x ∷ xs) = elim (Bool-cases (is_active_of user now x)) [
  | inl active ↦ rw active (λ _ t later. refl, revoked-Over user now xs)
  | inr other ↦ rw other (λ mine t later. ground arith, revoked-Over user now xs)
]

-- The user's row has a hash made from the new password, and the old password was right.
abbrev pub Changed : Libraries → ℕ → ChangePasswordRequest → World → World → Type 0
Changed lib id req w v =
    (u : User) × (find (has_key user_id id) w.users ≡ some u)
    × (check_password lib u.password_hash req.old_password ≡ true)
    × (hash : String) × (lib.generate_from_password w.entropy req.new_password 12 ≡ ok hash)
    × (find (has_key user_id id) v.users
        ≡ some (record u { password_hash = hash; updated_at = w.now }))

-- Where the database answers, a change of the password that returns no error was asked for with the
-- password that the stored hash accepts. The stored hash is then one made from the new password,
-- the rest of the account is as it was, and no session of the user is valid at any later time.
pub change_password_revokes :
    (lib : Libraries) (s : AuthService) (id : ℕ) (req : ChangePasswordRequest) (w : World)
    → w.faults ≡ []
    → (change_password lib s id req w).0 ≡ ok tt
    → let v = (change_password lib s id req w).1 in
      Changed lib id req w v × All (Over id w.now) v.sessions
unfolding change_password Users.find_by_id Users.update_password Sessions.revoke_all_by_user
    hash_password check_password statement
change_password_revokes lib s id req w f e =
    elim (Option-cases (find (has_key user_id id) w.users)) [
      | inl missing ↦ absurd (cc (rw (f, missing) at e))
      | inr (u, found) ↦
          elim (Bool-cases (lib.compare_hash_and_password u.password_hash req.old_password)) [
            | inr wrong ↦ absurd (cc (rw (f, found, wrong) at e))
            | inl right ↦
                elim (Result-cases (lib.generate_from_password w.entropy req.new_password 12)) [
                  | inr (x, failed) ↦ absurd (cc (rw (f, found, right, failed) at e))
                  | inl (hash, made) ↦
                      rw (f, found, right, made)
                        (
                          (
                            u,
                            refl,
                            right,
                            hash,
                            refl,
                            find-updated (has_key user_id id)
                                (λ x. record x { password_hash = hash; updated_at = w.now })
                                (λ x. refl) w.users u found,
                          ),
                          revoked-Over id w.now w.sessions,
                        )
                ]
          ]
    ]
