-- ===== src/Service/Auth/Login.antt =====
-- `Login`: who gets in, and what a wrong password does to the account.
use security_system_gsb.Common.{
  ◌≡◌, ◌≢◌, refl, inl, inr, String, true, false, Option, none, some, find, ◌==◌, nat_eq, Bool-cases,
  ne_of_test, ap, sym, subst, ◌∙◌,
}
use security_system_gsb.Error.{invalid_credentials, Result, ok}
use security_system_gsb.World.{World, Exec, attempt, one_row, lift, pure, ◌>>=◌, ◌>>◌}
use security_system_gsb.Model.User.{User, LoginRequest, user_status_disabled, is_locked}
use security_system_gsb.Repository.Users.{has_username, count_failure}
use security_system_gsb.Repository.Users
use security_system_gsb.Repository.Reads.{find_username}
use security_system_gsb.World.Statements.{with_faults, bind_ok}
use security_system_gsb.Pkg.Libraries.{Libraries}
use security_system_gsb.Pkg.Crypto.{check_password}
use security_system_gsb.Service.Alerts.{or_missing}
use security_system_gsb.Service.Auth.{AuthService, LoggedIn, login, check_credentials, issue_tokens}

module _ (lib : Libraries) (req : LoginRequest) (u : User) (w : World) where
  check_credentials_ok :
      (check_credentials lib req u w).0 ≡ ok tt
      → (u.status ≢ user_status_disabled)
        × (is_locked w.now u ≡ false)
        × (check_password lib u.password_hash req.password ≡ true)
  unfolding check_credentials
  check_credentials_ok e = elim (Bool-cases (u.status == user_status_disabled)) [
    | inl disabled ↦ absurd (cc (rw disabled at e))
    | inr enabled ↦ elim (Bool-cases (is_locked w.now u)) [
      | inl locked ↦ absurd (cc (rw (enabled, locked) at e))
      | inr free ↦ elim (Bool-cases (check_password lib u.password_hash req.password)) [
        | inl right ↦ (ne_of_test _ _ enabled, free, right)
        | inr wrong ↦ absurd (cc (rw (enabled, free, wrong) at e))
      ]
    ]
  ]

-- What `Login` does with the user, and after the checks.
module _ (lib : Libraries) (s : AuthService) (req : LoginRequest) (ip ua : String) where
  abbrev let_in : User → Exec LoggedIn
  let_in user = do
    recorded ← attempt (Users.record_login_success user.id)
    pair ← issue_tokens lib s user ip ua
    pure (record { pair = pair; user = user })

  abbrev pub log_in : User → Exec LoggedIn
  log_in user = do check_credentials lib req user; let_in user

  let_in_user : (u : User) (w : World) (r : LoggedIn) → (let_in u w).0 ≡ ok r → r.user ≡ u
  let_in_user u w r e =
      let v = (attempt (Users.record_login_success u.id) w).1 in
      let (pair, _, e1) =
        bind_ok (issue_tokens lib s u ip ua) (λ pair. pure (record { pair = pair; user = u })) v
          e in
      cc

  log_in_sound :
      (u : User) (w : World) (r : LoggedIn)
      → (log_in u w).0 ≡ ok r
      → (r.user ≡ u) × ((check_credentials lib req u w).0 ≡ ok tt)
  log_in_sound u w r e =
      let (checked, c, e1) = bind_ok (check_credentials lib req u) (λ _. let_in u) w e in
      (let_in_user u (check_credentials lib req u w).1 r e1, c)

  abbrev pub log_in_found : Result User × World → Result LoggedIn × World
  log_in_found (found, v) = (lift (or_missing invalid_credentials found) >>= log_in) v

  pub login_found :
      (w : World) → login lib s req ip ua w ≡ log_in_found (Users.find_by_username req.username w)
  unfolding login
  login_found w = refl

  found_sound :
      (o : Option User) (v : World) (r : LoggedIn)
      → (log_in_found (one_row o, v)).0 ≡ ok r
      → (o ≡ some r.user) × ((check_credentials lib req r.user v).0 ≡ ok tt)
  found_sound none v r e = absurd (cc)
  found_sound (some u) v r e =
      let (same, c) = log_in_sound u v r e in
      (ap some (sym same), subst (λ x. (check_credentials lib req x v).0 ≡ ok tt) (sym same) c)

  -- Who logs in has an account of that name that is neither disabled nor locked now, and gave
  -- its password.
  pub login_sound :
      (w : World) (r : LoggedIn)
      → (login lib s req ip ua w).0 ≡ ok r
      → (find (has_username req.username) w.users ≡ some r.user)
        × (r.user.status ≢ user_status_disabled)
        × (is_locked w.now r.user ≡ false)
        × (check_password lib r.user.password_hash req.password ≡ true)
  login_sound w r e = elim (find_username req.username w) [
    | inl (fs, f) ↦
        let (o, c) =
          found_sound (find (has_username req.username) w.users) (with_faults w fs) r
            (ap (λ x. (log_in_found x).0) (sym f) ∙ ap (λ x. x.0) (sym (login_found w)) ∙ e) in
        let (enabled, free, right) = check_credentials_ok lib req r.user (with_faults w fs) c in
        (o, enabled, free, right)
    | inr (fs, text, f) ↦
        absurd (cc (ap (λ x. (log_in_found x).0) (sym f) ∙ ap (λ x. x.0) (sym (login_found w)) ∙ e))
  ]
