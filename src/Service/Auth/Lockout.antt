-- ===== src/Service/Auth/Lockout.antt =====
-- `Lockout`: what wrong passwords do to an account.
use security_system_gsb.Common.{
  ℕ, ◌+◌, ◌≡◌, ◌≤◌, ◌<◌, refl, String, true, false, some, [], arith, ◌==◌, nat_eq, string_eq,
  update_where, find, find-updated, ap, ◌∙◌,
}
use security_system_gsb.Error.{invalid_credentials, account_locked, err}
use security_system_gsb.World.{World, statement, one_row}
use security_system_gsb.World.Statements.{with_faults, statement_runs}
use security_system_gsb.Model.User.{
  User, LoginRequest, user_status_disabled, user_status_locked, is_locked,
}
use security_system_gsb.Repository.Users.{has_username, count_failure, lock_duration}
use security_system_gsb.Repository.Users
use security_system_gsb.Pkg.Libraries.{Libraries}
use security_system_gsb.Pkg.Crypto.{check_password}
use security_system_gsb.Service.Auth.{AuthService, login, check_credentials, max_login_attempts}
use security_system_gsb.Service.Auth.Login.{log_in, log_in_found, login_found}

-- The world after a wrong password.
abbrev pub counted : LoginRequest → World → World
counted req w = record w {
  users = update_where (has_username req.username) (count_failure w.now max_login_attempts) w.users;
  faults = [];
}

module _ (lib : Libraries) (s : AuthService) (req : LoginRequest) (ip ua : String) (u : User)
    (w : World) where
  refused :
      (w.faults ≡ [])
      → (u.status == user_status_disabled ≡ false)
      → (is_locked w.now u ≡ false)
      → (check_password lib u.password_hash req.password ≡ false)
      → log_in lib s req ip ua u w ≡ (err invalid_credentials, counted req w)
  unfolding check_credentials Users.record_login_failure statement
  refused f d l p = rw (d, l, p, f)

module _ (lib : Libraries) (s : AuthService) (req : LoginRequest) (ip ua : String) (u : User)
    (w : World) where
  find_answer :
      w.faults ≡ []
      → find (has_username req.username) w.users ≡ some u
      → login lib s req ip ua w ≡ log_in lib s req ip ua u (with_faults w [])
  unfolding Users.find_by_username
  find_answer f found =
      login_found lib s req ip ua w
      ∙ ap (log_in_found lib s req ip ua) (
          statement_runs (λ v. (one_row (find (has_username req.username) v.users), v)) w f
          ∙ ap (λ o. (one_row o, with_faults w [])) found)

  -- On an account that is neither disabled nor locked, a wrong password is answered with
  -- ErrInvalidCredentials, and all that the attempt changes in the database is the count of
  -- failures of the accounts of that name. The database accepts every statement.
  pub login_wrong :
      w.faults ≡ []
      → (find (has_username req.username) w.users ≡ some u)
      → (u.status == user_status_disabled ≡ false)
      → (is_locked w.now u ≡ false)
      → (check_password lib u.password_hash req.password ≡ false)
      → login lib s req ip ua w ≡ (err invalid_credentials, counted req w)
  login_wrong f found d l p =
      find_answer f found ∙ refused lib s req ip ua u (with_faults w []) refl d l p

  locked_answer :
      w.faults ≡ []
      → find (has_username req.username) w.users ≡ some u
      → is_locked w.now u ≡ true
      → u.status ≡ user_status_locked
      → login lib s req ip ua w ≡ (err account_locked, with_faults w [])
  unfolding check_credentials
  locked_answer f found l d = find_answer f found ∙ rw (l, d)

count_failure-username :
    (now : ℕ) (u : User) → (count_failure now max_login_attempts u).username ≡ u.username
unfolding count_failure
count_failure-username now u = refl

count_failure-locks :
    (now t : ℕ) (u : User)
    → 4 ≤ u.failed_login_count
    → t < now + lock_duration
    → is_locked t (count_failure now max_login_attempts u) ≡ true
unfolding is_locked count_failure
count_failure-locks now t u many soon = ground arith

count_failure-status :
    (now : ℕ) (u : User)
    → 4 ≤ u.failed_login_count
    → (count_failure now max_login_attempts u).status ≡ user_status_locked
unfolding count_failure
count_failure-status now u many = ground arith

module _ (lib : Libraries) (s : AuthService) (req : LoginRequest) (ip ua : String) (u : User)
    (w : World) where
  -- The fifth wrong password in a row locks the account out: whoever gives its name in the 30
  -- minutes that follow is answered with ErrAccountLocked, whatever the password. The database
  -- accepts every statement, and no other request runs in between.
  pub lockout :
      w.faults ≡ []
      → find (has_username req.username) w.users ≡ some u
      → u.status == user_status_disabled ≡ false
      → is_locked w.now u ≡ false
      → check_password lib u.password_hash req.password ≡ false
      → 4 ≤ u.failed_login_count
      → (t : ℕ) (password ip2 ua2 : String) → t < w.now + lock_duration
      → (login lib s
          (record req { password = password })
          ip2
          ua2
          (record (login lib s req ip ua w).1 { now = t })).0
        ≡ err account_locked
  lockout f found d l p many t password ip2 ua2 soon =
      let e = ap (λ x. x.1) (login_wrong lib s req ip ua u w f found d l p) in
      ap (λ v. (login lib s (record req { password = password }) ip2 ua2 (record v { now = t })).0)
        e
      ∙ ap (λ x. x.0)
          (locked_answer lib s (record req { password = password }) ip2 ua2
            (count_failure w.now max_login_attempts u) (record (counted req w) { now = t }) refl
            (find-updated (has_username req.username) (count_failure w.now max_login_attempts)
              (λ a. ap (λ n. n == req.username) (count_failure-username w.now a)) w.users u found)
            (count_failure-locks w.now t u many soon) (count_failure-status w.now u many))
