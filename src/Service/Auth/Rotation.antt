-- ===== src/Service/Auth/Rotation.antt =====
-- `Rotation`: which refresh tokens are exchanged for new ones.
use security_system_gsb.Common.{
  ℕ, ◌≡◌, refl, String, true, Option, none, some, find, has_key, ◌==◌, nat_eq, string_eq,
  Bool-cases, inl, inr, ap, sym, ◌∙◌, nat_beq_iff,
}
use security_system_gsb.Error.{invalid_token, account_disabled, Result, ok, err}
use security_system_gsb.World.{World, Exec, one_row, lift, guard, ◌>>=◌, ◌>>◌}
use security_system_gsb.World.Statements.{with_faults, bind_ok}
use security_system_gsb.Model.User.{User, user_status_enabled}
use security_system_gsb.Model.Session.{Session, TokenPair, RefreshRequest, is_valid}
use security_system_gsb.Repository.Users
use security_system_gsb.Repository.Users.{user_id}
use security_system_gsb.Repository.Sessions
use security_system_gsb.Repository.Sessions.{has_token}
use security_system_gsb.Repository.Reads.{find_user, find_token}
use security_system_gsb.Pkg.Libraries.{Libraries, RefreshClaims}
use security_system_gsb.Pkg.Jwt.{parse_refresh}
use security_system_gsb.Service.Alerts.{or_missing}
use security_system_gsb.Service.Auth.{AuthService, refresh, issue_tokens, or_invalid_token}

module _ (lib : Libraries) (s : AuthService) (req : RefreshRequest) (ip ua : String) where
  -- `Refresh` from the user of the session on, from the session on, and from its query on.
  abbrev pub exchange : Session → User → Exec TokenPair
  exchange old user = do
    guard (user.status == user_status_enabled) account_disabled
    Sessions.revoke old.id
    issue_tokens lib s user ip ua

  abbrev pub renew : ℕ → Session → Exec TokenPair
  renew now old = do
    guard (is_valid now old) invalid_token
    user ← Users.find_by_id old.user_id
    exchange old user

  abbrev pub renew_found : ℕ → Result Session × World → Result TokenPair × World
  renew_found now (found, v) = (lift (or_missing invalid_token found) >>= renew now) v

  abbrev Enabled : Session → World → Type 0
  Enabled old w =
      (u : User) × (find (has_key user_id old.user_id) w.users ≡ some u)
      × (u.status ≡ user_status_enabled)

  exchange_sound :
      (old : Session) (o : Option User) (v : World) (p : TokenPair)
      → ((lift (one_row o) >>= exchange old) v).0 ≡ ok p
      → (u : User) × (o ≡ some u) × (u.status ≡ user_status_enabled)
  exchange_sound old none v p e = absurd (cc)
  exchange_sound old (some u) v p e = elim (Bool-cases (u.status == user_status_enabled)) [
    | inl enabled ↦ (u, refl, (nat_beq_iff u.status user_status_enabled).0 enabled)
    | inr disabled ↦ absurd (cc (rw (disabled) at e))
  ]

  renew_sound :
      (now : ℕ) (old : Session) (w : World) (p : TokenPair)
      → (renew now old w).0 ≡ ok p
      → (is_valid now old ≡ true) × Enabled old w
  renew_sound now old w p e = elim (Bool-cases (is_valid now old)) [
    | inr stale ↦ absurd (cc (rw (stale) at e))
    | inl valid ↦ elim (find_user old.user_id w) [
      | inl (fs, f) ↦ (
        valid,
        exchange_sound old (find (has_key user_id old.user_id) w.users) (with_faults w fs) p
            (rw (valid, f) at e),
      )
      | inr (fs, text, f) ↦ absurd (cc (rw (valid, f) at e))
    ]
  ]

  found_sound :
      (now : ℕ) (o : Option Session) (v : World) (p : TokenPair)
      → (renew_found now (one_row o, v)).0 ≡ ok p
      → (old : Session) × (o ≡ some old) × (is_valid now old ≡ true) × Enabled old v
  found_sound now none v p e = absurd (cc)
  found_sound now (some old) v p e =
      let (valid, user) = renew_sound now old v p e in (old, refl, valid, user)

  abbrev pub look_up : ℕ → Exec TokenPair
  look_up now w = renew_found now (Sessions.find_by_refresh_token req.refresh_token w)

  parsed_ok : (r : Result RefreshClaims) (c : RefreshClaims) → or_invalid_token r ≡ ok c → r ≡ ok c
  parsed_ok (ok d) c e = e
  parsed_ok (err x) c e = absurd (cc)

  -- A refresh token is exchanged only where it parses and is the token of a session that is
  -- neither revoked nor expired, whose user is enabled. Any statement may fail.
  pub refresh_sound :
      (w : World) (p : TokenPair)
      → (refresh lib s req ip ua w).0 ≡ ok p
      → (claims : RefreshClaims) × (old : Session) × (u : User) × (parse_refresh lib w.now
            req.refresh_token s.jwt_refresh
          ≡ ok claims)
        × (find (has_token req.refresh_token) w.sessions ≡ some old)
        × (is_valid w.now old ≡ true)
        × (find (has_key user_id old.user_id) w.users ≡ some u)
        × (u.status ≡ user_status_enabled)
  unfolding refresh
  refresh_sound w p e =
      let (claims, parsed, rest) =
        bind_ok (lift (or_invalid_token (parse_refresh lib w.now req.refresh_token s.jwt_refresh)))
          (λ _. look_up w.now) w e in
      elim (find_token req.refresh_token w) [
        | inl (fs, f) ↦
            let (old, found, valid, (u, here, enabled)) =
              found_sound w.now (find (has_token req.refresh_token) w.sessions) (with_faults w fs) p
                (ap (λ x. (renew_found w.now x).0) (sym f) ∙ rest) in
            (claims, old, u, parsed_ok _ claims parsed, found, valid, here, enabled)
        | inr (fs, text, f) ↦ absurd (cc (ap (λ x. (renew_found w.now x).0) (sym f) ∙ rest))
      ]
