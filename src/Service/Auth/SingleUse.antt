-- ===== src/Service/Auth/SingleUse.antt =====
-- `SingleUse`: a refresh token that was exchanged is refused from then on.
use security_system_gsb.Common.{
  ℕ, ◌≡◌, ◌≢◌, ◌≤◌, ap, sym, ◌∙◌, String, true, Option, some, List, find, has_key, ◌==◌, nat_eq,
  string_eq, Bool-cases, Option-cases, inl, inr,
}
use security_system_gsb.Error.{Result, Result-cases, ok}
use security_system_gsb.World.{World}
use security_system_gsb.World.Statements.{with_faults}
use security_system_gsb.Model.User.{User, user_status_enabled}
use security_system_gsb.Model.Session.{Session, TokenPair, RefreshRequest, is_valid}
use security_system_gsb.Pkg.Libraries.{Libraries}
use security_system_gsb.Pkg.Jwt.{parse_refresh}
use security_system_gsb.Service.Auth.{AuthService, refresh, or_invalid_token}
use security_system_gsb.Repository.Sessions.{has_token, revoke}
use security_system_gsb.Repository.Users.{user_id}
use security_system_gsb.Repository.Reads.{find_user, find_token}
use security_system_gsb.Service.Auth.Rotation.{exchange, renew, refresh_sound}
use security_system_gsb.Service.Auth.Spent.{Spent, revoke-Spent, issue-Spent}

module _ (lib : Libraries) (s : AuthService) (req : RefreshRequest) (ip ua : String) where
  exchange-Spent :
      (old : Session) (u : User) (w : World) (p : TokenPair)
      → find (has_token req.refresh_token) w.sessions ≡ some old
      → old.id ≤ w.serials.sessions
      → (exchange lib s req ip ua old u w).0 ≡ ok p
      → Spent req.refresh_token old.id (exchange lib s req ip ua old u w).1
  exchange-Spent old u w p found early e = elim (Bool-cases (u.status == user_status_enabled)) [
    | inr disabled ↦ absurd (cc (rw disabled at e))
    | inl enabled ↦ elim (Result-cases (revoke old.id w).0) [
      | inr (x, failed) ↦ absurd (cc (rw (enabled, failed) at e))
      | inl (_, done) ↦
          rw (enabled, done)
            (issue-Spent lib s ip ua req.refresh_token old.id u (revoke old.id w).1
              (revoke-Spent req.refresh_token old w found early done))
    ]
  ]

  -- What a refresh that succeeds leaves behind.
  abbrev Used : Result TokenPair × World → Type 0
  Used out = (p : TokenPair) → out.0 ≡ ok p → (j : ℕ) × Spent req.refresh_token j out.1

  renew-Used :
      (now : ℕ) (old : Session) (w : World)
      → find (has_token req.refresh_token) w.sessions ≡ some old
      → old.id ≤ w.serials.sessions
      → Used (renew lib s req ip ua now old w)
  renew-Used now old w found early p e = elim (Bool-cases (is_valid now old)) [
    | inr stale ↦ absurd (cc (rw stale at e))
    | inl valid ↦ elim (find_user old.user_id w) [
      | inr (fs, text, f) ↦ absurd (cc (rw (valid, f) at e))
      | inl (fs, f) ↦ elim (Option-cases (find (has_key user_id old.user_id) w.users)) [
        | inl missing ↦ absurd (cc (rw (valid, f, missing) at e))
        | inr (u, here) ↦
            rw (valid, f, here)
              (
                old.id,
                exchange-Spent old u (with_faults w fs) p found early (rw (valid, f, here) at e),
              )
      ]
    ]
  ]

  -- Sessions have identifiers that the sequence gave out.
  abbrev Numbered : World → Type 0
  Numbered w =
      (old : Session)
      → find (has_token req.refresh_token) w.sessions ≡ some old
      → old.id ≤ w.serials.sessions

  refresh-Used : (w : World) → Numbered w → Used (refresh lib s req ip ua w)
  unfolding refresh
  refresh-Used w numbered p e =
      elim (Result-cases
        (or_invalid_token (parse_refresh lib w.now req.refresh_token s.jwt_refresh))) [
          | inr (x, bad) ↦ absurd (cc (rw bad at e))
          | inl (claims, parsed) ↦ elim (find_token req.refresh_token w) [
            | inr (fs, text, f) ↦ absurd (cc (rw (parsed, f) at e))
            | inl (fs, f) ↦ elim (Option-cases (find (has_token req.refresh_token) w.sessions)) [
              | inl missing ↦ absurd (cc (rw (parsed, f, missing) at e))
              | inr (old, found) ↦
                  rw (parsed, f, found)
                    (renew-Used w.now old (with_faults w fs) found (numbered old found) p
                      (rw (parsed, f, found) at e))
            ]
          ]
        ]

  -- A refresh token that was exchanged is not exchanged again by the refresh that follows: whatever
  -- the time and whichever statements fail, it returns an error. The session found for the token
  -- is to have an identifier that the sequence gave out.
  pub refresh_once :
      (w : World) (p : TokenPair) (now : ℕ) (fs : List (Option String))
      → Numbered w
      → (refresh lib s req ip ua w).0 ≡ ok p
      → (q : TokenPair)
      → (refresh lib s req ip ua
          (record (refresh lib s req ip ua w).1 { now = now; faults = fs })).0
        ≢ ok q
  unfolding is_valid
  refresh_once w p now fs numbered e q again =
      let (j, spent) = refresh-Used w numbered p e in
      let v = record (refresh lib s req ip ua w).1 { now = now; faults = fs } in
      let (claims, old, u, parsed, found, valid, here, enabled) =
        refresh_sound lib s req ip ua v q again in
      let same : some spent.holder ≡ some old = sym spent.found ∙ found in
      let holder : spent.holder ≡ old = cc in
      let is_spent : old.is_revoked ≡ true = ap (λ r. r.is_revoked) (sym holder) ∙ spent.revoked in
      absurd (cc (rw is_spent at valid))
