-- ===== src/Router/Sessions.antt =====
-- `Sessions`: what a logout does to the sessions.
use security_system_gsb.Common.{◌≡◌, refl, ap, ◌∙◌, inl, inr, none}
use security_system_gsb.World.{World}
use security_system_gsb.Pkg.Libraries.{Libraries, AccessClaims}
use security_system_gsb.Http.{Context}
use security_system_gsb.Middleware.{with_claims}
use security_system_gsb.Service.Audit
use security_system_gsb.Service.Auth.{AuthService}
use security_system_gsb.Handler.Auth
use security_system_gsb.Router.{auth_logout, route, is_public, required, handler}
use security_system_gsb.Router.Guards.{route_cases}

handler_keeps :
    (c : Context) (claims : AccessClaims) (w : World)
    → c.session_key ≡ none
    → (Auth.logout (with_claims c claims) w).1.sessions ≡ w.sessions
unfolding Auth.logout Audit.log
handler_keeps c claims w no_key = rw no_key

-- A logout whose context names no session when the request arrives changes no session, whether it
-- is refused or not: the middleware names none either. Any statement may fail.
pub logout-sessions :
    (lib : Libraries) (s : AuthService) (c : Context) (w : World)
    → c.session_key ≡ none
    → (route lib s auth_logout c w).1.sessions ≡ w.sessions
unfolding is_public required handler
logout-sessions lib s c w no_key = elim (route_cases lib s auth_logout c w refl) [
  | inl (_, kept) ↦ ap (λ v. v.sessions) kept
  | inr (claims, _, (v, kept, _, run)) ↦
      ap (λ out. out.1.sessions) run ∙ handler_keeps c claims v no_key ∙ ap (λ v. v.sessions) kept
]
