-- ===== src/Router/Guards.antt =====
-- `Guards`: what a request meets before its handler.
use security_system_gsb.Common.{
  ◌≡◌, ◌⊎◌, refl, ap, sym, subst, ◌∙◌, inl, inr, String, true, false, Option, none, some,
  Option-cases, Bool-cases,
}
use security_system_gsb.Error.{Result-cases, ok}
use security_system_gsb.World.{World}
use security_system_gsb.World.Kept.{Kept}
use security_system_gsb.Pkg.Libraries.{Libraries, AccessClaims}
use security_system_gsb.Pkg.Jwt.{parse_access}
use security_system_gsb.Http.{Context, Handler, Response, status_unauthorized, status_forbidden}
use security_system_gsb.Middleware.{jwt_auth, require_permission, with_claims, behind}
use security_system_gsb.Service.Auth.{AuthService}
use security_system_gsb.Service.Rbac.{has_permission}
use security_system_gsb.Service.Rbac.Effects.{has_permission-Checked}
use security_system_gsb.Router.{Request, is_public, required, handler, behind_permission, route}

-- The request is refused, and nothing but the permission cache has changed.
abbrev pub Refused : World → Response × World → Type 0
Refused w (r, v) = ((r.status ≡ status_unauthorized) ⊎ (r.status ≡ status_forbidden)) × Kept w v

-- The caller has the permission of the route, if the route has one; the check of it leaves `v`.
abbrev pub Holds : AccessClaims → Option String → World → World → Type 0
Holds claims none w v = v ≡ w
Holds claims (some perm) w v = has_permission claims.role_id claims.user_id perm w ≡ (ok true, v)

-- `h` runs, in a world that the check of the permission has left.
abbrev pub Runs :
    AccessClaims → Option String → Handler → Context → World → Response × World → Type 0
Runs claims perm h c w out =
    (v : World) × Kept w v × Holds claims perm w v × (out ≡ h (with_claims c claims) v)

permission_cases :
    (claims : AccessClaims) (perm : Option String) (h : Handler) (c : Context) (w : World)
    → let out = behind_permission perm h (with_claims c claims) w in
      Refused w out ⊎ Runs claims perm h c w out
unfolding require_permission
permission_cases claims none h c w = inr (w, refl, refl, refl)
permission_cases claims (some perm) h c w =
    let (b, v, run, kept) = has_permission-Checked claims.role_id claims.user_id perm w in
    elim (Bool-cases b) [
      | inl yes_ ↦ inr (v, kept, run ∙ ap (λ a. (ok a, v)) yes_, rw (run, yes_))
      | inr no_ ↦ inl (rw (run, no_) (inr refl, kept))
    ]

module _ (lib : Libraries) (s : AuthService) (r : Request) (c : Context) (w : World) where
  -- The request carries a valid access token.
  abbrev pub Identified : AccessClaims → Type 0
  Identified claims =
      (token : String) × (behind "Bearer " c.authorization ≡ some token)
      × (parse_access lib w.now token s.jwt_access ≡ ok claims)

  abbrev Guarded : Response × World → Type 0
  Guarded out =
      Refused w out
      ⊎ ((claims : AccessClaims) × Identified claims
          × Runs claims (required r) (handler lib s r) c w out)

  abbrev guarded : Handler
  guarded = behind_permission (required r) (handler lib s r)

  passes :
      (claims : AccessClaims) (token : String)
      → behind "Bearer " c.authorization ≡ some token
      → parse_access lib w.now token s.jwt_access ≡ ok claims
      → jwt_auth lib s.jwt_access guarded c w ≡ guarded (with_claims c claims) w
  unfolding jwt_auth
  passes claims token there parsed = rw (there, parsed)

  jwt_cases : Guarded (jwt_auth lib s.jwt_access guarded c w)
  unfolding jwt_auth
  jwt_cases = elim (Option-cases (behind "Bearer " c.authorization)) [
    | inl missing ↦ inl (rw missing (inl refl, refl))
    | inr (token, there) ↦ elim (Result-cases (parse_access lib w.now token s.jwt_access)) [
      | inr (x, bad) ↦ inl (rw (there, bad) (inl refl, refl))
      | inl (claims, parsed) ↦ identified claims token there parsed
    ]
  ]
    where
      identified :
          (claims : AccessClaims) (token : String)
          → behind "Bearer " c.authorization ≡ some token
          → parse_access lib w.now token s.jwt_access ≡ ok claims
          → Guarded (jwt_auth lib s.jwt_access guarded c w)
      identified claims token there parsed =
          let run = passes claims token there parsed in
          elim (permission_cases claims (required r) (handler lib s r) c w) [
            | inl refused ↦ inl (subst (Refused w) (sym run) refused)
            | inr (v, kept, held, e) ↦
                inr (claims, (token, there, parsed), (v, kept, held, run ∙ e))
          ]

  -- Every request but a login and a refresh is refused, with 401 or 403 and nothing changed but
  -- the permission cache; or it carries a valid access token, the role in the token has the
  -- permission of the route, if the route has one, and the handler of the route answers it for the
  -- user in the token. Any statement may fail.
  pub route_cases :
      is_public r ≡ false
      → Refused w (route lib s r c w)
        ⊎ ((claims : AccessClaims) × Identified claims
            × Runs claims (required r) (handler lib s r) c w (route lib s r c w))
  unfolding route
  route_cases private = rw private jwt_cases
