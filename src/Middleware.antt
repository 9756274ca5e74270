-- ===== src/Middleware.antt =====
-- internal/middleware: each wraps a handler, which runs only where the check passes (c.Next() and
-- c.AbortWithStatusJSON).
use Prim.Native.Char.{code}
use security_system_gsb.Common.{
  ℕ, String, Bool, true, false, Option, none, some, ◌==◌, nat_eq, string_eq, if◌then◌else◌,
}
use security_system_gsb.Error.{◌++◌, Result}
use security_system_gsb.World.{World}
use security_system_gsb.Http.{
  Context, Handler, Response, Step, goes, Part, serve, call, or_refuse, require, some_or_refuse,
  status_unauthorized, status_forbidden, ◌>>=◌, ◌>>◌,
}
use security_system_gsb.Pkg.Libraries.{Libraries, AccessClaims}
use security_system_gsb.Pkg.Jwt.{parse_access}
use security_system_gsb.Service.ApiKeys.{authenticate}
use security_system_gsb.Handler.Calls.{permits}

-- strings.HasPrefix and strings.TrimPrefix in one: what stands behind the prefix.
unfoldable pub behind : String → String → Option String
behind String.[] s = some s
behind (String.◌∷◌ p ps) String.[] = none
behind (String.◌∷◌ p ps) (String.◌∷◌ c cs) =
    let rest = behind ps cs in if code p == code c then rest else none

abbrev pub Middleware : Type 0
Middleware = Handler → Handler

-- c.Next(): the response is that of the rest of the chain.
abbrev pub next_handler : Handler → Context → Part Response
next_handler h c w = let (r, w') = h c w in (goes r, w')

abbrev pub with_claims : Context → AccessClaims → Context
with_claims c claims = record c {
  user_key = some claims.user_id;
  username_key = some claims.username;
  role_key = some claims.role_id;
}

-- The clock that the library compares the expiry with.
abbrev parsed : Libraries → String → String → World → Step (Result AccessClaims) × World
parsed lib secret token w = (goes (parse_access lib w.now token secret), w)

unfoldable pub jwt_auth : Libraries → String → Middleware
unfolding behind
jwt_auth lib secret h c = serve do
  token ← some_or_refuse (behind "Bearer " c.authorization) status_unauthorized "缺少认证令牌"
  claims ← parsed lib secret token
  known ← or_refuse claims status_unauthorized "令牌无效或已过期"
  next_handler h (with_claims c known)

abbrev is_given : String → Bool
is_given s = if s == "" then false else true

unfoldable pub api_key_auth : Libraries → Middleware
api_key_auth lib h c = serve do
  require (is_given c.x_api_key) status_unauthorized "缺少 API 密钥"
  found ← call (authenticate lib c.x_api_key)
  key ← or_refuse found status_unauthorized "API 密钥无效或已过期"
  next_handler h (record c {
    api_key_id = some key.id;
    api_key_owner = some key.owner_id;
    api_key_scopes = some key.scopes;
  })

abbrev is_set : Option ℕ → Bool
is_set none = false
is_set (some n) = true

unfoldable pub require_permission : String → Middleware
unfolding permits
require_permission perm h c = serve do
  require (is_set c.role_key) status_unauthorized "未经认证"
  allowed ← permits c perm
  require allowed status_forbidden ("权限不足: " ++ perm)
  next_handler h c
