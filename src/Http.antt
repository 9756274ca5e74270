-- ===== src/Http.antt =====
-- gin.Context as the handlers and the middleware use it: what they read of the request, the values
-- that the middleware stores, and the response. A handler is run with what ShouldBindJSON or
-- ShouldBindQuery has made of the body or the query, an error where binding has refused it.
pub mod Success
use security_system_gsb.Common.{ℕ, String, Bool, true, false, Option, none, some, List}
use security_system_gsb.Error.{Error, message, Result, ok, err}
use security_system_gsb.World.{World, Exec}
use security_system_gsb.Model.User.{User}
use security_system_gsb.Model.Session.{TokenPair}
use security_system_gsb.Model.Role.{Role, Permission}
use security_system_gsb.Model.Alert.{SecurityAlert, AlertComment}
use security_system_gsb.Model.Audit.{AuditLog}
use security_system_gsb.Model.ApiKey.{ApiKey, CreateApiKeyResponse}

-- The value that c.JSON writes, `done` for gin.H{"message": ...}.
pub data Body : Type 0 where
  error : String → Body
  done : String → Body
  tokens : TokenPair → Body
  user : User → Body
  users : ℕ → List User → Body
  alert : SecurityAlert → Body
  alerts : ℕ → List SecurityAlert → Body
  alert_details : SecurityAlert → List AlertComment → Body
  comment : AlertComment → Body
  role : Role → Body
  roles : List Role → Body
  permissions : List Permission → Body
  audit_logs : ℕ → List AuditLog → Body
  broken_at : ℕ → Body
  intact : Body
  api_keys : List ApiKey → Body
  api_key_created : CreateApiKeyResponse → Body

pub record Response : Type 0 where
  pub status : ℕ
  pub body : Body

abbrev pub status_ok : ℕ
status_ok = 200

abbrev pub status_created : ℕ
status_created = 201

abbrev pub status_bad_request : ℕ
status_bad_request = 400

abbrev pub status_unauthorized : ℕ
status_unauthorized = 401

abbrev pub status_forbidden : ℕ
status_forbidden = 403

abbrev pub status_not_found : ℕ
status_not_found = 404

abbrev pub status_unprocessable : ℕ
status_unprocessable = 422

abbrev pub status_internal_error : ℕ
status_internal_error = 500

-- `id_param` is c.Param("id"); a query parameter that is missing has the default of the code
-- already. The keys are `none` until a middleware sets them.
pub record Context : Type 0 where
  pub authorization : String
  pub x_api_key : String
  pub client_ip : String
  pub user_agent : String
  pub id_param : String
  pub page_param : String
  pub page_size_param : String
  pub last_n_param : String
  pub user_key : Option ℕ
  pub username_key : Option String
  pub role_key : Option ℕ
  pub session_key : Option ℕ
  pub api_key_id : Option ℕ
  pub api_key_owner : Option ℕ
  pub api_key_scopes : Option (List String)

-- c.GetInt64 and c.GetString
abbrev pub get_int64 : Option ℕ → ℕ
get_int64 none = 0
get_int64 (some n) = n

abbrev pub get_string : Option String → String
get_string none = ""
get_string (some s) = s

abbrev pub caller_id : Context → ℕ
caller_id c = get_int64 c.user_key

abbrev pub caller_role : Context → ℕ
caller_role c = get_int64 c.role_key

abbrev pub caller_name : Context → String
caller_name c = get_string c.username_key

abbrev pub Handler : Type 0
Handler = Context → World → Response × World

-- A part of a handler: it goes on with a value, or the response is written and the rest skipped.
pub data Step {ℓ} (A : Type ℓ) : Type ℓ where
  goes : A → Step A
  answers : Response → Step A

abbrev pub Part {ℓ} : Type ℓ → Type ℓ
Part A = World → Step A × World

module _ {ℓ} {A : Type ℓ} where
  abbrev pub reply : ℕ → Body → Part A
  reply status body w = (answers (record { status = status; body = body }), w)

  abbrev pub refuse : ℕ → String → Part A
  refuse status text = reply status (error text)

  abbrev goes_on : Result A × World → Step (Result A) × World
  goes_on (r, w) = (goes r, w)

  -- A call of a service, its error as a value.
  abbrev pub call : Exec A → Part (Result A)
  call m w = goes_on (m w)

  -- `if err != nil { c.JSON(status, gin.H{"error": text}); return }`
  abbrev pub or_refuse : Result A → ℕ → String → Part A
  or_refuse (ok a) status text w = (goes a, w)
  or_refuse (err e) status text w = refuse status text w

  abbrev pub or_message : Result A → ℕ → Part A
  or_message (ok a) status w = (goes a, w)
  or_message (err e) status w = refuse status (message e) w

  abbrev pub some_or_refuse : Option A → ℕ → String → Part A
  some_or_refuse (some a) status text w = (goes a, w)
  some_or_refuse none status text w = refuse status text w

  -- For a function that has no error to return.
  abbrev pub value_or : A → Result A → A
  value_or d (ok a) = a
  value_or d (err e) = d

abbrev pub require : Bool → ℕ → String → Part (Unit {0})
require true status text w = (goes tt, w)
require false status text w = refuse status text w

module _ {ℓ κ} {A : Type ℓ} {B : Type κ} where
  abbrev pub next : Step A → (A → Part B) → Part B
  next (goes a) f w = f a w
  next (answers r) f w = (answers r, w)

  infixl 5 ◌>>=◌
  abbrev pub ◌>>=◌ : Part A → (A → Part B) → Part B
  ◌>>=◌ m f w = let (s, w') = m w in next s f w'

infixl 5 ◌>>◌
abbrev pub ◌>>◌ {ℓ} : {B : Type ℓ} → Part (Unit {0}) → Part B → Part B
m >> k = m >>= λ _. k

abbrev pub response : Step Response × World → Response × World
response (goes r, w) = (r, w)
response (answers r, w) = (r, w)

-- The whole of a handler.
abbrev pub serve : Part Response → World → Response × World
serve m w = response (m w)
