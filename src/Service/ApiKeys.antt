-- ===== src/Service/ApiKeys.antt =====
-- internal/service/apikey_service.go. The goroutine that `Authenticate` starts is run at once.
pub mod Access
pub mod Issuing
use security_system_gsb.Common.{
  ℕ, String, Bool, true, false, not, ◌&&◌, none, List, [], ◌∷◌, ◌==◌, string_eq, if◌then◌else◌,
  contains,
}
use security_system_gsb.Error.{
  ◌++◌, Error, errorf, not_found, api_key_not_found, is_not_found, Result, ok, err,
}
use security_system_gsb.World.{World, Exec, pure, gets, lift, attempt, guard, ◌>>=◌, ◌>>◌}
use security_system_gsb.Model.ApiKey.{ApiKey, CreateApiKeyRequest, CreateApiKeyResponse, is_expired}
use security_system_gsb.Repository.ApiKeys
use security_system_gsb.Pkg.Libraries.{Libraries}
use security_system_gsb.Pkg.Crypto.{GeneratedKey, generate_api_key, hash_api_key}

abbrev pub valid_scopes : List String
valid_scopes = "alert:read" ∷ "alert:write" ∷ "report:read" ∷ "audit:read" ∷ []

unfoldable pub check_scopes : List String → Result (Unit {0})
unfolding contains
check_scopes [] = ok tt
check_scopes (scope ∷ scopes) =
    let rest = check_scopes scopes in
    if contains scope valid_scopes then rest else err (errorf ("包含不支持的访问范围: " ++ scope))

abbrev or_no_key : Result ApiKey → Result ApiKey
or_no_key (ok k) = ok k
or_no_key (err e) = if is_not_found e then err api_key_not_found else err e

module _ (lib : Libraries) where
  abbrev pub new_key : ℕ → CreateApiKeyRequest → GeneratedKey → ApiKey
  new_key owner req g = record {
    id = 0;
    name = req.name;
    key_hash = hash_api_key lib g.raw_key;
    key_prefix = g.prefix;
    owner_id = owner;
    scopes = req.scopes;
    is_active = true;
    expires_at = req.expires_at;
    last_used_at = none;
    created_at = 0;
  }

  -- The end of `Create`, with the key that was generated.
  unfoldable pub issue : ℕ → CreateApiKeyRequest → GeneratedKey → Exec CreateApiKeyResponse
  issue owner req g = do
    id ← ApiKeys.create (new_key owner req g)
    pure (record { api_key = record (new_key owner req g) { id = id }; raw_key = g.raw_key })

  unfoldable pub create : ℕ → CreateApiKeyRequest → Exec CreateApiKeyResponse
  create owner req = do lift (check_scopes req.scopes); g ← generate_api_key lib; issue owner req g

  unfoldable pub authenticate : String → Exec ApiKey
  authenticate raw_key = do
    found ← attempt (ApiKeys.find_by_key_hash (hash_api_key lib raw_key))
    key ← lift (or_no_key found)
    now ← gets (λ w. w.now)
    guard (key.is_active && not (is_expired now key)) api_key_not_found
    stamped ← attempt (ApiKeys.update_last_used key.id)
    pure key

unfoldable pub has_scope : ApiKey → String → Bool
unfolding contains
has_scope key scope = contains scope key.scopes

unfoldable pub list_by_owner : ℕ → Exec (List ApiKey)
list_by_owner owner = ApiKeys.list_by_owner owner

unfoldable pub revoke : ℕ → ℕ → Exec (Unit {0})
revoke id owner = ApiKeys.revoke id owner
