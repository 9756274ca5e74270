-- ===== src/Tests/Keys.antt =====
-- API keys, and updates of users, on the world of `Data`.
use security_system_gsb.Common.{
  ◌≡◌, ◌<◌, refl, true, false, none, some, [], ◌∷◌, nat_eq, string_eq, arith, find, any_where,
  contains,
}
use security_system_gsb.Error.{ok, err, api_key_not_found}
use security_system_gsb.World.{World, statement}
use security_system_gsb.Model.User.{UpdateUserRequest}
use security_system_gsb.Model.ApiKey.{ApiKey, CreateApiKeyRequest, CreateApiKeyResponse, is_expired}
use security_system_gsb.Repository.ApiKeys
use security_system_gsb.Repository.ApiKeys.{has_hash}
use security_system_gsb.Repository.Users
use security_system_gsb.Pkg.Crypto.{hash_api_key, sha256_hex, generate_api_key, generate_random_hex}
use security_system_gsb.Service.ApiKeys.{create, issue, check_scopes, authenticate, revoke}
use security_system_gsb.Service.ApiKeys.Access.{revoke-authenticate}
use security_system_gsb.Service.ApiKeys.Issuing.{create-authenticate}
use security_system_gsb.Service.Rbac.{invalidate}
use security_system_gsb.Service.Users.{update}
use security_system_gsb.Tests.Data.{world, libs}

abbrev export_key : ApiKey
export_key = record {
  id = 1;
  name = "export";
  key_hash = "hsp_1";
  key_prefix = "1";
  owner_id = 1;
  scopes = "alert:read" ∷ [];
  is_active = true;
  expires_at = some 500;
  last_used_at = none;
  created_at = 0;
}

abbrev with_key : World
with_key = record world { api_keys = export_key ∷ [] }

key_found : find (has_hash (hash_api_key libs "sp_1")) with_key.api_keys ≡ some export_key
unfolding find hash_api_key sha256_hex
key_found = refl

revoke-authenticate_example :
    (authenticate libs "sp_1" (record (revoke 1 1 with_key).1 { now = 300 })).0
    ≡ err api_key_not_found
revoke-authenticate_example = revoke-authenticate libs "sp_1" with_key export_key refl key_found 300

abbrev request : CreateApiKeyRequest
request = record { name = "export"; scopes = "alert:read" ∷ []; expires_at = some 500 }

abbrev response : CreateApiKeyResponse
response = record {
  api_key = record export_key { key_hash = "hsp_00_00"; key_prefix = "00" };
  raw_key = "sp_00_00";
}

created : (create libs 1 request world).0 ≡ ok response
unfolding create check_scopes contains generate_api_key generate_random_hex issue ApiKeys.create
    statement any_where hash_api_key sha256_hex
created = refl

unexpired : is_expired 400 response.api_key ≡ false
unfolding is_expired
unexpired = refl

create-authenticate_example :
    (k : ApiKey) × ((authenticate libs "sp_00_00"
        (record (create libs 1 request world).1 { now = 400; faults = [] })).0
      ≡ ok k)
    × (k.id ≡ 1)
    × (k.scopes ≡ "alert:read" ∷ [])
create-authenticate_example =
    create-authenticate libs 1 request world response 400 created unexpired

abbrev cached : World
cached = record world { perm_cache = (1, "alert:read" ∷ []) ∷ [] }

abbrev promotion : UpdateUserRequest
promotion = record { email = ""; role_id = 2; status = 1 }

promoted : (update 1 promotion cached).0 ≡ ok tt
unfolding update Users.update statement any_where invalidate
promoted = refl

named : 0 < 2
named = omega arith
