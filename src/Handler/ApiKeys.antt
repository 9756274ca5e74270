-- ===== src/Handler/ApiKeys.antt =====
-- internal/handler/apikey_handler.go
use security_system_gsb.Error.{format_int, Result}
use security_system_gsb.Model.ApiKey.{CreateApiKeyRequest}
use security_system_gsb.Http.{
  Handler, reply, call, or_refuse, or_message, serve, caller_id, status_ok, status_created,
  status_bad_request, status_not_found, status_internal_error, api_keys, api_key_created, done,
  ◌>>=◌, ◌>>◌,
}
use security_system_gsb.Strconv.{to_nat, format_int64}
use security_system_gsb.Pkg.Libraries.{Libraries}
use security_system_gsb.Service.ApiKeys
use security_system_gsb.Handler.Calls.{id_or_refuse, entry_of, log_entry}

unfoldable pub list : Handler
list c = serve do
  found ← call (ApiKeys.list_by_owner (caller_id c))
  keys ← or_refuse found status_internal_error "查询失败"
  reply status_ok (api_keys keys)

unfoldable pub create : Libraries → Result CreateApiKeyRequest → Handler
create lib body c = serve do
  req ← or_message body status_bad_request
  created ← call (ApiKeys.create lib (caller_id c) req)
  resp ← or_message created status_bad_request
  log_entry (entry_of c "create_apikey" "apikey" (format_int resp.api_key.id) req.name)
  reply status_created (api_key_created resp)

unfoldable pub revoke : Handler
revoke c = serve do
  id ← id_or_refuse c "密钥ID格式错误"
  revoked ← call (ApiKeys.revoke (to_nat id) (caller_id c))
  gone ← or_refuse revoked status_not_found "密钥不存在"
  log_entry (entry_of c "revoke_apikey" "apikey" (format_int64 id) "")
  reply status_ok (done "密钥已吊销")
