-- ===== src/Handler/Users.antt =====
-- internal/handler/user_handler.go
use security_system_gsb.Common.{
  ℕ, String, Bool, true, false, not, ◌&&◌, ltb, leb, ◌==◌, nat_eq, if◌then◌else◌,
}
use security_system_gsb.Error.{format_int, Result}
use security_system_gsb.Model.User.{CreateUserRequest, UpdateUserRequest}
use security_system_gsb.Model.Role.{perm_user_read, perm_user_write}
use security_system_gsb.Http.{
  Context, Handler, Part, reply, call, or_refuse, or_message, require, serve, caller_id,
  caller_role, status_ok, status_created, status_bad_request, status_forbidden, status_not_found,
  status_internal_error, user, users, done, ◌>>=◌, ◌>>◌,
}
use security_system_gsb.Strconv.{ℤ, pos, negsuc, to_nat, atoi_or_zero, format_int64}
use security_system_gsb.Pkg.Libraries.{Libraries}
use security_system_gsb.Service.Users
use security_system_gsb.Handler.Calls.{permits, rank_of, id_or_refuse, entry_of, log_entry}

unfoldable pub list : Handler
unfolding permits
list c = serve do
  allowed ← permits c perm_user_read
  require allowed status_forbidden "无权查看用户列表"
  let page = to_nat (atoi_or_zero c.page_param)
  let size = to_nat (atoi_or_zero c.page_size_param)
  found ← call (Users.list page size)
  listed ← or_refuse found status_internal_error "查询失败"
  reply status_ok (users listed.total listed.rows)

abbrev pub is_self : Context → ℤ → Bool
is_self c (pos n) = n == caller_id c
is_self c (negsuc n) = false

-- The permission is asked for only where the user is another one.
abbrev pub may_see : Context → ℤ → Part (Unit {0})
may_see c id =
    if is_self c id
    then require true status_ok ""
    else (permits c perm_user_read >>= λ ok. require ok status_forbidden "无权查看其他用户信息")

unfoldable pub get : Handler
unfolding permits
get c = serve do
  id ← id_or_refuse c "用户ID格式错误"
  may_see c id
  found ← call (Users.get_by_id (to_nat id))
  u ← or_refuse found status_not_found "用户不存在"
  reply status_ok (user u)

-- The role must rank below the caller's.
unfoldable pub outranks : Context → ℕ → String → Part (Unit {0})
outranks c role text = do
  caller_rank ← rank_of (caller_role c)
  target_rank ← rank_of role
  require (not (leb caller_rank target_rank)) status_forbidden text

unfoldable pub create : Libraries → Result CreateUserRequest → Handler
unfolding permits outranks
create lib body c = serve do
  allowed ← permits c perm_user_write
  require allowed status_forbidden "无权创建用户"
  req ← or_message body status_bad_request
  outranks c req.role_id "不能为新用户分配不低于自身等级的角色"
  created ← call (Users.create lib req)
  u ← or_message created status_bad_request
  log_entry (entry_of c "create_user" "user" (format_int u.id) u.username)
  reply status_created (user u)

abbrev pub may_give : Context → ℕ → Part (Unit {0})
may_give c role =
    if ltb 0 role then outranks c role "不能将用户角色设置为不低于自身等级的角色" else require true status_ok ""

unfoldable pub update : Result UpdateUserRequest → Handler
unfolding permits outranks
update body c = serve do
  allowed ← permits c perm_user_write
  require allowed status_forbidden "无权修改用户信息"
  id ← id_or_refuse c "用户ID格式错误"
  req ← or_message body status_bad_request
  require (not (is_self c id && ltb 0 req.role_id)) status_forbidden "不能修改自身的角色"
  may_give c req.role_id
  updated ← call (Users.update (to_nat id) req)
  or_message updated status_bad_request
  log_entry (entry_of c "update_user" "user" (format_int64 id) "")
  reply status_ok (done "更新成功")
