-- ===== src/Handler/Alerts.antt =====
-- internal/handler/alert_handler.go
use security_system_gsb.Common.{
  ℕ, String, Bool, true, false, not, ◌&&◌, ◌||◌, List, [], select, length, ltb, leb, ◌==◌, nat_eq,
  if◌then◌else◌,
}
use security_system_gsb.Error.{
  Error, invalid_transition, already_closed, message, format_int, Result, ok, err,
}
use security_system_gsb.Model.User.{User}
use security_system_gsb.Model.Role.{
  perm_alert_read, perm_alert_write, perm_alert_delete, perm_alert_assign,
}
use security_system_gsb.Model.Alert.{
  SecurityAlert, AlertComment, AlertQueryParams, CreateAlertRequest, UpdateAlertRequest,
  AddCommentRequest, severity_high, status_closed,
}
use security_system_gsb.Http.{
  Context, Handler, Part, reply, refuse, call, or_refuse, or_message, require, serve, caller_id,
  status_ok, status_created, status_bad_request, status_forbidden, status_not_found,
  status_unprocessable, status_internal_error, alert, alerts, alert_details, comment, done, ◌>>=◌,
  ◌>>◌,
}
use security_system_gsb.Strconv.{to_nat, format_int64}
use security_system_gsb.Repository.Users
use security_system_gsb.Repository.Paging.{Paged}
use security_system_gsb.Service.Alerts
use security_system_gsb.Handler.Calls.{
  permits, is_low_rank, takes_part, id_or_refuse, entry_of, log_entry,
}

abbrev pub visible : Bool → ℕ → Paged SecurityAlert → Paged SecurityAlert
visible false caller page = page
visible true caller page =
    let kept = select (takes_part caller) page.rows in record { total = length kept; rows = kept }

unfoldable pub list : Result AlertQueryParams → Handler
unfolding permits is_low_rank
list query c = serve do
  allowed ← permits c perm_alert_read
  require allowed status_forbidden "无权查看告警"
  q ← or_message query status_bad_request
  found ← call (Alerts.list q)
  page ← or_refuse found status_internal_error "查询失败"
  low ← is_low_rank c
  let seen = visible low (caller_id c) page
  reply status_ok (alerts seen.total seen.rows)

abbrev or_no_comments : Result (List AlertComment) → List AlertComment
or_no_comments (ok cs) = cs
or_no_comments (err e) = []

unfoldable pub get : Handler
unfolding permits is_low_rank
get c = serve do
  allowed ← permits c perm_alert_read
  require allowed status_forbidden "无权查看告警"
  id ← id_or_refuse c "告警ID格式错误"
  found ← call (Alerts.get_by_id (to_nat id))
  a ← or_refuse found status_not_found "告警不存在"
  low ← is_low_rank c
  require (not low || takes_part (caller_id c) a) status_not_found "告警不存在"
  comments ← call (Alerts.list_comments (to_nat id))
  reply status_ok (alert_details a (or_no_comments comments))

unfoldable pub create : Result CreateAlertRequest → Handler
unfolding permits
create body c = serve do
  allowed ← permits c perm_alert_write
  require allowed status_forbidden "无权创建告警"
  req ← or_message body status_bad_request
  found ← call (Users.find_by_id (caller_id c))
  caller ← or_refuse found status_internal_error "获取用户信息失败"
  require (not (caller.is_probation && leb severity_high req.severity)) status_forbidden
      "试用期账号不能创建高危及以上等级的告警"
  created ← call (Alerts.create req (caller_id c))
  a ← or_refuse created status_internal_error "创建失败"
  log_entry (record (entry_of c "create_alert" "alert" (format_int a.id) a.title) {
    username = caller.username;
  })
  reply status_created (alert a)

-- `alert:delete` for a closed alert, `alert:write` for any other.
abbrev pub may_update : Context → SecurityAlert → Part (Unit {0})
may_update c a =
    if a.status == status_closed
    then (permits c perm_alert_delete >>= λ ok. require ok status_forbidden "已关闭告警无权修改")
    else (permits c perm_alert_write >>= λ ok. require ok status_forbidden "无权修改告警")

-- A caller that is not found passes.
abbrev pub no_probation : Result User → Bool
no_probation (ok caller) = not caller.is_probation
no_probation (err e) = true

abbrev pub may_raise : Context → UpdateAlertRequest → SecurityAlert → Part (Unit {0})
may_raise c req a =
    if ltb a.severity req.severity
    then (call (Users.find_by_id (caller_id c)) >>= λ found.
        require (no_probation found) status_forbidden "试用期账号不能升级告警严重度")
    else require true status_ok ""

-- The switch compares the error itself, so one that wraps ErrInvalidTransition is "default".
abbrev pub update_status : Error → ℕ
update_status already_closed = status_unprocessable
update_status invalid_transition = status_unprocessable
update_status _ = status_internal_error

abbrev pub update_text : Error → String
update_text already_closed = message already_closed
update_text invalid_transition = message invalid_transition
update_text _ = "更新失败"

abbrev pub or_update_error : Result (Unit {0}) → Part (Unit {0})
or_update_error (ok u) = require true status_ok ""
or_update_error (err e) = refuse (update_status e) (update_text e)

unfoldable pub update : Result UpdateAlertRequest → Handler
unfolding permits
update body c = serve do
  id ← id_or_refuse c "告警ID格式错误"
  found ← call (Alerts.get_by_id (to_nat id))
  a ← or_refuse found status_not_found "告警不存在"
  may_update c a
  req ← or_message body status_bad_request
  may_raise c req a
  updated ← call (Alerts.update (to_nat id) req (caller_id c))
  or_update_error updated
  log_entry (entry_of c "update_alert" "alert" (format_int64 id) "")
  reply status_ok (done "更新成功")

-- An alert that is severe may not go to a user on probation.
abbrev pub may_take : ℕ → SecurityAlert → Part (Unit {0})
may_take assignee a =
    if leb severity_high a.severity
    then (call (Users.find_by_id assignee) >>= λ found.
        or_refuse found status_bad_request "被指派用户不存在" >>= λ user.
        require (not user.is_probation) status_unprocessable "高危及以上告警不能指派给试用期账号")
    else require true status_ok ""

-- The body is the identifier of the assignee.
unfoldable pub assign : Result ℕ → Handler
unfolding permits
assign body c = serve do
  allowed ← permits c perm_alert_assign
  require allowed status_forbidden "无权指派告警"
  id ← id_or_refuse c "告警ID格式错误"
  assignee ← or_message body status_bad_request
  found ← call (Alerts.get_by_id (to_nat id))
  a ← or_refuse found status_not_found "告警不存在"
  may_take assignee a
  assigned ← call (Alerts.assign (to_nat id) assignee (caller_id c))
  or_message assigned status_bad_request
  log_entry (entry_of c "assign_alert" "alert" (format_int64 id) (format_int assignee))
  reply status_ok (done "分配成功")

unfoldable pub add_comment : Result AddCommentRequest → Handler
unfolding permits is_low_rank
add_comment body c = serve do
  allowed ← permits c perm_alert_read
  require allowed status_forbidden "无权评论"
  id ← id_or_refuse c "告警ID格式错误"
  found ← call (Alerts.get_by_id (to_nat id))
  a ← or_refuse found status_not_found "告警不存在"
  low ← is_low_rank c
  require (not low || takes_part (caller_id c) a) status_forbidden "只有告警创建人或当前指派人才能评论"
  req ← or_message body status_bad_request
  added ← call (Alerts.add_comment (to_nat id) (caller_id c) req)
  written ← or_message added status_bad_request
  reply status_created (comment written)
