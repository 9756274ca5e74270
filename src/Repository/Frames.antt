-- ===== src/Repository/Frames.antt =====
-- `Frames`: the statements that leave the roles, the audit log and its channel alone.
use security_system_gsb.Common.{ℕ, String, arith}
use security_system_gsb.World.{World}
use security_system_gsb.World.Frames.{Core, Ends, statement-Ends}
use security_system_gsb.Model.User.{User, UpdateUserRequest}
use security_system_gsb.Model.Session.{Session}
use security_system_gsb.Model.Alert.{SecurityAlert, AlertComment}
use security_system_gsb.Model.ApiKey.{ApiKey}
use security_system_gsb.Repository.Users
use security_system_gsb.Repository.Sessions
use security_system_gsb.Repository.Alerts
use security_system_gsb.Repository.Roles
use security_system_gsb.Repository.ApiKeys
use security_system_gsb.Repository.Audits

module _ {P : Core → Type 0} where
  pub user_find_by_id-Ends : (id : ℕ) (w : World) → Ends P w → Ends P (Users.find_by_id id w).1
  unfolding Users.find_by_id
  user_find_by_id-Ends id w h = statement-Ends _ w h (λ v g. record { at = g.at })

  pub user_find_by_username-Ends :
      (name : String) (w : World) → Ends P w → Ends P (Users.find_by_username name w).1
  unfolding Users.find_by_username
  user_find_by_username-Ends name w h = statement-Ends _ w h (λ v g. record { at = g.at })

  pub user_create-Ends : (u : User) (w : World) → Ends P w → Ends P (Users.create u w).1
  unfolding Users.create
  user_create-Ends u w h =
      statement-Ends _ w h (λ v g. let here = g.at in record { at = ground arith })

  pub user_update-Ends :
      (id : ℕ) (req : UpdateUserRequest) (w : World) → Ends P w → Ends P (Users.update id req w).1
  unfolding Users.update
  user_update-Ends id req w h =
      statement-Ends _ w h (λ v g. let here = g.at in record { at = ground arith })

  pub user_record_login_success-Ends :
      (id : ℕ) (w : World) → Ends P w → Ends P (Users.record_login_success id w).1
  unfolding Users.record_login_success
  user_record_login_success-Ends id w h = statement-Ends _ w h (λ v g. record { at = g.at })

  pub user_record_login_failure-Ends :
      (name : String) (n : ℕ) (w : World)
      → Ends P w
      → Ends P (Users.record_login_failure name n w).1
  unfolding Users.record_login_failure
  user_record_login_failure-Ends name n w h = statement-Ends _ w h (λ v g. record { at = g.at })

  pub user_update_password-Ends :
      (id : ℕ) (hash : String) (w : World) → Ends P w → Ends P (Users.update_password id hash w).1
  unfolding Users.update_password
  user_update_password-Ends id hash w h = statement-Ends _ w h (λ v g. record { at = g.at })

  pub session_create-Ends : (s : Session) (w : World) → Ends P w → Ends P (Sessions.create s w).1
  unfolding Sessions.create
  session_create-Ends s w h =
      statement-Ends _ w h (λ v g. let here = g.at in record { at = ground arith })

  pub session_update_refresh_token-Ends :
      (id : ℕ) (token : String) (w : World)
      → Ends P w
      → Ends P (Sessions.update_refresh_token id token w).1
  unfolding Sessions.update_refresh_token
  session_update_refresh_token-Ends id token w h =
      statement-Ends _ w h (λ v g. let here = g.at in record { at = ground arith })

  pub session_find_by_refresh_token-Ends :
      (token : String) (w : World) → Ends P w → Ends P (Sessions.find_by_refresh_token token w).1
  unfolding Sessions.find_by_refresh_token
  session_find_by_refresh_token-Ends token w h = statement-Ends _ w h (λ v g. record { at = g.at })

  pub session_revoke-Ends : (id : ℕ) (w : World) → Ends P w → Ends P (Sessions.revoke id w).1
  unfolding Sessions.revoke
  session_revoke-Ends id w h = statement-Ends _ w h (λ v g. record { at = g.at })

  pub session_revoke_all_by_user-Ends :
      (user : ℕ) (w : World) → Ends P w → Ends P (Sessions.revoke_all_by_user user w).1
  unfolding Sessions.revoke_all_by_user
  session_revoke_all_by_user-Ends user w h = statement-Ends _ w h (λ v g. record { at = g.at })

  pub alert_create-Ends : (a : SecurityAlert) (w : World) → Ends P w → Ends P (Alerts.create a w).1
  unfolding Alerts.create
  alert_create-Ends a w h =
      statement-Ends _ w h (λ v g. let here = g.at in record { at = ground arith })

  pub alert_find_by_id-Ends : (id : ℕ) (w : World) → Ends P w → Ends P (Alerts.find_by_id id w).1
  unfolding Alerts.find_by_id
  alert_find_by_id-Ends id w h = statement-Ends _ w h (λ v g. record { at = g.at })

  pub alert_update-Ends :
      (id : ℕ) (a : SecurityAlert) (w : World) → Ends P w → Ends P (Alerts.update id a w).1
  unfolding Alerts.update
  alert_update-Ends id a w h =
      statement-Ends _ w h (λ v g. let here = g.at in record { at = ground arith })

  pub alert_check_and_mark_sla_breaches-Ends :
      (w : World) → Ends P w → Ends P (Alerts.check_and_mark_sla_breaches w).1
  unfolding Alerts.check_and_mark_sla_breaches
  alert_check_and_mark_sla_breaches-Ends w h = statement-Ends _ w h (λ v g. record { at = g.at })

  pub alert_find_sla_breached_unnotified-Ends :
      (w : World) → Ends P w → Ends P (Alerts.find_sla_breached_unnotified w).1
  unfolding Alerts.find_sla_breached_unnotified
  alert_find_sla_breached_unnotified-Ends w h = statement-Ends _ w h (λ v g. record { at = g.at })

  pub alert_add_comment-Ends :
      (c : AlertComment) (w : World) → Ends P w → Ends P (Alerts.add_comment c w).1
  unfolding Alerts.add_comment
  alert_add_comment-Ends c w h =
      statement-Ends _ w h (λ v g. let here = g.at in record { at = ground arith })

  pub alert_list_comments-Ends :
      (id : ℕ) (w : World) → Ends P w → Ends P (Alerts.list_comments id w).1
  unfolding Alerts.list_comments
  alert_list_comments-Ends id w h = statement-Ends _ w h (λ v g. record { at = g.at })

  pub role_find_by_id-Ends : (id : ℕ) (w : World) → Ends P w → Ends P (Roles.find_by_id id w).1
  unfolding Roles.find_by_id
  role_find_by_id-Ends id w h = statement-Ends _ w h (λ v g. record { at = g.at })

  pub role_find_by_name-Ends :
      (name : String) (w : World) → Ends P w → Ends P (Roles.find_by_name name w).1
  unfolding Roles.find_by_name
  role_find_by_name-Ends name w h = statement-Ends _ w h (λ v g. record { at = g.at })

  pub role_list_all-Ends : (w : World) → Ends P w → Ends P (Roles.list_all w).1
  unfolding Roles.list_all
  role_list_all-Ends w h = statement-Ends _ w h (λ v g. record { at = g.at })

  pub role_list_permissions-Ends : (w : World) → Ends P w → Ends P (Roles.list_permissions w).1
  unfolding Roles.list_permissions
  role_list_permissions-Ends w h = statement-Ends _ w h (λ v g. record { at = g.at })

  pub role_get_permissions-Ends :
      (id : ℕ) (w : World) → Ends P w → Ends P (Roles.get_permissions id w).1
  unfolding Roles.get_permissions
  role_get_permissions-Ends id w h = statement-Ends _ w h (λ v g. record { at = g.at })

  pub role_find_users_with_role-Ends :
      (id : ℕ) (w : World) → Ends P w → Ends P (Roles.find_users_with_role id w).1
  unfolding Roles.find_users_with_role
  role_find_users_with_role-Ends id w h = statement-Ends _ w h (λ v g. record { at = g.at })

  pub key_create-Ends : (k : ApiKey) (w : World) → Ends P w → Ends P (ApiKeys.create k w).1
  unfolding ApiKeys.create
  key_create-Ends k w h =
      statement-Ends _ w h (λ v g. let here = g.at in record { at = ground arith })

  pub key_list_by_owner-Ends :
      (owner : ℕ) (w : World) → Ends P w → Ends P (ApiKeys.list_by_owner owner w).1
  unfolding ApiKeys.list_by_owner
  key_list_by_owner-Ends owner w h = statement-Ends _ w h (λ v g. record { at = g.at })

  pub key_revoke-Ends : (id owner : ℕ) (w : World) → Ends P w → Ends P (ApiKeys.revoke id owner w).1
  unfolding ApiKeys.revoke
  key_revoke-Ends id owner w h = statement-Ends _ w h (λ v g. record { at = g.at })

  pub log_get_last_hash-Ends : (w : World) → Ends P w → Ends P (Audits.get_last_hash w).1
  unfolding Audits.get_last_hash
  log_get_last_hash-Ends w h = statement-Ends _ w h (λ v g. record { at = g.at })

  pub log_verify_chain-Ends : (n : ℕ) (w : World) → Ends P w → Ends P (Audits.verify_chain n w).1
  unfolding Audits.verify_chain
  log_verify_chain-Ends n w h = statement-Ends _ w h (λ v g. record { at = g.at })

pub ruleset repository_rules = (
  user_find_by_id-Ends, user_find_by_username-Ends, user_create-Ends, user_update-Ends,
  user_record_login_success-Ends, user_record_login_failure-Ends, user_update_password-Ends,
  session_create-Ends, session_update_refresh_token-Ends, session_find_by_refresh_token-Ends,
  session_revoke-Ends, session_revoke_all_by_user-Ends, alert_create-Ends, alert_find_by_id-Ends,
  alert_update-Ends, alert_check_and_mark_sla_breaches-Ends,
  alert_find_sla_breached_unnotified-Ends, alert_add_comment-Ends, alert_list_comments-Ends,
  role_find_by_id-Ends, role_find_by_name-Ends, role_list_all-Ends, role_list_permissions-Ends,
  role_get_permissions-Ends, role_find_users_with_role-Ends, key_create-Ends,
  key_list_by_owner-Ends, key_revoke-Ends, log_get_last_hash-Ends, log_verify_chain-Ends,
)
