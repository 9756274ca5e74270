-- ===== src/Handler/Audited.antt =====
-- `Audited`: a handler that changes something and answers with a success has sent an entry about it
-- to the audit service. `audited_rules` follows the code to the call of Log.
pub mod Requests
use security_system_gsb.Common.{
  ℕ, ◌≡◌, ◌≤◌, ◌<◌, refl, String, Bool, true, false, Option, none, some, leb, arith, if◌then◌else◌,
}
use security_system_gsb.Error.{Error, Result, ok, err, already_closed, invalid_transition}
use security_system_gsb.World.{World}
use security_system_gsb.World.Frames.{Core, Ends}
use security_system_gsb.Model.User.{CreateUserRequest, UpdateUserRequest, ChangePasswordRequest}
use security_system_gsb.Model.Role.{CreateRoleRequest, UpdateRolePermissionsRequest}
use security_system_gsb.Model.ApiKey.{CreateApiKeyRequest}
use security_system_gsb.Model.Alert.{CreateAlertRequest, UpdateAlertRequest}
use security_system_gsb.Model.Audit.{AuditLogEntry, audit_result_success}
use security_system_gsb.Pkg.Libraries.{Libraries}
use security_system_gsb.Http.{
  Context, Response, Step, goes, answers, Part, next, response, require, or_refuse, or_message,
  some_or_refuse, caller_id,
}
use security_system_gsb.Repository.Roles as RoleRows
use security_system_gsb.Service.Audit as AuditService
use security_system_gsb.Service.Alerts as AlertService
use security_system_gsb.Service.ApiKeys as KeyService
use security_system_gsb.Service.Auth as Sessions
use security_system_gsb.Service.Auth.{AuthService}
use security_system_gsb.Service.Rbac.Frames.{create_role-Ends, update_role_permissions-Ends}
use security_system_gsb.Handler.Calls.{permits, rank_of}
use security_system_gsb.Handler.Alerts
use security_system_gsb.Handler.Alerts.{or_update_error, update_status}
use security_system_gsb.Handler.Users
use security_system_gsb.Handler.Users.{outranks, may_give}
use security_system_gsb.Handler.Auth
use security_system_gsb.Handler.Auth.{revoke_session}
use security_system_gsb.Handler.Admin
use security_system_gsb.Handler.ApiKeys
use security_system_gsb.Handler.Frames.{handler_rules, part_rules}

-- A part that answers refuses: the status is that of an error.
abbrev pub Refusal : {A : Type 0} → Step A → Type 0
Refusal (goes a) = Unit
Refusal (answers r) = 400 ≤ r.status

pub record Denies {A : Type 0} (s : Step A) : Type 0 where
  pub status : Refusal s

-- An entry of the caller about an action on a kind of resource.
abbrev pub About : Context → String → String → AuditLogEntry → Type 0
About c action resource e =
    (e.user_id ≡ caller_id c)
    × (e.action ≡ action)
    × (e.resource ≡ resource)
    × (e.result ≡ audit_result_success)

-- An answer with the status `n`, in the world `v`: a success has logged such an entry, in a world
-- that has `P`.
pub data Audited (P : Core → Type 0) (c : Context) (action resource : String) (n : ℕ) (v : World)
    : Type 0 where
  entry :
      (n < 400
        → (e : AuditLogEntry) × (u : World) × About c action resource e
          × Ends P u
          × (v ≡ (AuditService.log e u).1))
      → Audited P c action resource n v

module _ {A : Type 0} where
  pub or_refuse-Denies :
      (r : Result A) (n : ℕ) (text : String) (v : World)
      → leb 400 n ≡ true
      → Denies (or_refuse r n text v).0
  or_refuse-Denies (ok a) n text v h = record { status = tt }
  or_refuse-Denies (err x) n text v h = record { status = ground arith }

  pub or_message-Denies :
      (r : Result A) (n : ℕ) (v : World) → leb 400 n ≡ true → Denies (or_message r n v).0
  or_message-Denies (ok a) n v h = record { status = tt }
  or_message-Denies (err x) n v h = record { status = ground arith }

  pub some_or_refuse-Denies :
      (r : Option A) (n : ℕ) (text : String) (v : World)
      → leb 400 n ≡ true
      → Denies (some_or_refuse r n text v).0
  some_or_refuse-Denies (some a) n text v h = record { status = tt }
  some_or_refuse-Denies none n text v h = record { status = ground arith }

pub require-Denies :
    (b : Bool) (n : ℕ) (text : String) (v : World)
    → leb 400 n ≡ true
    → Denies (require b n text v).0
require-Denies true n text v h = record { status = tt }
require-Denies false n text v h = record { status = ground arith }

pub or_update_error-Denies : (r : Result (Unit {0})) (v : World) → Denies (or_update_error r v).0
or_update_error-Denies (ok u) v = record { status = tt }
or_update_error-Denies (err e) v = record { status = update_status_high e }
  where
    update_status_high : (e : Error) → 400 ≤ update_status e
    update_status_high already_closed = omega arith
    update_status_high invalid_transition = omega arith
    update_status_high _ = omega arith

module _ {A B : Type 0} where
  pub next-Denies :
      (s : Step A) (k : A → Part B) (v : World)
      → Denies s
      → ((a : A) → Denies (k a v).0)
      → Denies (next s k v).0
  next-Denies (goes a) k v h hk = hk a
  next-Denies (answers r) k v h hk = record { status = h.status }

module _ {A : Type 0} where
  pub if-Denies :
      (b : Bool) (m n : Part A) (v : World)
      → Denies (m v).0
      → Denies (n v).0
      → Denies ((if b then m else n) v).0
  if-Denies true m n v hm hn = hm
  if-Denies false m n v hm hn = hn

-- The same of what a part of a handler gives.
pub data Audits (P : Core → Type 0) (c : Context) (action resource : String) (s : Step Response)
    (v : World) : Type 0 where
  whole :
      Audited P c action resource (response (s, v)).0.status (response (s, v)).1
      → Audits P c action resource s v

module _ {A : Type 0} {P : Core → Type 0} {c : Context} {action resource : String} where
  pub next-Audits :
      (s : Step A) (k : A → Part Response) (v : World)
      → Denies s
      → ((a : A) → Audits P c action resource (k a v).0 (k a v).1)
      → Audits P c action resource (next s k v).0 (next s k v).1
  next-Audits (goes a) k v h hk = hk a
  next-Audits (answers r) k v h hk = whole (entry λ good. absurd (omega (arith, h.status)))

module _ {P : Core → Type 0} {c : Context} {action resource : String} where
  pub log-Audits :
      (e : AuditLogEntry) (r : Response) (v : World)
      → Ends P v
      → e.user_id ≡ caller_id c
      → e.action ≡ action
      → e.resource ≡ resource
      → e.result ≡ audit_result_success
      → Audits P c action resource (answers r) (AuditService.log e v).1
  log-Audits e r v h u a k good = whole (entry λ _. (e, v, (u, a, k, good), h, refl))

  pub serve-Audited :
      (out : Step Response × World)
      → Audits P c action resource out.0 out.1
      → Audited P c action resource (response out).0.status (response out).1
  serve-Audited out (whole h) = h

pub ruleset audited_rules = (
  handler_rules, part_rules, or_refuse-Denies, or_message-Denies, some_or_refuse-Denies,
  require-Denies, or_update_error-Denies, next-Denies, if-Denies, next-Audits, log-Audits,
  serve-Audited,
)

pub outranks-Denies :
    (c : Context) (role : ℕ) (text : String) (v : World) → Denies (outranks c role text v).0
unfolding outranks rank_of
outranks-Denies c role text v = search audited_rules depth 10

pub may_give-Denies : (c : Context) (role : ℕ) (v : World) → Denies (may_give c role v).0
may_give-Denies c role v = search (audited_rules, outranks-Denies) depth 10

pub may_give-Ends :
    {P : Core → Type 0} (c : Context) (role : ℕ) (v : World)
    → Ends P v
    → Ends P (may_give c role v).1
may_give-Ends c role v h = search (handler_rules, part_rules) depth 10

pub revoke_session-Denies : (session : Option ℕ) (v : World) → Denies (revoke_session session v).0
revoke_session-Denies none v = record { status = tt }
revoke_session-Denies (some id) v = record { status = tt }
