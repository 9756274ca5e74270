-- ===== src/Handler/Probation.antt =====
-- `Probation`: what the alert handlers keep from accounts on probation.
use security_system_gsb.Common.{
  ℕ, ◌≡◌, ◌<◌, ◌⊎◌, false, [], some, arith, not, leb, ◌&&◌, nat_eq, inl, inr, Bool-cases,
  Option-cases, find, has_key,
}
use security_system_gsb.Error.{Result, Result-cases, ok}
use security_system_gsb.World.{World, statement}
use security_system_gsb.Model.User.{User}
use security_system_gsb.Model.Alert.{SecurityAlert, CreateAlertRequest, severity_high}
use security_system_gsb.Model.Role.{perm_alert_write, perm_alert_assign}
use security_system_gsb.Http.{Context, caller_id, caller_role}
use security_system_gsb.Http.Success.{Success}
use security_system_gsb.Strconv.{ℤ, to_nat, parse_int}
use security_system_gsb.Repository.Users
use security_system_gsb.Repository.Users.{user_id}
use security_system_gsb.Repository.Alerts as Rows
use security_system_gsb.Repository.Alerts.{alert_id}
use security_system_gsb.Service.Alerts as Service
use security_system_gsb.Service.Rbac.Ranks.{has_permission_quiet}
use security_system_gsb.Handler.Calls.{permits}
use security_system_gsb.Handler.Alerts

-- Where the database answers, the answer to a request to create an alert is a success only if
-- the caller is a stored user that is not on probation or the severity asked for is below high.
pub create-Probation :
    (body : Result CreateAlertRequest) (c : Context) (w : World)
    → w.faults ≡ []
    → Success (Alerts.create body c w)
    → (req : CreateAlertRequest) × (u : User) × (body ≡ ok req)
      × (find (has_key user_id (caller_id c)) w.users ≡ some u)
      × ((u.is_probation ≡ false) ⊎ (req.severity < severity_high))
unfolding Alerts.create permits Users.find_by_id statement
create-Probation body c w f s =
    let (b, cache, run) = has_permission_quiet (caller_role c) (caller_id c) perm_alert_write w f in
    elim (Bool-cases b) [
      | inr no_ ↦ absurd (omega (arith, rw (run, no_) at s))
      | inl yes_ ↦ elim (Result-cases body) [
        | inr (e, bad) ↦ absurd (omega (arith, rw (run, yes_, bad) at s))
        | inl (req, good) ↦ elim (Option-cases (find (has_key user_id (caller_id c)) w.users)) [
          | inl missing ↦ absurd (omega (arith, rw (run, yes_, good, missing) at s))
          | inr (u, found) ↦
              elim (Bool-cases (not (u.is_probation && leb severity_high req.severity))) [
                | inl passed ↦ (req, u, good, found, ground arith)
                | inr refused ↦ absurd (omega (arith, rw (run, yes_, good, found, refused) at s))
              ]
        ]
      ]
    ]

-- Where the database answers, the answer to a request to assign an alert is a success only if
-- the alert is stored and its severity is below high or the assignee is a stored user that is
-- not on probation.
pub assign-Probation :
    (body : Result ℕ) (c : Context) (w : World)
    → w.faults ≡ []
    → Success (Alerts.assign body c w)
    → (id : ℤ) × (assignee : ℕ) × (a : SecurityAlert) × (parse_int c.id_param ≡ some id)
      × (body ≡ ok assignee)
      × (find (has_key alert_id (to_nat id)) w.alerts ≡ some a)
      × ((a.severity < severity_high)
          ⊎ ((u : User) × (find (has_key user_id assignee) w.users ≡ some u)
              × (u.is_probation ≡ false)))
unfolding Alerts.assign permits Users.find_by_id Rows.find_by_id Service.get_by_id statement
assign-Probation body c w f s =
    let (b, cache, run) =
      has_permission_quiet (caller_role c) (caller_id c) perm_alert_assign w f in
    elim (Bool-cases b) [
      | inr no_ ↦ absurd (omega (arith, rw (run, no_) at s))
      | inl yes_ ↦ elim (Option-cases (parse_int c.id_param)) [
        | inl bad ↦ absurd (omega (arith, rw (run, yes_, bad) at s))
        | inr (id, parsed) ↦ elim (Result-cases body) [
          | inr (e, bad) ↦ absurd (omega (arith, rw (run, yes_, parsed, bad) at s))
          | inl (assignee, good) ↦
              elim (Option-cases (find (has_key alert_id (to_nat id)) w.alerts)) [
                | inl missing ↦ absurd (omega (arith, rw (run, yes_, parsed, good, missing) at s))
                | inr (a, found) ↦ elim (Bool-cases (leb severity_high a.severity)) [
                  | inr low ↦ (id, assignee, a, parsed, good, found, inl (ground arith))
                  | inl high ↦ elim (Option-cases (find (has_key user_id assignee) w.users)) [
                    | inl nobody ↦
                        absurd
                          (omega (arith, rw (run, yes_, parsed, good, found, high, nobody) at s))
                    | inr (u, there) ↦ elim (Bool-cases u.is_probation) [
                      | inr free ↦ (id, assignee, a, parsed, good, found, inr (u, there, free))
                      | inl bound ↦ absurd (
                          omega
                            (arith, rw (run, yes_, parsed, good, found, high, there, bound) at s))
                    ]
                  ]
                ]
              ]
        ]
      ]
    ]
