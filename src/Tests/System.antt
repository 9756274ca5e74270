-- ===== src/Tests/System.antt =====
-- The server's life on the desk, and what a caller needs there.
use security_system_gsb.Common.{
  ◌≡◌, ◌≤◌, ◌↔◌, inr, refl, arith, ℕ, true, List, [], ◌∷◌, ◌++◌, All, Distinct, length, contains,
  find, any_where, nat_eq, string_eq, order_by,
}
use security_system_gsb.Error.{ok}
use security_system_gsb.World.{World, statement}
use security_system_gsb.World.Frames.{core}
use security_system_gsb.Model.Audit.{AuditLog}
use security_system_gsb.Pkg.Libraries.{AccessClaims}
use security_system_gsb.Strconv.{parse_int}
use security_system_gsb.Http.{status_unprocessable}
use security_system_gsb.Http.Success.{Success}
use security_system_gsb.Middleware.{with_claims, jwt_auth}
use security_system_gsb.Service.Alerts.{run_sla_check}
use security_system_gsb.Service.Audit.{consume, audit_channel_size}
use security_system_gsb.Service.Audit.Chain.{Intact}
use security_system_gsb.Service.Audit.Appending.{Sealed}
use security_system_gsb.Pkg.Jwt.{parse_access}
use security_system_gsb.Repository.Alerts as AlertRows
use security_system_gsb.Repository.Users as UserRows
use security_system_gsb.Service.Alerts as AlertService
use security_system_gsb.Handler.Alerts
use security_system_gsb.Service.Rbac.{collect_descendant_roles, has_permission, get}
use security_system_gsb.Service.Rbac.Collected.{collect_exactly}
use security_system_gsb.Service.Rbac.Descendants.{Below}
use security_system_gsb.Service.Rbac.Descent.{self}
use security_system_gsb.Service.Rbac.Tree.{Tree}
use security_system_gsb.Router.{route, is_public, alerts_update, alerts_create}
use security_system_gsb.Router.Guards.{Identified}
use security_system_gsb.Router.Permissions.{route_permitted, needed, Granted}
use security_system_gsb.Router.Audited.{route_records, Recorded, recorded}
use security_system_gsb.Router.System.{
  Reach, start, request, round, tick, at, Unharmed, reach_appends, reach-Intact,
}
use security_system_gsb.Tests.Data.{service}
use security_system_gsb.Tests.Desk.{desk, open_libs, arriving, intrusion, to_resolved}

-- The desk, with the sequence of the roles where it has come to.
abbrev office : World
office = record desk { serials = record (desk.serials) { roles = 3 } }

office-Tree : Tree (core office)
office-Tree = record {
  distinct = ((λ e. omega arith, (λ e. omega arith, tt)), ((λ e. omega arith, tt), (tt, tt)));
  within = (omega arith, (omega arith, (omega arith, tt)));
  older = (tt, (omega arith, (omega arith, tt)));
}

collect_exactly_example :
    (ids : List ℕ) × (collect_descendant_roles 1 office ≡ (ok ids, office))
    × Distinct self ids
    × ((x : ℕ) → (contains x ids ≡ true) ↔ Below office.roles 1 x)
collect_exactly_example = collect_exactly 1 office refl office-Tree

abbrev raised : World
raised = (route open_libs service (alerts_create (ok intrusion)) (arriving "") (at 101 [] office)).1

abbrev written : World
written = (consume open_libs (at 102 [] raised)).1

abbrev checked : World
checked = (run_sla_check (at 400 [] written)).1

-- An alert is created, the entry about it is written, and the time limits are checked.
a_day : Reach open_libs service office checked
a_day =
    tick (round (request start 101 [] (alerts_create (ok intrusion)) (arriving "")) 102 []) 400 []

calm : Unharmed open_libs service a_day
unfolding Unharmed a_day
calm = (tt, refl)

office-Intact : Intact open_libs office
unfolding order_by
office-Intact = (tt, tt)

reach_appends_example :
    (rest : List AuditLog) × (checked.audit_logs ≡ office.audit_logs ++ rest)
    × All (Sealed open_libs) rest
    × (length checked.log_chan ≤ audit_channel_size)
reach_appends_example = reach_appends open_libs service a_day (omega arith)

reach-Intact_example : Intact open_libs checked
reach-Intact_example = reach-Intact open_libs service a_day calm office-Intact

-- Ann may delete alerts, and nothing else.
abbrev remover : World
remover = record desk { perm_cache = (1, "alert:delete" ∷ []) ∷ [] }

turned_down :
    (route open_libs service (alerts_update (ok to_resolved)) (arriving "2") remover).0.status
    ≡ status_unprocessable
unfolding route jwt_auth parse_access Alerts.update parse_int AlertService.get_by_id
    AlertRows.find_by_id statement find has_permission get contains AlertService.update
turned_down = refl

-- The second alert is closed.
route_permitted_example :
    let r = alerts_update (ok to_resolved) in
    (claims : AccessClaims) × Identified open_libs service r (arriving "2") remover claims
    × Granted claims (needed r (with_claims (arriving "2") claims) remover) remover
unfolding is_public
route_permitted_example =
    route_permitted open_libs service (alerts_update (ok to_resolved)) (arriving "2") remover refl
      (inr turned_down)

made : (route open_libs service (alerts_create (ok intrusion)) (arriving "") desk).0.status ≡ 201
unfolding route jwt_auth parse_access Alerts.create has_permission get contains UserRows.find_by_id
    statement find AlertService.create AlertRows.create any_where
made = refl

made_Success : Success (route open_libs service (alerts_create (ok intrusion)) (arriving "") desk)
made_Success = omega (arith, made)

route_records_example :
    let r = alerts_create (ok intrusion) in
    (claims : AccessClaims) × Identified open_libs service r (arriving "") desk claims
    × Recorded claims.user_id (recorded r) desk (route open_libs service r (arriving "") desk).1
unfolding is_public
route_records_example =
    route_records open_libs service (alerts_create (ok intrusion)) (arriving "") desk refl
      made_Success
