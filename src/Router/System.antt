-- ===== src/Router/System.antt =====
-- `System`: the life of the whole server. Requests of any callers, rounds of the audit consumer and
-- checks of the time limits follow one another in any order, each at its own time and with its own
-- failing statements.
use security_system_gsb.Common.{
  ◌≡◌, ◌≤◌, sym, ℕ, String, List, [], ◌++◌, Option, arith, All, Within, length,
}
use mathlib.Core.List.{append-nil}
use security_system_gsb.World.{World}
use security_system_gsb.World.Frames.{Core, Ends, statement-Ends}
use security_system_gsb.Model.Role.{CreateRoleRequest}
use security_system_gsb.Model.Audit.{AuditLog, AuditLogEntry}
use security_system_gsb.Repository.Roles
use security_system_gsb.Pkg.Libraries.{Libraries}
use security_system_gsb.Http.{Context}
use security_system_gsb.Service.Auth.{AuthService}
use security_system_gsb.Service.Alerts.{run_sla_check}
use security_system_gsb.Service.Audit.{log, consume, audit_channel_size}
use security_system_gsb.Service.Audit.Chain.{Intact, Linked, log_id, consume-Intact}
use security_system_gsb.Service.Audit.Appending.{Sealed, Grown, log-Grown, consume-Grown}
use security_system_gsb.Service.Rbac.Tree.{Tree}
use security_system_gsb.Service.Frames.{run_sla_check-Ends}
use security_system_gsb.Repository.Audits.{newest_first}
use security_system_gsb.Router.{Request, route}
use security_system_gsb.Router.Frames.{route-Ends}

-- The world at a time, with the failures to come.
abbrev pub at : ℕ → List (Option String) → World → World
at now fs w = record w { now = now; faults = fs }

module _ (lib : Libraries) (s : AuthService) where
  -- The worlds that the server can come to.
  pub data Reach (w : World) : World → Type 0 where
    start : Reach w w
    request :
        {v : World}
        → Reach w v
        → (now : ℕ) (fs : List (Option String)) (r : Request) (c : Context)
        → Reach w (route lib s r c (at now fs v)).1
    round :
        {v : World}
        → Reach w v
        → (now : ℕ) (fs : List (Option String)) → Reach w (consume lib (at now fs v)).1
    tick :
        {v : World}
        → Reach w v
        → (now : ℕ) (fs : List (Option String)) → Reach w (run_sla_check (at now fs v)).1

  -- No statement of the audit consumer fails.
  unfoldable pub Unharmed : {w v : World} → Reach w v → Type 0
  Unharmed start = Unit
  Unharmed (request past now fs r c) = Unharmed past
  Unharmed (round past now fs) = Unharmed past × (fs ≡ [])
  Unharmed (tick past now fs) = Unharmed past

  module _ {P : Core → Type 0}
      (logs : (e : AuditLogEntry) (w : World) → Ends P w → Ends P (log e w).1)
      (creates : (req : CreateRoleRequest) (w : World) → Ends P w → Ends P (Roles.create req w).1)
      (consumes : (w : World) → Ends P w → Ends P (consume lib w).1) where
    reach-Ends : {w v : World} → Reach w v → Ends P w → Ends P v
    reach-Ends start h = h
    reach-Ends (request {v} past now fs r c) h =
        route-Ends lib s logs creates r c (at now fs v) (record { at = (reach-Ends past h).at })
    reach-Ends (round {v} past now fs) h =
        consumes (at now fs v) (record { at = (reach-Ends past h).at })
    reach-Ends (tick {v} past now fs) h =
        run_sla_check-Ends logs (at now fs v) (record { at = (reach-Ends past h).at })

  create-Grown :
      (base : List AuditLog) (req : CreateRoleRequest) (w : World)
      → Ends (Grown lib base) w
      → Ends (Grown lib base) (Roles.create req w).1
  unfolding Roles.create
  create-Grown base req w h =
      statement-Ends _ w h (λ v g. let here = g.at in record { at = ground arith })

  -- Whatever happens, and whatever statements fail, the audit log is only added to. Each row added
  -- was made from a previous hash, which it names: the column, of CHAR(64), holds it with blanks up
  -- to 64 characters. The row's hash, in the same way, is the SHA-256 of that previous hash and
  -- eight of the row's columns, joined by bars. The channel never holds more than 512 entries,
  -- where it did not at the start.
  pub reach_appends :
      {w v : World}
      → Reach w v
      → length w.log_chan ≤ audit_channel_size
      → (rest : List AuditLog) × (v.audit_logs ≡ w.audit_logs ++ rest)
        × All (Sealed lib) rest
        × (length v.log_chan ≤ audit_channel_size)
  reach_appends {w} run bound =
      (reach-Ends (log-Grown lib w.audit_logs) (create-Grown w.audit_logs)
        (consume-Grown lib w.audit_logs) run
        (record { at = ([], sym (append-nil w.audit_logs), tt, bound) })).at

  abbrev Unbroken : Core → Type 0
  Unbroken c = Within log_id c.last_log c.audit_logs × Linked lib (newest_first c.audit_logs)

  log-Unbroken : (e : AuditLogEntry) (w : World) → Ends Unbroken w → Ends Unbroken (log e w).1
  unfolding log
  log-Unbroken e w h = record { at = h.at }

  create-Unbroken :
      (req : CreateRoleRequest) (w : World) → Ends Unbroken w → Ends Unbroken (Roles.create req w).1
  unfolding Roles.create
  create-Unbroken req w h =
      statement-Ends _ w h (λ v g. let here = g.at in record { at = ground arith })

  -- Whatever happens, an audit log that is a chain stays one, where no statement of the audit
  -- consumer fails; the statements of requests and of the checks of the time limits may fail.
  pub reach-Intact : {w v : World} (run : Reach w v) → Unharmed run → Intact lib w → Intact lib v
  unfolding Unharmed
  reach-Intact start calm h = h
  reach-Intact (request {v} past now fs r c) calm h =
      (route-Ends lib s log-Unbroken create-Unbroken r c (at now fs v)
        (record { at = reach-Intact past calm h })).at
  reach-Intact (round {v} past now fs) (calm, none_fails) h =
      consume-Intact lib (at now fs v) none_fails (reach-Intact past calm h)
  reach-Intact (tick {v} past now fs) calm h =
      (run_sla_check-Ends log-Unbroken (at now fs v) (record { at = reach-Intact past calm h })).at
