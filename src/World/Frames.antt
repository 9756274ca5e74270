-- ===== src/World/Frames.antt =====
-- `Frames`: what holds of a run's end because of the roles, the audit log and its channel alone,
-- which few statements touch. `ends_rules` derives it from the code, block by block.
use security_system_gsb.Common.{ℕ, List, Bool, true, false, if◌then◌else◌}
use security_system_gsb.Error.{Error, Result, ok, err}
use security_system_gsb.World.{World, Exec, guard, statement, continue}
use security_system_gsb.World.Statements.{with_faults, statement_elim}
use security_system_gsb.Model.Role.{Role}
use security_system_gsb.Model.Audit.{AuditLog, AuditLogEntry}

pub record Core : Type 0 where
  pub roles : List Role
  pub last_role : ℕ
  pub audit_logs : List AuditLog
  pub last_log : ℕ
  pub log_chan : List AuditLogEntry

abbrev pub core : World → Core
core w = record {
  roles = w.roles;
  last_role = w.serials.roles;
  audit_logs = w.audit_logs;
  last_log = w.serials.audit_logs;
  log_chan = w.log_chan;
}

-- `P` holds of the world that a run ends in.
pub record Ends (P : Core → Type 0) (v : World) : Type 0 where
  pub at : P (core v)

module _ {A B : Type 0} {P : Core → Type 0} where
  pub continue-Ends :
      (r : Result A) (k : A → Exec B) (v : World)
      → Ends P v
      → ((a : A) → Ends P (k a v).1)
      → Ends P (continue r k v).1
  continue-Ends (ok a) k v h hk = hk a
  continue-Ends (err e) k v h hk = h

module _ {X : Type 0} {P : Core → Type 0} where
  pub if-Ends :
      (b : Bool) (m n : World → X × World) (v : World)
      → Ends P (m v).1
      → Ends P (n v).1
      → Ends P ((if b then m else n) v).1
  if-Ends true m n v hm hn = hm
  if-Ends false m n v hm hn = hn

module _ {A : Type 0} {P : Core → Type 0} where
  pub statement-Ends :
      (m : Exec A) (w : World)
      → Ends P w
      → ((v : World) → Ends P v → Ends P (m v).1)
      → Ends P (statement m w).1
  statement-Ends m w h runs =
      statement_elim (λ out. Ends P out.1) m w
        (λ fs. runs (with_faults w fs) (record { at = h.at })) (λ fs text. record { at = h.at })

module _ {P : Core → Type 0} where
  pub guard-Ends : (b : Bool) (e : Error) (v : World) → Ends P v → Ends P (guard b e v).1
  guard-Ends true e v h = h
  guard-Ends false e v h = h

pub ruleset ends_rules = (continue-Ends, if-Ends, statement-Ends, guard-Ends)
