-- ===== src/Service/Audit.antt =====
-- internal/service/audit_service.go. `log_chan` of `World` is the buffered channel, oldest first.
-- The consumer goroutine alone receives from the channel and writes to `audit_logs`, so one round
-- of its loop is one step; calls of `log` come between rounds.
use security_system_gsb.Common.{
  ℕ, String, List, [], ◌∷◌, ◌++◌ as append, ltb, length, if◌then◌else◌,
}
use security_system_gsb.Error.{◌++◌, format_int, Result, ok, err}
use security_system_gsb.World.{World, Exec, pure, modify, attempt, ◌>>=◌, ◌>>◌}
use security_system_gsb.Model.Audit.{AuditQueryParams, AuditLog, AuditLogEntry}
use security_system_gsb.Repository.Audits
use security_system_gsb.Repository.Paging.{Paged}
use security_system_gsb.Pkg.Libraries.{Libraries}
use security_system_gsb.Pkg.Crypto.{sha256_hex}
pub mod Chain
pub mod Appending
pub mod Verification

abbrev pub audit_channel_size : ℕ
audit_channel_size = 512

-- A send that does not block: the entry is dropped where the channel is full.
unfoldable pub enqueue : AuditLogEntry → List AuditLogEntry → List AuditLogEntry
enqueue entry chan = if ltb (length chan) audit_channel_size then append chan (entry ∷ []) else chan

unfoldable pub log : AuditLogEntry → Exec (Unit {0})
unfolding enqueue
log entry = modify (λ w. record w { log_chan = enqueue entry w.log_chan })

abbrev pub content : AuditLogEntry → String
content e =
    format_int e.user_id
    ++ "|"
    ++ e.username
    ++ "|"
    ++ e.action
    ++ "|"
    ++ e.resource
    ++ "|"
    ++ e.resource_id
    ++ "|"
    ++ e.detail
    ++ "|"
    ++ e.ip_address
    ++ "|"
    ++ e.result

-- The error of GetLastHash makes the previous hash empty.
abbrev or_empty : Result String → String
or_empty (ok hash) = hash
or_empty (err e) = ""

module _ (lib : Libraries) where
  unfoldable pub build_audit_log : ℕ → AuditLogEntry → String → AuditLog
  unfolding sha256_hex
  build_audit_log now e prev_hash = record {
    id = 0;
    user_id = e.user_id;
    username = e.username;
    action = e.action;
    resource = e.resource;
    resource_id = e.resource_id;
    detail = e.detail;
    ip_address = e.ip_address;
    user_agent = e.user_agent;
    result = e.result;
    prev_hash = prev_hash;
    hash = sha256_hex lib (prev_hash ++ "|" ++ content e);
    created_at = now;
  }

  -- The body of the loop, for an entry that has been received.
  unfoldable pub write_entry : AuditLogEntry → Exec (Unit {0})
  unfolding build_audit_log
  write_entry entry w =
      let body = do
        last ← attempt Audits.get_last_hash
        written ← attempt (Audits.create (build_audit_log w.now entry (or_empty last)))
        pure tt
      in body w

  abbrev pub receive : List AuditLogEntry → Exec (Unit {0})
  receive [] w = pure tt w
  receive (entry ∷ rest) w = write_entry entry (record w { log_chan = rest })

  -- One round of `consumeLoop`; it waits where the channel is empty.
  unfoldable pub consume : Exec (Unit {0})
  consume w = receive w.log_chan w

  -- `Shutdown` closes the channel and waits for the loop to drain it.
  unfoldable drain : List AuditLogEntry → Exec (Unit {0})
  drain [] = pure tt
  drain (entry ∷ rest) = do consume; drain rest

  unfoldable pub shutdown : Exec (Unit {0})
  unfolding drain
  shutdown w = drain w.log_chan w

unfoldable pub verify_chain : ℕ → Exec ℕ
verify_chain last_n = Audits.verify_chain last_n

unfoldable pub list : AuditQueryParams → Exec (Paged AuditLog)
list q = Audits.list q
