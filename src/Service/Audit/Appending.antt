-- ===== src/Service/Audit/Appending.antt =====
-- `Appending`: a round of the consumer adds at most one row to `audit_logs` and changes none.
use mathlib.Core.List.{append_assoc}
use security_system_gsb.Common.{
  ℕ, String, refl, ◌≡◌, ◌≤◌, ap, ◌∙◌, List, [], ◌∷◌, ◌++◌ as append, arith, All, All-append, length,
  length-append,
}
use security_system_gsb.World.{World}
use security_system_gsb.World.Frames.{Core, Ends, statement-Ends, ends_rules}
use security_system_gsb.Repository.Frames.{repository_rules}
use security_system_gsb.Repository.Audits
use security_system_gsb.Repository.Audits.{stored, padded}
use security_system_gsb.Model.Audit.{AuditLog, AuditLogEntry}
use security_system_gsb.Pkg.Libraries.{Libraries}
use security_system_gsb.Pkg.Crypto.{sha256_hex}
use security_system_gsb.Service.Audit.{
  build_audit_log, write_entry, consume, receive, log, enqueue, audit_channel_size,
}
use security_system_gsb.Service.Audit.Chain.{sealed_text}

-- The hash of a row is that of its text behind a previous hash, which is what the row names once
-- the column has padded it: after a failed query for the last hash it is the empty text.
abbrev pub Sealed : Libraries → AuditLog → Type 0
Sealed lib l =
    (previous : String) × (l.prev_hash ≡ padded 64 previous)
    × (l.hash ≡ padded 64 (sha256_hex lib (sealed_text previous l)))

module _ (lib : Libraries) (base : List AuditLog) where
  -- The log has grown from `base` by sealed rows, and the channel holds no more than it can.
  abbrev pub Grown : Core → Type 0
  Grown c =
      (rest : List AuditLog) × (c.audit_logs ≡ append base rest)
      × All (Sealed lib) rest
      × (length c.log_chan ≤ audit_channel_size)

  pub log-Grown : (e : AuditLogEntry) (w : World) → Ends Grown w → Ends Grown (log e w).1
  unfolding log enqueue
  log-Grown e w h = record {
    at =
        let (rest, grown, good, bound) = h.at in
        (rest, grown, good, ground (arith, length-append w.log_chan (e ∷ [])));
  }

  -- The row that is built for an entry is stored sealed, whatever the previous hash is taken to be.
  row-Grown :
      (now : ℕ) (e : AuditLogEntry) (previous : String) (w : World)
      → Ends Grown w
      → Ends Grown (Audits.create (build_audit_log lib now e previous) w).1
  unfolding Audits.create build_audit_log sealed_text
  row-Grown now e previous w h = statement-Ends _ w h (λ v g. record {
    at =
        let (rest, grown, fine, bound) = g.at in
        let row = stored (build_audit_log lib now e previous) v in
        (
          append rest (row ∷ []),
          ap (λ ls. append ls (row ∷ [])) grown ∙ append_assoc base rest (row ∷ []),
          All-append (Sealed lib) rest (row ∷ []) fine ((previous, refl, refl), tt),
          bound,
        );
  })

  write_entry-Grown :
      (e : AuditLogEntry) (w : World) → Ends Grown w → Ends Grown (write_entry lib e w).1
  unfolding write_entry
  write_entry-Grown e w h = search (ends_rules, repository_rules, row-Grown) depth 20

  receive-Grown :
      (entries : List AuditLogEntry) (w : World)
      → length entries ≤ audit_channel_size
      → Ends Grown w
      → Ends Grown (receive lib entries w).1
  receive-Grown [] w bound h = h
  receive-Grown (e ∷ rest) w bound h =
      let (rows, grown, good, _) = h.at in
      write_entry-Grown e (record w { log_chan = rest })
        (record { at = (rows, grown, good, omega arith) })

  pub consume-Grown : (w : World) → Ends Grown w → Ends Grown (consume lib w).1
  unfolding consume
  consume-Grown w h = let (rest, grown, good, bound) = h.at in receive-Grown w.log_chan w bound h
