-- ===== src/Service/Audit/Chain.antt =====
-- `Chain`: each row of `audit_logs` carries the hash of the row before it.
use security_system_gsb.Common.{
  ℕ, zero, suc, ◌+◌, String, ◌≡◌, ◌<◌, refl, true, List, [], ◌∷◌, ◌++◌ as append, ltb, string_eq,
  arith, sym, ap, subst, ◌∙◌, order_by, insert_ordered, Within, Within-snoc, length, length-append,
}
use security_system_gsb.Error.{◌++◌, format_int, ok}
use security_system_gsb.World.{World, statement, lift, ◌>>=◌}
use security_system_gsb.Model.Audit.{AuditLog, AuditLogEntry}
use security_system_gsb.Repository.Audits
use security_system_gsb.Repository.Audits.{newest_first, hash_or_initial, padded, stored}
use security_system_gsb.Pkg.Libraries.{Libraries}
use security_system_gsb.Pkg.Crypto.{sha256_hex}
use security_system_gsb.Service.Audit.{
  build_audit_log, write_entry, consume, shutdown, drain, receive,
}

abbrev pub log_id : AuditLog → ℕ
log_id l = l.id

newest_first-snoc :
    (n : ℕ) (ls : List AuditLog) (l : AuditLog)
    → Within log_id n ls
    → n < l.id
    → newest_first (append ls (l ∷ [])) ≡ l ∷ newest_first ls
unfolding order_by insert_ordered
newest_first-snoc n [] l h newer = refl
newest_first-snoc n (m ∷ ls) l (h, hs) newer =
    let e : ltb m.id l.id ≡ true = ground arith in rw (newest_first-snoc n ls l hs newer, e)

-- Texts with a bar between them.
pub barred : String → List String → String
barred first [] = first
barred first (next ∷ rest) = first ++ "|" ++ barred next rest

-- The text that the hash of a row covers: these eight columns behind the previous hash.
unfoldable pub sealed_text : String → AuditLog → String
unfolding barred
sealed_text previous l = barred previous (
    format_int l.user_id
    ∷ l.username
    ∷ l.action
    ∷ l.resource
    ∷ l.resource_id
    ∷ l.detail
    ∷ l.ip_address
    ∷ l.result
    ∷ [])

padded_idem : (n : ℕ) (s : String) → padded n (padded n s) ≡ padded n s
unfolding padded
padded_idem zero s = refl
padded_idem (suc n) String.[] = ap (String.◌∷◌ " ") (padded_idem n String.[])
padded_idem (suc n) (String.◌∷◌ c s) = ap (String.◌∷◌ c) (padded_idem n s)

module _ (lib : Libraries) where
  -- Rows from the newest to the oldest, each over the hash of the row before it and its own text.
  abbrev pub Linked : List AuditLog → Type 0
  Linked [] = Unit
  Linked (l ∷ ls) =
      (l.prev_hash ≡ hash_or_initial ls)
      × (l.hash ≡ padded 64 (sha256_hex lib (sealed_text l.prev_hash l)))
      × Linked ls

  abbrev pub Intact : World → Type 0
  Intact w = Within log_id w.serials.audit_logs w.audit_logs × Linked (newest_first w.audit_logs)

  -- The last hash fits its column.
  last_padded :
      (ls : List AuditLog) → Linked ls → padded 64 (hash_or_initial ls) ≡ hash_or_initial ls
  unfolding hash_or_initial padded
  last_padded [] h = refl
  last_padded (l ∷ ls) (_, e, _) = ap (padded 64) e ∙ padded_idem 64 _ ∙ sym e

  abbrev row : AuditLogEntry → World → AuditLog
  row e w = stored (build_audit_log lib w.now e (hash_or_initial (newest_first w.audit_logs))) w

  abbrev recorded : AuditLogEntry → World → World
  recorded e w = record w {
    audit_logs = append w.audit_logs (row e w ∷ []);
    serials = record (w.serials) { audit_logs = w.serials.audit_logs + 1 };
    faults = [];
  }

  write_entry-runs :
      (e : AuditLogEntry) (w : World) → w.faults ≡ [] → write_entry lib e w ≡ (ok tt, recorded e w)
  unfolding write_entry Audits.get_last_hash Audits.create statement
  write_entry-runs e w f = rw (f)

  recorded-Intact : (e : AuditLogEntry) (w : World) → Intact w → Intact (recorded e w)
  unfolding build_audit_log sealed_text
  recorded-Intact e w (ids, links) =
      let last = last_padded (newest_first w.audit_logs) links in
      (
        Within-snoc log_id w.serials.audit_logs (w.serials.audit_logs + 1) w.audit_logs (row e w)
            ids (omega arith) (omega arith),
        subst Linked
            (sym (newest_first-snoc w.serials.audit_logs w.audit_logs (row e w) ids (omega arith)))
            (
              last,
              ap (λ p. padded 64 (sha256_hex lib (sealed_text p (row e w)))) (sym last),
              links,
            ),
      )

  -- Where the database accepts every statement, a round of the consumer keeps the log a chain
  -- from its first row on.
  pub consume-Intact : (w : World) → w.faults ≡ [] → Intact w → Intact (consume lib w).1
  unfolding consume
  consume-Intact w f h = go w.log_chan
    where
      go : (entries : List AuditLogEntry) → Intact (receive lib entries w).1
      go [] = h
      go (e ∷ rest) =
          subst (λ x. Intact x.1) (sym (write_entry-runs e (record w { log_chan = rest }) f))
            (recorded-Intact e (record w { log_chan = rest }) h)

  consume-runs :
      (e : AuditLogEntry) (rest : List AuditLogEntry) (w : World)
      → w.faults ≡ []
      → w.log_chan ≡ e ∷ rest
      → consume lib w ≡ (ok tt, recorded e (record w { log_chan = rest }))
  unfolding consume
  consume-runs e rest w f waiting =
      ap (λ entries. receive lib entries w) waiting
      ∙ write_entry-runs e (record w { log_chan = rest }) f

  -- What the drained channel leaves.
  abbrev pub Drained : List AuditLogEntry → World → World → Type 0
  Drained entries w v =
      (v.log_chan ≡ []) × (length v.audit_logs ≡ length w.audit_logs + length entries) × Intact v

  drain-Intact :
      (entries : List AuditLogEntry) (w : World)
      → w.faults ≡ []
      → w.log_chan ≡ entries
      → Intact w
      → Drained entries w (drain lib entries w).1
  unfolding drain
  drain-Intact [] w f e h = (e, omega arith, h)
  drain-Intact (x ∷ rest) w f e h =
      let v : World = recorded x (record w { log_chan = rest }) in
      let (empty, longer, intact) =
        drain-Intact rest v refl refl (recorded-Intact x (record w { log_chan = rest }) h) in
      subst (λ y. Drained (x ∷ rest) w ((lift y.0 >>= λ _. drain lib rest) y.1).1)
        (sym (consume-runs x rest w f e))
        (empty, omega (arith, longer, length-append w.audit_logs (row x w ∷ [])), intact)

  -- Where the database answers every statement and the log is a chain, `Shutdown` empties the
  -- channel, adds as many rows as entries were waiting, and leaves a chain.
  pub shutdown-Drained :
      (w : World) → w.faults ≡ [] → Intact w → Drained w.log_chan w (shutdown lib w).1
  unfolding shutdown
  shutdown-Drained w f h = drain-Intact w.log_chan w f refl h
