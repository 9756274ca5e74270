-- ===== src/Tests/Trail.antt =====
-- The audit log on the world of `Data`.
use security_system_gsb.Common.{◌≡◌, refl, [], ◌∷◌, map, order_by, insert_ordered, arith}
use security_system_gsb.Error.{ok, ◌++◌, format_int}
use security_system_gsb.World.{World}
use security_system_gsb.Model.Audit.{AuditLog}
use security_system_gsb.Repository.Audits.{entry, initial_hash, hash_or_initial, padded}
use security_system_gsb.Pkg.Crypto.{sha256_hex}
use security_system_gsb.Service.Audit.{consume, shutdown, verify_chain}
use security_system_gsb.Service.Audit.Chain.{
  Intact, Drained, sealed_text, consume-Intact, shutdown-Drained,
}
use security_system_gsb.Service.Audit.Verification.{verify_chain-Intact, verify_chain_blind}
use security_system_gsb.Tests.Data.{world, libs}
use security_system_gsb.Tests.Data

abbrev waiting : World
waiting = record world { log_chan = Data.entry ∷ Data.entry ∷ [] }

waiting-Intact : Intact libs waiting
unfolding order_by
waiting-Intact = (tt, tt)

consume-Intact_example : Intact libs (consume libs waiting).1
consume-Intact_example = consume-Intact libs waiting refl waiting-Intact

shutdown-Drained_example :
    Drained libs (Data.entry ∷ Data.entry ∷ []) waiting (shutdown libs waiting).1
shutdown-Drained_example = shutdown-Drained libs waiting refl waiting-Intact

abbrev row : AuditLog
row = record {
  id = 1;
  user_id = 1;
  username = "ann";
  action = "login";
  resource = "auth";
  resource_id = "";
  detail = "";
  ip_address = "10.0.0.1";
  user_agent = "";
  result = "success";
  prev_hash = initial_hash;
  hash = "h" ++ initial_hash ++ "|1|ann|login|auth|||10.0.0.1|success";
  created_at = 0;
}

abbrev kept : World
kept = record world { audit_logs = row ∷ []; serials = record (world.serials) { audit_logs = 1 } }

kept-Intact : Intact libs kept
unfolding order_by insert_ordered hash_or_initial sha256_hex format_int padded sealed_text
kept-Intact = ((omega arith, tt), (refl, refl, tt))

verify_chain-Intact_example : (verify_chain 100 kept).0 ≡ ok 0
verify_chain-Intact_example = verify_chain-Intact libs 100 kept refl kept-Intact

abbrev forge : AuditLog → AuditLog
forge l = record l { username = "bob"; detail = "nothing" }

unseen : (l : AuditLog) → entry (forge l) ≡ entry l
unseen l = refl

verify_chain_blind_example :
    (verify_chain 100 (record kept { audit_logs = map forge kept.audit_logs })).0
    ≡ (verify_chain 100 kept).0
verify_chain_blind_example = verify_chain_blind forge unseen 100 kept refl
