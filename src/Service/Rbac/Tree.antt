-- ===== src/Service/Rbac/Tree.antt =====
-- `Tree`: a role's parent is older than the role, so the roles form a tree.
use security_system_gsb.Common.{
  ℕ, ◌+◌, ◌≡◌, ◌≤◌, ◌<◌, true, Option, none, some, List, [], ◌∷◌, ◌++◌, arith, All, All-append,
  Distinct, Distinct-snoc, Within, Within-snoc, any_where, has_key, nat_eq, nat_beq_iff, string_eq,
  ◌==◌, Bool-cases, inl, inr,
}
use security_system_gsb.World.{World}
use security_system_gsb.World.Frames.{Core, core, Ends, statement-Ends, ends_rules}
use security_system_gsb.Repository.Frames.{repository_rules}
use security_system_gsb.Repository.Roles
use security_system_gsb.Repository.Roles.{role_id, inserted, parent_exists}
use security_system_gsb.Repository.Audits
use security_system_gsb.Model.Role.{Role, CreateRoleRequest}
use security_system_gsb.Model.Audit.{AuditLog, AuditLogEntry}
use security_system_gsb.Pkg.Libraries.{Libraries}
use security_system_gsb.Service.Audit

abbrev pub Older : ℕ → Option ℕ → Type 0
Older id none = Unit {0}
Older id (some parent) = parent < id

-- The parent, if there is one, has a smaller identifier.
abbrev pub HasOlderParent : Role → Type 0
HasOlderParent r = Older r.id r.parent_id

-- The identifiers are those that the sequence gave out, each once, and parents are older.
pub record Tree (c : Core) : Type 0 where
  pub distinct : Distinct role_id c.roles
  pub within : Within role_id c.last_role c.roles
  pub older : All HasOlderParent c.roles

any-Within :
    (n i : ℕ) (roles : List Role)
    → any_where (has_key role_id i) roles ≡ true
    → Within role_id n roles
    → i ≤ n
unfolding any_where
any-Within n i [] there h = absurd (cc)
any-Within n i (r ∷ rs) there (h, hs) = elim (Bool-cases (r.id == i)) [
  | inl here ↦ let same : r.id ≡ i = (nat_beq_iff r.id i).0 here in omega (arith, same)
  | inr later ↦ any-Within n i rs (rw later at there) hs
]

-- A parent that is stored is older than the next role.
next_Older :
    (parent : Option ℕ) (n : ℕ) (roles : List Role)
    → parent_exists parent roles ≡ true
    → Within role_id n roles
    → Older (n + 1) parent
next_Older none n roles there h = tt
next_Older (some p) n roles there h = omega (arith, any-Within n p roles there h)

row-Tree :
    (req : CreateRoleRequest) (w : World)
    → parent_exists req.parent_id w.roles ≡ true
    → Tree (core w)
    → Tree (record (core w) {
      roles = w.roles ++ inserted req w ∷ [];
      last_role = w.serials.roles + 1;
    })
row-Tree req w there t = record {
  distinct =
      Distinct-snoc role_id w.serials.roles w.roles (inserted req w) t.within (omega arith)
        t.distinct;
  within =
      Within-snoc role_id w.serials.roles (w.serials.roles + 1) w.roles (inserted req w) t.within
        (omega arith) (omega arith);
  older =
      All-append HasOlderParent w.roles (inserted req w ∷ []) t.older
        (next_Older req.parent_id w.serials.roles w.roles there t.within, tt);
}

-- The foreign key keeps the roles a tree.
pub create-Tree :
    (req : CreateRoleRequest) (w : World) → Ends Tree w → Ends Tree (Roles.create req w).1
unfolding Roles.create
create-Tree req w h = statement-Ends _ w h (λ v g.
    elim (Bool-cases (parent_exists req.parent_id v.roles)) [
      | inl there ↦
          let here = g.at in let more = row-Tree req v there g.at in record { at = ground arith }
      | inr missing ↦ let here = g.at in record { at = ground arith }
    ])

pub log-Tree : (e : AuditLogEntry) (w : World) → Ends Tree w → Ends Tree (Audit.log e w).1
unfolding Audit.log
log-Tree e w h = record {
  at = let t = h.at in record { distinct = t.distinct; within = t.within; older = t.older };
}

row_written-Tree : (l : AuditLog) (w : World) → Ends Tree w → Ends Tree (Audits.create l w).1
unfolding Audits.create
row_written-Tree l w h = statement-Ends _ w h (λ v g. record {
  at = let t = g.at in record { distinct = t.distinct; within = t.within; older = t.older };
})

write_entry-Tree :
    (lib : Libraries) (e : AuditLogEntry) (w : World)
    → Ends Tree w
    → Ends Tree (Audit.write_entry lib e w).1
unfolding Audit.write_entry
write_entry-Tree lib e w h = search (ends_rules, repository_rules, row_written-Tree) depth 20

pub consume-Tree : (lib : Libraries) (w : World) → Ends Tree w → Ends Tree (Audit.consume lib w).1
unfolding Audit.consume
consume-Tree lib w h = go w.log_chan
  where
    go : (entries : List AuditLogEntry) → Ends Tree (Audit.receive lib entries w).1
    go [] = h
    go (e ∷ rest) =
        write_entry-Tree lib e (record w { log_chan = rest })
          (record {
            at =
                let t = h.at in
                record { distinct = t.distinct; within = t.within; older = t.older };
          })
