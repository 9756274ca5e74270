-- ===== src/Service/Alerts/Escalation.antt =====
-- `escalate` over a list of targets: each alert is rewritten at most once, from its own row.
use security_system_gsb.Common.{
  ℕ, ◌≡◌, ◌≢◌, refl, subst, ◌⊎◌, inl, inr, true, List, [], ◌∷◌, some, arith, All, Distinct, Lacks,
  find, has_key, update_where, find-update_key, Bool-cases, nat_beq_iff, ◌==◌, nat_eq,
}
use security_system_gsb.Error.{ok}
use security_system_gsb.World.{World, statement}
use security_system_gsb.Model.Alert.{SecurityAlert}
use security_system_gsb.Repository.Alerts.{alert_id, assign_columns, scanned_target, is_target}
use security_system_gsb.Repository.Alerts
use security_system_gsb.Service.Audit
use security_system_gsb.Service.Alerts.{
  escalate, escalate_all, escalated, raise_severity, mark_escalated,
}

-- The row that an escalation leaves where the row `a` was: it is computed from the nine columns
-- that the query of the targets reads.
abbrev pub escalated_row : ℕ → SecurityAlert → SecurityAlert
escalated_row now a = assign_columns now (escalated now (scanned_target a)) a

pub escalate_cases :
    (t : SecurityAlert) (w : World)
    → ((escalate t w).1.now ≡ w.now)
      × ((escalate t w).1.serials ≡ w.serials)
      × (((escalate t w).1.alerts ≡ w.alerts)
          ⊎ ((escalate t w).1.alerts
              ≡ update_where
                  (has_key alert_id t.id)
                  (assign_columns w.now (escalated w.now t))
                  w.alerts))
unfolding escalate statement Alerts.update Audit.log raise_severity mark_escalated
escalate_cases t w = ground arith

escalate_ok : (t : SecurityAlert) (w : World) → (escalate t w).0 ≡ ok tt
unfolding escalate statement Alerts.update Audit.log raise_severity mark_escalated
escalate_ok t w = ground arith

pub escalate_all-cons :
    (t : SecurityAlert) (ts : List SecurityAlert) (w : World)
    → escalate_all (t ∷ ts) w ≡ escalate_all ts (escalate t w).1
unfolding escalate_all
escalate_all-cons t ts w = rw (escalate_ok t w)

module _ (j : ℕ) where
  abbrev pub Stored : SecurityAlert → World → Type 0
  Stored a w = find (has_key alert_id j) w.alerts ≡ some a

  module _ (t : SecurityAlert) (w : World) (a : SecurityAlert) (stored : Stored a w) where
    pub escalate_other : t.id ≢ j → Stored a (escalate t w).1
    unfolding assign_columns
    escalate_other n = ground (
      arith,
      escalate_cases t w,
      find-update_key alert_id (assign_columns w.now (escalated w.now t)) (λ r. refl) t.id j
          w.alerts,
    )

    escalate_own :
        t.id ≡ j
        → t ≡ scanned_target a
        → Stored a (escalate t w).1 ⊎ Stored (escalated_row w.now a) (escalate t w).1
    unfolding assign_columns
    escalate_own e s = ground (
      arith,
      escalate_cases t w,
      find-update_key alert_id (assign_columns w.now (escalated w.now t)) (λ r. refl) t.id j
          w.alerts,
    )

  pub escalate_all-Lacks :
      (ts : List SecurityAlert) (w : World) (a : SecurityAlert)
      → Lacks alert_id j ts
      → Stored a w
      → Stored a (escalate_all ts w).1
  unfolding escalate_all
  escalate_all-Lacks [] w a l s = s
  escalate_all-Lacks (t ∷ ts) w a (l, ls) s =
      rw (escalate_all-cons t ts w)
        (escalate_all-Lacks ts (escalate t w).1 a ls (escalate_other t w a s l))

  -- Every target with the key `j` was read from the row `a`.
  abbrev pub ReadFrom : SecurityAlert → List SecurityAlert → Type 0
  ReadFrom a = All (λ t. t.id ≡ j → (t ≡ scanned_target a) × (is_target a ≡ true))

  abbrev pub Outcome : SecurityAlert → ℕ → World → Type 0
  Outcome a now w' = Stored a w' ⊎ ((is_target a ≡ true) × Stored (escalated_row now a) w')

  pub escalate_all-Outcome :
      (ts : List SecurityAlert) (w : World) (a : SecurityAlert)
      → Distinct alert_id ts
      → ReadFrom a ts
      → Stored a w
      → Outcome a w.now (escalate_all ts w).1
  unfolding escalate_all
  escalate_all-Outcome [] w a d r s = inl s
  escalate_all-Outcome (t ∷ ts) w a (d, ds) (r, rs) s = elim (Bool-cases (t.id == j)) [
    | inl same ↦
        let e : t.id ≡ j = (nat_beq_iff t.id j).0 same in
        let (read, target) = r e in
        let lacks : Lacks alert_id j ts = subst (λ i. Lacks alert_id i ts) e d in
        elim (escalate_own t w a s e read) [
          | inl kept ↦ inl (rw (escalate_all-cons t ts w) (escalate_all-Lacks ts _ a lacks kept))
          | inr new ↦
              inr (target, rw (escalate_all-cons t ts w) (escalate_all-Lacks ts _ _ lacks new))
        ]
    | inr other ↦ rw (escalate_all-cons t ts w) (
        subst (λ now. Outcome a now (escalate_all ts (escalate t w).1).1) (escalate_cases t w).0
          (escalate_all-Outcome ts (escalate t w).1 a ds rs
            (escalate_other t w a s (ground arith))))
  ]
