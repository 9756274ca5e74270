-- ===== src/Service/Alerts/Overdue.antt =====
-- What `RunSLACheck` does to an alert that is overdue, where no statement fails.
use security_system_gsb.Common.{
  ℕ, suc, ◌≡◌, refl, subst, ◌∙◌, inl, inr, Bool, true, false, not, ◌&&◌, List, [], ◌∷◌, Option,
  none, some, arith, Distinct, Lacks, ltb, leb, if◌then◌else◌, find, has_key, update_where,
  any_where, count_where, select-any, order_by-any, map-any, update-Distinct, find-update_key,
  Bool-cases, nat_beq_iff, ◌==◌, nat_eq,
}
use security_system_gsb.Error.{ok}
use security_system_gsb.World.{World, statement}
use security_system_gsb.World.Statements.{with_faults, statement_runs}
use security_system_gsb.Model.Alert.{SecurityAlert, severity_critical, status_escalated}
use security_system_gsb.Repository.Alerts.{
  alert_id, assign_columns, scanned_target, is_target, is_open, assignee_exists, is_overdue, breach,
}
use security_system_gsb.Repository.Alerts
use security_system_gsb.Service.Audit
use security_system_gsb.Service.Alerts.{
  escalate, escalate_all, escalated, raise_severity, mark_escalated, run_sla_check,
  escalate_targets, has_assignee,
}
use security_system_gsb.Service.Alerts.History.{WellFormed}
use security_system_gsb.Service.Alerts.Sla.{
  targets, marked, marked-Stored, targets-ReadFrom, targets-Distinct,
}
use security_system_gsb.Service.Alerts.Escalation.{
  Stored, ReadFrom, escalated_row, escalate_cases, escalate_all-cons, escalate_all-Lacks,
  escalate_other,
}

escalate_frame :
    (t : SecurityAlert) (w : World)
    → w.faults ≡ []
    → ((escalate t w).1.faults ≡ []) × ((escalate t w).1.users ≡ w.users)
unfolding escalate statement Alerts.update Audit.log raise_severity mark_escalated
escalate_frame t w e = ground arith

escalate_writes :
    (t : SecurityAlert) (w : World)
    → w.faults ≡ []
    → assignee_exists t.assignee_id w ≡ true
    → (escalate t w).1.alerts
      ≡ update_where (has_key alert_id t.id) (assign_columns w.now (escalated w.now t)) w.alerts
unfolding escalate statement Alerts.update Audit.log raise_severity mark_escalated
escalate_writes t w e h = ground arith

target_assignee :
    (a : SecurityAlert) (w : World)
    → assignee_exists a.assignee_id w ≡ true
    → assignee_exists (scanned_target a).assignee_id w ≡ true
unfolding scanned_target
target_assignee a w h = h

same_users :
    (id : Option ℕ) (w w' : World)
    → w'.users ≡ w.users
    → assignee_exists id w ≡ true
    → assignee_exists id w' ≡ true
same_users none w w' e h = refl
same_users (some id) w w' e h = rw e h

module _ (j : ℕ) where
  own_row :
      (t : SecurityAlert) (w : World) (a : SecurityAlert)
      → t.id ≡ j
      → t ≡ scanned_target a
      → Stored j a w
      → w.faults ≡ []
      → assignee_exists a.assignee_id w ≡ true
      → Stored j (escalated_row w.now a) (escalate t w).1
  unfolding assign_columns
  own_row t w a e r s f h = ground (
    arith,
    escalate_writes t w f (rw r (target_assignee a w h)),
    find-update_key alert_id (assign_columns w.now (escalated w.now t)) (λ x. refl) t.id j w.alerts,
  )

  -- With its target among them, the escalations rewrite the row.
  escalate_all_hits :
      (ts : List SecurityAlert) (w : World) (a : SecurityAlert)
      → Distinct alert_id ts
      → ReadFrom j a ts
      → Stored j a w
      → w.faults ≡ []
      → assignee_exists a.assignee_id w ≡ true
      → any_where (has_key alert_id j) ts ≡ true
      → Stored j (escalated_row w.now a) (escalate_all ts w).1
  unfolding any_where
  escalate_all_hits [] w a d r s f h there = absurd (cc)
  escalate_all_hits (t ∷ ts) w a (d, ds) (r, rs) s f h there = elim (Bool-cases (t.id == j)) [
    | inl same ↦
        let e : t.id ≡ j = (nat_beq_iff t.id j).0 same in
        let lacks : Lacks alert_id j ts = subst (λ i. Lacks alert_id i ts) e d in
        rw (escalate_all-cons t ts w)
          (escalate_all-Lacks j ts _ _ lacks (own_row t w a e (r e).0 s f h))
    | inr other ↦
        let (f', users) = escalate_frame t w f in
        rw (escalate_all-cons t ts w) (
          subst (λ now. Stored j (escalated_row now a) (escalate_all ts (escalate t w).1).1)
            (escalate_cases t w).0
            (escalate_all_hits ts (escalate t w).1 a ds rs (escalate_other j t w a s (ground arith))
              f' (same_users a.assignee_id w _ users h) (rw other at there)))
  ]

count_where-ne-zero :
    (p : SecurityAlert → Bool) (j : ℕ) (xs : List SecurityAlert) (a : SecurityAlert)
    → find (has_key alert_id j) xs ≡ some a
    → p a ≡ true
    → (count_where p xs == 0) ≡ false
unfolding find count_where
count_where-ne-zero p j [] a e h = absurd (cc)
count_where-ne-zero p j (x ∷ xs) a e h = ground (arith, count_where-ne-zero p j xs a)

-- The tables after the marking.
abbrev after_marking : World → World
after_marking w = record w { alerts = marked w; faults = [] }

marking :
    (w : World)
    → w.faults ≡ []
    → Alerts.check_and_mark_sla_breaches w
      ≡ (ok (count_where (is_overdue w.now) w.alerts), after_marking w)
unfolding Alerts.check_and_mark_sla_breaches
marking w f = statement_runs _ w f

reading :
    (v : World)
    → v.faults ≡ []
    → Alerts.find_sla_breached_unnotified v ≡ (ok (targets v), with_faults v [])
unfolding Alerts.find_sla_breached_unnotified
reading v f = statement_runs _ v f

check_without_faults :
    (w : World)
    → w.faults ≡ []
    → (count_where (is_overdue w.now) w.alerts == 0) ≡ false
    → (run_sla_check w).1 ≡ (escalate_all (targets (after_marking w)) (after_marking w)).1
unfolding run_sla_check escalate_targets
check_without_faults w f n = rw (marking w f, n, reading (after_marking w) refl)

escalated-is_open :
    (now : ℕ) (m : SecurityAlert) → is_open m ≡ true → is_open (escalated_row now m) ≡ true
unfolding assign_columns escalated raise_severity mark_escalated scanned_target
escalated-is_open now m o = ground arith

row_breached : (now : ℕ) (m : SecurityAlert) → (escalated_row now m).sla_breached ≡ false
unfolding assign_columns escalated raise_severity mark_escalated scanned_target
row_breached now m = ground arith

row_deadline : (now : ℕ) (m : SecurityAlert) → (escalated_row now m).sla_deadline ≡ m.sla_deadline
unfolding assign_columns
row_deadline now m = refl

module _ (j : ℕ) (a : SecurityAlert) (w : World) (v : WellFormed w) (s : Stored j a w)
    (f : w.faults ≡ []) (due : is_overdue w.now a ≡ true)
    (h : assignee_exists a.assignee_id w ≡ true) where
  marked_here : Stored j (breach w.now a) (after_marking w)
  marked_here = rw due at (marked-Stored j a w s)

  target_there : any_where (has_key alert_id j) (targets (after_marking w)) ≡ true
  unfolding scanned_target
  target_there =
      map-any alert_id scanned_target (λ r. refl) j _
      ∙ order_by-any (has_key alert_id j) _ _
      ∙ select-any (has_key alert_id j) is_target _ (breach w.now a) marked_here (ground arith)

  overdue_row : Stored j (escalated_row w.now (breach w.now a)) (run_sla_check w).1
  overdue_row =
      let distinct =
        update-Distinct alert_id (is_overdue w.now) (breach w.now) (λ r. refl) _ v.distinct in
      rw (check_without_faults w f (count_where-ne-zero (is_overdue w.now) j w.alerts a s due)) (
        escalate_all_hits j _ (after_marking w) (breach w.now a)
          (targets-Distinct j (breach w.now a) (after_marking w) distinct marked_here)
          (targets-ReadFrom j (breach w.now a) (after_marking w) distinct marked_here) marked_here
          refl (same_users a.assignee_id w (after_marking w) refl h) target_there)

  still_overdue : is_overdue w.now (escalated_row w.now (breach w.now a)) ≡ true
  still_overdue =
      rw
        (
          escalated-is_open w.now (breach w.now a) (ground arith),
          row_breached w.now (breach w.now a),
          row_deadline w.now (breach w.now a),
        )
        (ground arith)

  -- In a well-formed database where no statement fails, and for an alert whose assignee, if any,
  -- exists, the check escalates the alert where it is overdue: its
  -- severity rises by one below "critical" and stays there, its count of escalations rises by
  -- one, and it becomes "escalated" where nobody is assigned and the count has reached 3. The
  -- database keeps the old deadline and loses the description, the time of resolution and that
  -- of closing, and the alert is overdue again at once.
  pub run_sla_check-overdue :
      (b : SecurityAlert) × Stored j b (run_sla_check w).1
      × (b.severity ≡ (if ltb a.severity severity_critical then suc (a.severity) else a.severity))
      × (b.escalation_count ≡ suc (a.escalation_count))
      × (b.status ≡ (
          if leb 2 a.escalation_count && not (has_assignee a) then status_escalated else a.status))
      × (b.sla_deadline ≡ a.sla_deadline)
      × (b.description ≡ "")
      × (b.resolved_at ≡ none)
      × (b.closed_at ≡ none)
      × (is_overdue w.now b ≡ true)
  unfolding assign_columns escalated raise_severity mark_escalated scanned_target
  run_sla_check-overdue = (
    escalated_row w.now (breach w.now a),
    overdue_row,
    ground arith,
    ground arith,
    ground arith,
    ground arith,
    ground arith,
    ground arith,
    ground arith,
    still_overdue,
  )
