-- ===== src/Service/Alerts/Identifiers.antt =====
-- The identifiers of alerts stay distinct, over every call of the service.
use security_system_gsb.Common.{
  ℕ, ◌≡◌, refl, ap, inl, inr, List, [], ◌∷◌, arith, Distinct-snoc, Within-snoc, update-Distinct,
  update-Within, has_key,
}
use security_system_gsb.Error.{Result-cases}
use security_system_gsb.World.{World, statement}
use security_system_gsb.World.Statements.{with_faults}
use security_system_gsb.Model.Alert.{
  SecurityAlert, CreateAlertRequest, UpdateAlertRequest, AddCommentRequest,
}
use security_system_gsb.Repository.Alerts
use security_system_gsb.Repository.Alerts.{alert_id, assign_columns, inserted, is_overdue, breach}
use security_system_gsb.Service.Alerts.{
  create, update, assign, add_comment, run_sla_check, escalate, escalate_all, escalate_targets,
}
use security_system_gsb.Service.Alerts.Updates.{
  Written, calls, update_ok, update_err, update_found, assign_ok, assign_err, assign_found,
}
use security_system_gsb.Service.Alerts.Escalation.{escalate_cases, escalate_all-cons}
use security_system_gsb.Service.Alerts.Sla.{targets, marked, check_cases, escalate_targets_cases}
use security_system_gsb.Service.Alerts.History.{
  WellFormed, Call, creates, updates, assigns, comments, checks_sla, waits, step,
}
use security_system_gsb.Service.Alerts.Rows.{create_cases}

module _ (w w' : World) (serials : w'.serials.alerts ≡ w.serials.alerts) (v : WellFormed w) where
  WellFormed-same : w'.alerts ≡ w.alerts → WellFormed w'
  WellFormed-same e = record { distinct = rw e v.distinct; issued = rw (e, serials) v.issued }

  WellFormed-Written : (id : ℕ) (x : SecurityAlert) → Written id w x w' → WellFormed w'
  unfolding assign_columns
  WellFormed-Written id x e = record {
    distinct = rw e (
        update-Distinct alert_id (has_key alert_id id) (assign_columns w.now x) (λ r. refl) w.alerts
          v.distinct);
    issued =
        rw (e, serials)
          (update-Within alert_id (has_key alert_id id) (assign_columns w.now x) (λ r. refl)
            w.serials.alerts w.alerts v.issued);
  }

update_serials :
    (id : ℕ) (req : UpdateAlertRequest) (op : ℕ) (w : World)
    → (update id req op w).1.serials.alerts ≡ w.serials.alerts
unfolding calls
update_serials id req op w = ground arith

assign_serials :
    (id assignee op : ℕ) (w : World) → (assign id assignee op w).1.serials.alerts ≡ w.serials.alerts
unfolding calls
assign_serials id assignee op w = ground arith

create-WellFormed :
    (req : CreateAlertRequest) (creator : ℕ) (w : World)
    → WellFormed w
    → WellFormed (create req creator w).1
create-WellFormed req creator w v = elim (create_cases req creator w) [
  | inl (same, serial) ↦ WellFormed-same w _ serial v same
  | inr (rows, serial) ↦ record {
    distinct =
        rw rows
          (Distinct-snoc alert_id w.serials.alerts w.alerts _ v.issued (omega arith) v.distinct);
    issued =
        rw (rows, serial)
          (Within-snoc alert_id w.serials.alerts _ w.alerts _ v.issued (omega arith) (omega arith));
  }
]

update-WellFormed :
    (id : ℕ) (req : UpdateAlertRequest) (op : ℕ) (w : World)
    → WellFormed w
    → WellFormed (update id req op w).1
update-WellFormed id req op w v = elim (Result-cases (update id req op w).0) [
  | inl (tt, done) ↦
      let (row, found) = update_found id req op w done in
      WellFormed-Written w (update id req op w).1 serial v id _
        (update_ok id req op w row found done).2
  | inr (x, failed) ↦
      WellFormed-same w (update id req op w).1 serial v (update_err id req op w failed)
]
  where
    serial : (update id req op w).1.serials.alerts ≡ w.serials.alerts
    serial = update_serials id req op w

assign-WellFormed :
    (id assignee op : ℕ) (w : World) → WellFormed w → WellFormed (assign id assignee op w).1
assign-WellFormed id assignee op w v = elim (Result-cases (assign id assignee op w).0) [
  | inl (tt, done) ↦
      let (row, found) = assign_found id assignee op w done in
      WellFormed-Written w (assign id assignee op w).1 serial v id _
        (assign_ok id assignee op w row found done).1
  | inr (x, failed) ↦
      WellFormed-same w (assign id assignee op w).1 serial v (assign_err id assignee op w failed)
]
  where
    serial : (assign id assignee op w).1.serials.alerts ≡ w.serials.alerts
    serial = assign_serials id assignee op w

comment-WellFormed :
    (id author : ℕ) (req : AddCommentRequest) (w : World)
    → WellFormed w
    → WellFormed (add_comment id author req w).1
unfolding add_comment statement Alerts.find_by_id Alerts.add_comment
comment-WellFormed id author req w v =
    WellFormed-same w (add_comment id author req w).1 (ground arith) v (ground arith)

escalate-WellFormed : (t : SecurityAlert) (w : World) → WellFormed w → WellFormed (escalate t w).1
escalate-WellFormed t w v = elim (escalate_cases t w).2 [
  | inl same ↦ WellFormed-same w (escalate t w).1 serial v same
  | inr rows ↦ WellFormed-Written w (escalate t w).1 serial v t.id _ rows
]
  where
    serial : (escalate t w).1.serials.alerts ≡ w.serials.alerts
    serial = ap (λ s. s.alerts) (escalate_cases t w).1

escalate_all-WellFormed :
    (ts : List SecurityAlert) (w : World) → WellFormed w → WellFormed (escalate_all ts w).1
unfolding escalate_all
escalate_all-WellFormed [] w v = v
escalate_all-WellFormed (t ∷ ts) w v =
    rw (escalate_all-cons t ts w)
      (escalate_all-WellFormed ts (escalate t w).1 (escalate-WellFormed t w v))

marked-WellFormed :
    (w v : World) → v.alerts ≡ marked w → v.serials ≡ w.serials → WellFormed w → WellFormed v
marked-WellFormed w v e serials h = record {
  distinct =
      rw e (
        update-Distinct alert_id (is_overdue w.now) (breach w.now) (λ r. refl) w.alerts h.distinct);
  issued =
      rw (e, serials)
        (update-Within alert_id (is_overdue w.now) (breach w.now) (λ r. refl) w.serials.alerts
          w.alerts h.issued);
}

check-WellFormed : (w : World) → WellFormed w → WellFormed (run_sla_check w).1
check-WellFormed w h = elim (check_cases w) [
  | inl (same, serials) ↦ WellFormed-same w (run_sla_check w).1 (ap (λ s. s.alerts) serials) h same
  | inr (inl (marks, serials)) ↦ marked-WellFormed w (run_sla_check w).1 marks serials h
  | inr (inr (v, _, serials, rows, last)) ↦
      let hv = marked-WellFormed w v rows serials h in
      rw last (elim (escalate_targets_cases v) [
        | inl (same, serials') ↦
            WellFormed-same v (escalate_targets v).1 (ap (λ s. s.alerts) serials') hv same
        | inr (fs, e) ↦ rw e (
            escalate_all-WellFormed (targets v) (with_faults v fs)
              (record { distinct = hv.distinct; issued = hv.issued }))
      ])
]

-- Every call keeps the identifiers of the stored alerts distinct and within the sequence.
pub step-WellFormed : (w : World) (c : Call) → WellFormed w → WellFormed (step w c)
unfolding step
step-WellFormed w (creates req creator) v = create-WellFormed req creator w v
step-WellFormed w (updates id req op) v = update-WellFormed id req op w v
step-WellFormed w (assigns id assignee op) v = assign-WellFormed id assignee op w v
step-WellFormed w (comments id author req) v = comment-WellFormed id author req w v
step-WellFormed w checks_sla v = check-WellFormed w v
step-WellFormed w (waits now faults) v = record { distinct = v.distinct; issued = v.issued }
