-- ===== src/Service/Alerts/Rows.antt =====
-- What one call of the alert service can do to an alert that is stored, and what no call does.
use security_system_gsb.Common.{
  ℕ, ◌+◌, ◌≡◌, ◌≢◌, refl, subst, ◌⊎◌, inl, inr, true, [], ◌∷◌, ◌++◌, arith, Distinct, find-snoc,
  find, has_key, find-update_key, if◌then◌else◌, ◌==◌, nat_eq, Bool-cases, ℕ_discrete,
}
use mathlib.Core.Option
use security_system_gsb.Error.{Result-cases}
use security_system_gsb.World.{World, statement}
use security_system_gsb.Model.Alert.{
  SecurityAlert, CreateAlertRequest, AddCommentRequest, UpdateAlertRequest, status_assigned,
  status_resolved, status_closed, status_escalated,
}
use security_system_gsb.Repository.Alerts
use security_system_gsb.Repository.Alerts.{
  alert_id, assign_columns, scanned, inserted, scanned_target, is_target, is_overdue, breach,
}
use security_system_gsb.Service.Alerts.{
  create, update, assign, add_comment, run_sla_check, new_alert, escalated, raise_severity,
  mark_escalated,
}
use security_system_gsb.Service.Alerts.Updates.{
  updated, Written, update_ok, update_err, update_found, assign_ok, assign_err, assign_found,
}
use security_system_gsb.Service.Alerts.Status.{Flow, stay, updated-Flow}
use security_system_gsb.Service.Alerts.Escalation.{Stored, escalated_row}
use security_system_gsb.Service.Alerts.Sla.{marked_row, run_sla_check-row}
use security_system_gsb.Service.Alerts.History.{
  WellFormed, Call, creates, updates, assigns, comments, checks_sla, waits, step,
}

-- How a call may change a status: as `Update` may, by `Assign` out of any open or resolved state,
-- and by the escalation of an alert that is neither resolved nor closed.
pub data Moves (old new : ℕ) : Type 0 where
  flows : Flow old new → Moves old new
  assigned : old ≢ status_closed → new ≡ status_assigned → Moves old new
  escalates : old ≢ status_resolved → old ≢ status_closed → new ≡ status_escalated → Moves old new

pub record RowStep (a b : SecurityAlert) : Type 0 where
  pub moves : Moves a.status b.status
  pub closed_stays : a.status ≡ status_closed → b ≡ a
  pub same_id : b.id ≡ a.id
  pub same_source : b.source ≡ a.source
  pub same_creator : b.creator_id ≡ a.creator_id
  pub same_deadline : b.sla_deadline ≡ a.sla_deadline
  pub same_tags : b.tags ≡ a.tags
  pub same_created : b.created_at ≡ a.created_at

RowStep-refl : (a : SecurityAlert) → RowStep a a
RowStep-refl a = record {
  moves = flows (stay refl);
  closed_stays = λ _. refl;
  same_id = refl;
  same_source = refl;
  same_creator = refl;
  same_deadline = refl;
  same_tags = refl;
  same_created = refl;
}

-- A row rewritten by the columns of a struct.
RowStep-assign :
    (now : ℕ) (s a : SecurityAlert)
    → a.status ≢ status_closed
    → Moves a.status s.status
    → RowStep a (assign_columns now s a)
unfolding assign_columns
RowStep-assign now s a n m = record {
  moves = m;
  closed_stays = λ e. absurd (n e);
  same_id = refl;
  same_source = refl;
  same_creator = refl;
  same_deadline = refl;
  same_tags = refl;
  same_created = refl;
}

escalated_status :
    (now : ℕ) (m : SecurityAlert)
    → let new = (escalated now (scanned_target m)).status in
      (new ≡ m.status) ⊎ (new ≡ status_escalated)
unfolding escalated raise_severity mark_escalated scanned_target
escalated_status now m = ground arith

escalated-RowStep :
    (now : ℕ) (m : SecurityAlert) → is_target m ≡ true → RowStep m (escalated_row now m)
escalated-RowStep now m t =
    RowStep-assign now (escalated now (scanned_target m)) m (ground arith)
      (elim (escalated_status now m) [
        | inl same ↦ flows (stay same)
        | inr new ↦ escalates (ground arith) (ground arith) new
      ])

-- Marking a row changes nothing that a step speaks of, and only an open row is marked.
RowStep-marked : (now : ℕ) (a b : SecurityAlert) → RowStep (marked_row now a) b → RowStep a b
RowStep-marked now a b h = elim (Bool-cases (is_overdue now a)) [
  | inl due ↦
      let h' : RowStep (breach now a) b = rw due at h in
      record {
        moves = h'.moves;
        closed_stays = λ e. absurd (ground arith);
        same_id = h'.same_id;
        same_source = h'.same_source;
        same_creator = h'.same_creator;
        same_deadline = h'.same_deadline;
        same_tags = h'.same_tags;
        same_created = h'.same_created;
      }
  | inr fine ↦ rw fine at h
]

-- A new row comes with the next identifier of the sequence.
pub create_cases :
    (req : CreateAlertRequest) (creator : ℕ) (w : World)
    → let w' = (create req creator w).1 in
      ((w'.alerts ≡ w.alerts) × (w'.serials.alerts ≡ w.serials.alerts))
      ⊎ ((w'.alerts ≡ w.alerts ++ inserted (new_alert w.now req creator) w ∷ [])
          × (w'.serials.alerts ≡ w.serials.alerts + 1))
unfolding create statement Alerts.create
create_cases req creator w = ground arith

-- The row `j` after a call that turns `w` into `w'`.
abbrev pub RowAfter : ℕ → SecurityAlert → World → Type 0
RowAfter j a w' = (b : SecurityAlert) × Stored j b w' × RowStep a b

module _ (j : ℕ) (a : SecurityAlert) (w : World) (s : Stored j a w) where
  same-RowAfter : (w' : World) → w'.alerts ≡ w.alerts → RowAfter j a w'
  same-RowAfter w' e = (a, rw e s, RowStep-refl a)

  -- An UPDATE of another row, or of this one by a struct that its row allows.
  Written-RowAfter :
      (id : ℕ) (x : SecurityAlert) (w' : World)
      → Written id w x w'
      → (id ≡ j → (a.status ≢ status_closed) × Moves a.status x.status)
      → RowAfter j a w'
  unfolding assign_columns
  Written-RowAfter id x w' e own = elim (ℕ_discrete id j) [
    | yes same ↦ (
      assign_columns w.now x a,
      ground (arith, hit),
      RowStep-assign w.now x a (own same).0 (own same).1,
    )
    | no other ↦ (a, ground (arith, hit), RowStep-refl a)
  ]
    where
      hit : find (has_key alert_id j) w'.alerts ≡ (
          if id == j
          then Option.map (assign_columns w.now x) (find (has_key alert_id j) w.alerts)
          else find (has_key alert_id j) w.alerts)
      hit = rw e (find-update_key alert_id (assign_columns w.now x) (λ r. refl) id j w.alerts)

  update-RowAfter :
      (id : ℕ) (req : UpdateAlertRequest) (op : ℕ) → RowAfter j a (update id req op w).1
  update-RowAfter id req op = elim (Result-cases (update id req op w).0) [
    | inl (tt, done) ↦
        let (row, found) = update_found id req op w done in
        let (not_closed, allowed, rows) = update_ok id req op w row found done in
        Written-RowAfter id _ (update id req op w).1 rows (λ e.
          let same : row ≡ a = ground arith in
          subst
            (λ r.
              (r.status ≢ status_closed) × Moves r.status (updated w.now (scanned row) req).status)
            same (not_closed, flows (updated-Flow w.now (scanned row) req allowed)))
    | inr (x, failed) ↦ same-RowAfter (update id req op w).1 (update_err id req op w failed)
  ]

  assign-RowAfter : (id assignee op : ℕ) → RowAfter j a (assign id assignee op w).1
  assign-RowAfter id assignee op = elim (Result-cases (assign id assignee op w).0) [
    | inl (tt, done) ↦
        let (row, found) = assign_found id assignee op w done in
        let (not_closed, rows) = assign_ok id assignee op w row found done in
        Written-RowAfter id _ (assign id assignee op w).1 rows (λ e.
          let same : row ≡ a = ground arith in
          let open_row : a.status ≢ status_closed =
            subst (λ r. r.status ≢ status_closed) same not_closed in
          (open_row, assigned open_row refl))
    | inr (x, failed) ↦
        same-RowAfter (assign id assignee op w).1 (assign_err id assignee op w failed)
  ]

  comment-RowAfter :
      (id author : ℕ) (req : AddCommentRequest) → RowAfter j a (add_comment id author req w).1
  unfolding add_comment statement Alerts.find_by_id Alerts.add_comment
  comment-RowAfter id author req = same-RowAfter (add_comment id author req w).1 (ground arith)

  create-RowAfter : (req : CreateAlertRequest) (creator : ℕ) → RowAfter j a (create req creator w).1
  create-RowAfter req creator = elim (create_cases req creator w) [
    | inl (same, _) ↦ same-RowAfter (create req creator w).1 same
    | inr (rows, _) ↦ (a, rw rows (find-snoc alert_id j w.alerts _ a s), RowStep-refl a)
  ]

  check-RowAfter : Distinct alert_id w.alerts → RowAfter j a (run_sla_check w).1
  check-RowAfter d = elim (run_sla_check-row j a w d s) [
    | inl same ↦ (a, same, RowStep-refl a)
    | inr (inl marks) ↦
        (marked_row w.now a, marks, RowStep-marked w.now a _ (RowStep-refl (marked_row w.now a)))
    | inr (inr (target, new)) ↦ (
      escalated_row w.now (marked_row w.now a),
      new,
      RowStep-marked w.now a _ (escalated-RowStep w.now (marked_row w.now a) target),
    )
  ]

-- From a well-formed database, one call of the service leaves every stored alert stored, with its
-- identifier, source, creator, deadline, tags and time of creation. A closed alert is not changed
-- at all. The status stays, or moves as the life cycle, an assignment or an escalation allows. Any
-- statement may fail.
pub step-RowStep :
    (j : ℕ) (a : SecurityAlert) (w : World) (c : Call)
    → WellFormed w
    → Stored j a w
    → RowAfter j a (step w c)
unfolding step
step-RowStep j a w (creates req creator) v s = create-RowAfter j a w s req creator
step-RowStep j a w (updates id req op) v s = update-RowAfter j a w s id req op
step-RowStep j a w (assigns id assignee op) v s = assign-RowAfter j a w s id assignee op
step-RowStep j a w (comments id author req) v s = comment-RowAfter j a w s id author req
step-RowStep j a w checks_sla v s = check-RowAfter j a w s v.distinct
step-RowStep j a w (waits now faults) v s = (a, s, RowStep-refl a)
