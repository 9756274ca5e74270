-- ===== src/Service/Alerts/Sla.antt =====
-- `RunSLACheck` as a whole, seen at one alert.
use security_system_gsb.Common.{
  String, ℕ, ◌≡◌, refl, ap, subst, ◌⊎◌, inl, inr, true, List, map, Option, some, All-imp, All-both,
  map-All, map-Distinct, Distinct, count_where, find, has_key, update_where, find-update_where,
  select, select-All, select-holds, select-Distinct, order_by, order_by-All, order_by-Distinct,
  update-Distinct, find_unique, Bool-cases, ◌==◌, nat_eq, ltb, if◌then◌else◌,
}
use security_system_gsb.Error.{library, ok, err}
use security_system_gsb.World.{World}
use security_system_gsb.World.Statements.{with_faults, statement_cases}
use security_system_gsb.Model.Alert.{SecurityAlert}
use security_system_gsb.Repository.Alerts.{
  alert_id, assign_columns, scanned_target, is_target, is_overdue, breach, is_open,
}
use security_system_gsb.Repository.Alerts
use security_system_gsb.Service.Alerts.{escalate_all, run_sla_check, escalate_targets}
use security_system_gsb.Service.Alerts.Escalation.{Stored, Outcome, ReadFrom, escalate_all-Outcome}

abbrev pub targets : World → List SecurityAlert
targets w =
    map scanned_target (order_by (λ a b. ltb b.severity a.severity) (select is_target w.alerts))

found_cases :
    (v : World)
    → ((fs : List (Option String)) × (Alerts.find_sla_breached_unnotified v
          ≡ (ok (targets v), with_faults v fs)))
      ⊎ ((fs : List (Option String)) × (text : String) × (Alerts.find_sla_breached_unnotified v
            ≡ (err (library text), with_faults v fs)))
unfolding Alerts.find_sla_breached_unnotified
found_cases v = statement_cases _ v

pub escalate_targets_cases :
    (v : World)
    → (((escalate_targets v).1.alerts ≡ v.alerts) × ((escalate_targets v).1.serials ≡ v.serials))
      ⊎ ((fs : List (Option String)) × ((escalate_targets v).1
            ≡ (escalate_all (targets v) (with_faults v fs)).1))
unfolding escalate_targets
escalate_targets_cases v = elim (found_cases v) [
  | inl (fs, e) ↦ inr (fs, rw e)
  | inr (fs, text, e) ↦ inl (rw e, rw e)
]

abbrev pub marked : World → List SecurityAlert
marked w = update_where (is_overdue w.now) (breach w.now) w.alerts

-- Which of its statements the check gets to.
pub check_cases :
    (w : World)
    → (((run_sla_check w).1.alerts ≡ w.alerts) × ((run_sla_check w).1.serials ≡ w.serials))
      ⊎ ((((run_sla_check w).1.alerts ≡ marked w) × ((run_sla_check w).1.serials ≡ w.serials))
          ⊎ ((v : World) × (v.now ≡ w.now)
              × (v.serials ≡ w.serials)
              × (v.alerts ≡ marked w)
              × ((run_sla_check w).1 ≡ (escalate_targets v).1)))
unfolding run_sla_check Alerts.check_and_mark_sla_breaches
check_cases w =
    elim (statement_cases
      (λ w. (ok (count_where (is_overdue w.now) w.alerts), record w { alerts = marked w })) w) [
        | inl (fs, e) ↦ elim (Bool-cases (count_where (is_overdue w.now) w.alerts == 0)) [
          | inl zero ↦ inr (inl (rw (e, zero), rw (e, zero)))
          | inr many ↦
              inr
                (inr (record w { alerts = marked w; faults = fs }, refl, refl, refl, rw (e, many)))
        ]
        | inr (fs, text, e) ↦ inl (rw e, rw e)
      ]

-- The row `a` after the marking.
abbrev pub marked_row : ℕ → SecurityAlert → SecurityAlert
marked_row now a = if is_overdue now a then breach now a else a

module _ (j : ℕ) (m : SecurityAlert) where
  abbrev IsRow : SecurityAlert → Type 0
  IsRow r = r.id ≡ j → r ≡ m

  abbrev Reads : SecurityAlert → Type 0
  Reads r = r.id ≡ j → (scanned_target r ≡ scanned_target m) × (is_target m ≡ true)

  row_read : (r : SecurityAlert) → IsRow r × (is_target r ≡ true) → Reads r
  row_read r (same, target) e =
      (ap scanned_target (same e), subst (λ x. is_target x ≡ true) (same e) target)

  module _ (v : World) (d : Distinct alert_id v.alerts) (stored : Stored j m v) where
    pub targets-ReadFrom : ReadFrom j m (targets v)
    unfolding scanned_target
    targets-ReadFrom =
        map-All scanned_target (λ t. t.id ≡ j → (t ≡ scanned_target m) × (is_target m ≡ true)) _
          (order_by-All Reads _ (select is_target v.alerts) (
            All-imp row_read _ (
              All-both IsRow (λ r. is_target r ≡ true) _
                (select-All IsRow is_target v.alerts (find_unique alert_id j v.alerts m d stored))
                (select-holds is_target v.alerts))))

    pub targets-Distinct : Distinct alert_id (targets v)
    unfolding scanned_target
    targets-Distinct =
        map-Distinct alert_id scanned_target (λ a. refl) _
          (order_by-Distinct alert_id _ _ (select-Distinct alert_id is_target v.alerts d))

    escalate_targets-row :
        Stored j m (escalate_targets v).1 ⊎ Outcome j m v.now (escalate_targets v).1
    escalate_targets-row = elim (escalate_targets_cases v) [
      | inl (same, _) ↦ inl (rw same stored)
      | inr (fs, e) ↦ inr (
          rw e (
            escalate_all-Outcome j (targets v) (with_faults v fs) m targets-Distinct
              targets-ReadFrom stored))
    ]

pub marked-Stored :
    (j : ℕ) (a : SecurityAlert) (w : World)
    → Stored j a w
    → find (has_key alert_id j) (marked w) ≡ some (marked_row w.now a)
marked-Stored j a w s =
    rw (find-update_where alert_id (breach w.now) (λ r. refl) (is_overdue w.now) j w.alerts, s)

-- In a table with distinct identifiers, the check leaves a row alone, marks it where it is overdue,
-- or escalates it from the row that the marking left, which must be breached and open. Any
-- statement may fail.
pub run_sla_check-row :
    (j : ℕ) (a : SecurityAlert) (w : World)
    → Distinct alert_id w.alerts
    → Stored j a w
    → Stored j a (run_sla_check w).1 ⊎ Outcome j (marked_row w.now a) w.now (run_sla_check w).1
run_sla_check-row j a w d s = elim (check_cases w) [
  | inl (same, _) ↦ inl (rw same s)
  | inr (inl (marks, _)) ↦ inr (inl (rw marks (marked-Stored j a w s)))
  | inr (inr (v, at, _, rows, last)) ↦
      let stored : Stored j (marked_row w.now a) v = rw rows (marked-Stored j a w s) in
      let distinct : Distinct alert_id v.alerts =
        rw rows (update-Distinct alert_id (is_overdue w.now) (breach w.now) (λ r. refl) _ d) in
      elim (escalate_targets-row j _ v distinct stored) [
        | inl kept ↦ inr (inl (rw last kept))
        | inr out ↦ inr (
            rw last
              (subst (λ now. Outcome j (marked_row w.now a) now (escalate_targets v).1) at out))
      ]
]
