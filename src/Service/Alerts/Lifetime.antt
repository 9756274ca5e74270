-- ===== src/Service/Alerts/Lifetime.antt =====
-- What holds of an alert over any history of calls.
use security_system_gsb.Common.{ℕ, ◌≡◌, refl, ◌∙◌, List, [], ◌∷◌}
use security_system_gsb.World.{World}
use security_system_gsb.Model.Alert.{SecurityAlert, status_closed}
use security_system_gsb.Service.Alerts.Escalation.{Stored}
use security_system_gsb.Service.Alerts.History.{WellFormed, Call, step, run}
use security_system_gsb.Service.Alerts.Rows.{step-RowStep}
use security_system_gsb.Service.Alerts.Identifiers.{step-WellFormed}

-- After any sequence of calls from a well-formed database, with any time passing and any
-- statements failing, an alert that is stored is still stored, under the creator, the source and the deadline that it had: no call
-- writes a new deadline to the database.
pub run_deadline :
    (j : ℕ) (cs : List Call) (w : World) (a : SecurityAlert)
    → WellFormed w
    → Stored j a w
    → (b : SecurityAlert) × Stored j b (run w cs)
      × (b.sla_deadline ≡ a.sla_deadline)
      × (b.creator_id ≡ a.creator_id)
      × (b.source ≡ a.source)
unfolding run
run_deadline j [] w a v s = (a, s, refl, refl, refl)
run_deadline j (c ∷ cs) w a v s =
    let (m, here, h) = step-RowStep j a w c v s in
    let (b, there, d, c', o) = run_deadline j cs (step w c) m (step-WellFormed w c v) here in
    (b, there, d ∙ h.same_deadline, c' ∙ h.same_creator, o ∙ h.same_source)

-- From a well-formed database, a closed alert stays exactly as it is, whatever calls of the
-- service follow and whatever statements fail.
pub run_closed :
    (j : ℕ) (cs : List Call) (w : World) (a : SecurityAlert)
    → WellFormed w
    → Stored j a w
    → a.status ≡ status_closed
    → Stored j a (run w cs)
unfolding run
run_closed j [] w a v s closed = s
run_closed j (c ∷ cs) w a v s closed =
    let (m, here, h) = step-RowStep j a w c v s in
    run_closed j cs (step w c) a (step-WellFormed w c v) (rw (h.closed_stays closed) at here) closed

-- Whatever calls follow, identifiers stay distinct and within the sequence.
pub run-WellFormed : (cs : List Call) (w : World) → WellFormed w → WellFormed (run w cs)
unfolding run
run-WellFormed [] w v = v
run-WellFormed (c ∷ cs) w v = run-WellFormed cs (step w c) (step-WellFormed w c v)
