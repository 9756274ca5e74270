-- ===== src/Tests/Numbers.antt =====
-- Numbers as texts, and the pages of a listing.
use mathlib.Core.List.Permᴰ.{swap}
use mathlib.Core.List.Permᴰ
use security_system_gsb.Common.{
  ℕ, ◌≡◌, refl, map, arith, order_by, select, inl, inr, List, [], ◌∷◌, Permᴰ, Untied, Bool-cases,
  if◌then◌else◌, ◌==◌, nat_eq,
}
use security_system_gsb.Model.Alert.{SecurityAlert}
use security_system_gsb.Repository.Alerts.{matches, before, scanned_row}
use security_system_gsb.Repository.Paging.Pages.{read_pages}
use security_system_gsb.Service.Alerts.Pages.{list-wanted, wanted, page}
use security_system_gsb.Tests.Data.{alert}
use security_system_gsb.Tests.Desk.{desk, everything}

abbrev severe : SecurityAlert
severe = record (alert 1 1) { severity = 4 }

-- The rows of the desk, in the other order for every page but the first.
abbrev shuffled : ℕ → List SecurityAlert
shuffled p = if p == 1 then desk.alerts else alert 2 5 ∷ severe ∷ []

same_alerts : (p : ℕ) → Permᴰ desk.alerts (shuffled p)
same_alerts p = elim (Bool-cases (p == 1)) [
  | inl first ↦ rw first (Permᴰ.refl desk.alerts)
  | inr later ↦ rw later (swap refl refl)
]

apart : Untied before (select (matches everything) desk.alerts)
unfolding Untied select matches
apart = ((inl refl, tt), (tt, tt))

list-wanted_example :
    read_pages (page everything desk shuffled) 2 ≡ map scanned_row (wanted everything desk)
unfolding order_by select matches
list-wanted_example =
    list-wanted everything desk shuffled refl (omega arith) (omega arith) same_alerts apart 2
      (omega arith) (omega arith)
