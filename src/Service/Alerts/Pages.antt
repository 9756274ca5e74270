-- ===== src/Service/Alerts/Pages.antt =====
-- `Pages`: the pages of a listing of alerts.
use security_system_gsb.Common.{
  ℕ, suc, ◌*◌, ◌≡◌, ◌≤◌, ◌<◌, ap, sym, ◌∙◌, true, false, Permᴰ, Untied, order_by-Permᴰ,
  select-Permᴰ, nat_eq, List, [], map, length, select, order_by, arith,
}
use security_system_gsb.World.{World}
use security_system_gsb.World.Statements.{with_faults}
use security_system_gsb.Model.Alert.{SecurityAlert, AlertQueryParams}
use security_system_gsb.Repository.Alerts
use security_system_gsb.Repository.Alerts.{matches, before, scanned_row}
use security_system_gsb.Repository.Paging.{paged, page_size_within, offset_bits, limit, skip}
use security_system_gsb.Repository.Paging.Pages.{
  rows_of, read_pages, read_pages_lem, paged_run, offset_exact, limit_all,
}
use security_system_gsb.Service.Alerts.{list}

before_asym : (a b : SecurityAlert) → before a b ≡ true → before b a ≡ false
before_asym a b h = ground arith

before_trans : (a b c : SecurityAlert) → before a b ≡ true → before b c ≡ true → before a c ≡ true
before_trans a b c h k = ground arith

module _ (q : AlertQueryParams) (w : World) where
  -- The alerts that the query asks for, in the order of the listing.
  abbrev pub wanted : List SecurityAlert
  wanted = order_by before (select (matches q) w.alerts)

  abbrev at : ℕ → ℕ → World → List SecurityAlert
  at offset size v =
      rows_of (paged offset size (λ v. select (matches q) v.alerts) (order_by before) scanned_row v)

  module _ (table : ℕ → List SecurityAlert) where
    -- Page p, where the database holds the rows in an order of their own for each page.
    abbrev pub page : ℕ → List SecurityAlert
    page p = rows_of (list (record q { page = p }) (record w { alerts = table p }))

    module _ (f : w.faults ≡ []) (some_rows : 0 < q.page_size) (few : q.page_size ≤ 100)
        (same_rows : (p : ℕ) → Permᴰ w.alerts (table p))
        (untied : Untied before (select (matches q) w.alerts)) where
      wanted-table : (p : ℕ) → order_by before (select (matches q) (table p)) ≡ wanted
      wanted-table p =
          let (e, rest) =
            order_by-Permᴰ before before_asym before_trans (select-Permᴰ (matches q) (same_rows p))
              untied in
          sym e

      page_run :
          (k : ℕ)
          → k * q.page_size < 9223372036854775808
          → page (suc k) ≡ map scanned_row (limit q.page_size (skip (k * q.page_size) wanted))
      unfolding list Alerts.list matches
      page_run k small =
          let v = record w { alerts = table (suc k) } in
          let size : page_size_within 100 20 q.page_size ≡ q.page_size = ground arith in
          ap (λ s. at (offset_bits (suc k) s) s v) size
          ∙ ap (λ o. at o q.page_size v) (offset_exact k q.page_size small)
          ∙ ap (λ fs. at (k * q.page_size) q.page_size (with_faults v fs)) f
          ∙ ap rows_of (
              paged_run (λ v. select (matches q) v.alerts) (order_by before) scanned_row
                (k * q.page_size) q.page_size v small)
          ∙ ap (λ rows. map scanned_row (limit q.page_size (skip (k * q.page_size) rows)))
              (wanted-table (suc k))

      -- Where the database answers, the pages are of 1 to 100 rows, and no two of the rows that the
      -- query asks for have one severity and one time of creation, the pages 1 to k of a listing of
      -- alerts, one after the other, are all these rows, each once and in the order of the listing,
      -- as soon as k pages have room for them. The database may hold the rows in another order
      -- for each page. The offset of page k + 1 is to fit int64.
      pub list-wanted :
          (k : ℕ)
          → k * q.page_size < 9223372036854775808
          → length wanted ≤ k * q.page_size
          → read_pages page k ≡ map scanned_row wanted
      list-wanted k small enough =
          read_pages_lem scanned_row page wanted q.page_size page_run k small
          ∙ ap (map scanned_row) (limit_all (k * q.page_size) wanted enough)
