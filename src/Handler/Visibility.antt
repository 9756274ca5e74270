-- ===== src/Handler/Visibility.antt =====
-- `Visibility`: the alerts that the alert handlers show to a caller.
use security_system_gsb.Common.{
  ℕ, ◌≡◌, ◌≤◌, ◌⊎◌, refl, ap, ◌∙◌, true, List, [], ◌∷◌, Option, some, none, arith, not, ltb, ◌||◌,
  ◌==◌, string_eq, nat_eq, inl, inr, Bool-cases, Option-cases, find, has_key, select, order_by,
  subst, All, All-imp, select-holds,
}
use security_system_gsb.Error.{Result, Result-cases, message}
use security_system_gsb.World.{World, statement}
use security_system_gsb.World.Statements.{with_faults}
use security_system_gsb.Model.Alert.{SecurityAlert, AlertQueryParams}
use security_system_gsb.Model.Role.{Role, perm_alert_read}
use security_system_gsb.Http.{Context, goes, caller_id, caller_role, alerts, error}
use security_system_gsb.Http.Success.{Success}
use security_system_gsb.Strconv.{ℤ, to_nat, parse_int}
use security_system_gsb.Repository.Roles
use security_system_gsb.Repository.Alerts as Rows
use security_system_gsb.Repository.Alerts.{alert_id, matches, before, scanned_row}
use security_system_gsb.Repository.Paging.{Paged, page_size_within, offset_bits}
use security_system_gsb.Repository.Paging.Pages.{paged_reads}
use security_system_gsb.Service.Alerts as Service
use security_system_gsb.Service.Rbac.{get_role_by_name}
use security_system_gsb.Service.Rbac.Ranks.{depth, role_rank-depth, has_permission_quiet}
use security_system_gsb.Handler.Calls.{permits, rank_of, officer_rank, is_low_rank, takes_part}
use security_system_gsb.Handler.Alerts
use security_system_gsb.Handler.Alerts.{visible}

abbrev depth_of : List Role → Option Role → ℕ
depth_of roles none = 0
depth_of roles (some r) = depth roles r.id

-- The depth of the role named security_officer, 0 where there is none.
abbrev pub officer_depth : World → ℕ
officer_depth w = depth_of w.roles (find (λ r. r.name == "security_officer") w.roles)

-- The caller's role is as deep as the officer's, or the caller takes part in the alert.
abbrev pub MaySee : Context → World → SecurityAlert → Type 0
MaySee c w a =
    (officer_depth w ≤ depth w.roles (caller_role c)) ⊎ (takes_part (caller_id c) a ≡ true)

is_low_rank-depth :
    (c : Context) (w : World)
    → w.faults ≡ []
    → is_low_rank c w ≡ (goes (ltb (depth w.roles (caller_role c)) (officer_depth w)), w)
unfolding is_low_rank officer_rank rank_of get_role_by_name Roles.find_by_name statement
is_low_rank-depth c w f = elim (Option-cases (find (λ r. r.name == "security_officer") w.roles)) [
  | inl missing ↦ rw (role_rank-depth (caller_role c) w f, f, missing)
  | inr (r, found) ↦
      rw (
        role_rank-depth (caller_role c) w f,
        f,
        found,
        role_rank-depth r.id (with_faults w []) refl,
      )
]

low_or_part :
    (c : Context) (w : World) (a : SecurityAlert)
    → (not (ltb (depth w.roles (caller_role c)) (officer_depth w)) || takes_part (caller_id c) a)
      ≡ true
    → MaySee c w a
low_or_part c w a passed =
    elim (Bool-cases (ltb (depth w.roles (caller_role c)) (officer_depth w))) [
      | inl low ↦ inr (rw low at passed)
      | inr high ↦ inl (ground arith)
    ]

-- Where the database answers, the answer to a request for an alert is a success (a status below
-- 400) only if the alert is stored, and the caller's role is as deep in the role tree as the
-- security officer's or the caller is the creator or the assignee.
pub get-MaySee :
    (c : Context) (w : World)
    → w.faults ≡ []
    → Success (Alerts.get c w)
    → (id : ℤ) × (a : SecurityAlert) × (parse_int c.id_param ≡ some id)
      × (find (has_key alert_id (to_nat id)) w.alerts ≡ some a)
      × MaySee c w a
unfolding Alerts.get permits Service.get_by_id Rows.find_by_id statement
get-MaySee c w f s =
    let (b, cache, run) = has_permission_quiet (caller_role c) (caller_id c) perm_alert_read w f in
    let v = record w { perm_cache = cache; faults = [] } in
    elim (Bool-cases b) [
      | inr no_ ↦ absurd (omega (arith, rw (run, no_) at s))
      | inl yes_ ↦ elim (Option-cases (parse_int c.id_param)) [
        | inl bad ↦ absurd (omega (arith, rw (run, yes_, bad) at s))
        | inr (id, parsed) ↦ elim (Option-cases (find (has_key alert_id (to_nat id)) w.alerts)) [
          | inl missing ↦ absurd (omega (arith, rw (run, yes_, parsed, missing) at s))
          | inr (a, found) ↦
              let low = is_low_rank-depth c v refl in
              elim (Bool-cases (
                not (ltb (depth w.roles (caller_role c)) (officer_depth w))
                || takes_part (caller_id c) a)) [
                  | inl passed ↦ (id, a, parsed, found, low_or_part c w a passed)
                  | inr hidden ↦
                      absurd (omega (arith, rw (run, yes_, parsed, found, low, hidden) at s))
                ]
        ]
      ]
    ]

All-any :
    {P : SecurityAlert → Type 0}
    → ((a : SecurityAlert) → P a)
    → (xs : List SecurityAlert) → All P xs
All-any h [] = tt
All-any h (x ∷ xs) = (h x, All-any h xs)

visible-MaySee :
    (c : Context) (w : World) (page : Paged SecurityAlert)
    → All
        (MaySee c w)
        (visible (ltb (depth w.roles (caller_role c)) (officer_depth w)) (caller_id c) page).rows
visible-MaySee c w page =
    elim (Bool-cases (ltb (depth w.roles (caller_role c)) (officer_depth w))) [
      | inl low ↦ rw low (
          All-imp (λ a part. inr part) (select (takes_part (caller_id c)) page.rows)
            (select-holds (takes_part (caller_id c)) page.rows))
      | inr high ↦ rw high (All-any (λ a. inl (ground arith)) page.rows)
    ]

list_runs :
    (q : AlertQueryParams) (w : World)
    → w.faults ≡ []
    → (r : Result (Paged SecurityAlert)) × (Service.list q w ≡ (r, with_faults w []))
unfolding Service.list Rows.list
list_runs q w f =
    let (r, run) =
      paged_reads (λ v. select (matches q) v.alerts) (order_by before) scanned_row
        (offset_bits q.page (page_size_within 100 20 q.page_size))
        (page_size_within 100 20 q.page_size) w in
    (r, ap (λ fs. Service.list q (with_faults w fs)) f ∙ run)

-- Where the database answers and a listing of alerts is answered with alerts, then for each of
-- them the caller's role is as deep in the role tree as the security officer's, or the caller is
-- its creator or its assignee.
pub list-MaySee :
    (query : Result AlertQueryParams) (c : Context) (w : World) (n : ℕ) (rows : List SecurityAlert)
    → w.faults ≡ []
    → (Alerts.list query c w).0.body ≡ alerts n rows
    → All (MaySee c w) rows
unfolding Alerts.list permits
list-MaySee query c w n rows f s =
    let (b, cache, run) = has_permission_quiet (caller_role c) (caller_id c) perm_alert_read w f in
    let v = record w { perm_cache = cache; faults = [] } in
    elim (Bool-cases b) [
      | inr no_ ↦ let e : error "无权查看告警" ≡ alerts n rows = rw (run, no_) at s in absurd (cc)
      | inl yes_ ↦ elim (Result-cases query) [
        | inr (e, bad) ↦
            let wrong : error (message e) ≡ alerts n rows = rw (run, yes_, bad) at s in absurd (cc)
        | inl (q, good) ↦
            let (r, listed) = list_runs q v refl in
            elim (Result-cases r) [
              | inr (e, bad) ↦
                  let wrong : error "查询失败" ≡ alerts n rows =
                    rw (run, yes_, good, listed, bad) at s in
                  absurd (cc)
              | inl (page, found) ↦
                  let low = is_low_rank-depth c v refl in
                  let seen =
                    visible (ltb (depth w.roles (caller_role c)) (officer_depth w)) (caller_id c)
                      page in
                  let shown : alerts seen.total seen.rows ≡ alerts n rows =
                    rw (run, yes_, good, listed, found, low) at s in
                  let same : seen.rows ≡ rows = cc in
                  subst (All (MaySee c w)) same (visible-MaySee c w page)
            ]
      ]
    ]
