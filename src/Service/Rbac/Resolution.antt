-- ===== src/Service/Rbac/Resolution.antt =====
-- `Resolution`: the walk over the parents finds the permissions that a role has.
use security_system_gsb.Common.{
  ℕ, zero, suc, ◌≡◌, ◌<◌, ◌↔◌, sym, ap, ◌∙◌, true, false, ◌||◌, inl, inr, String, none, some, List,
  [], ◌∷◌, nat_eq, string_eq, arith, find, has_key, contains, Bool-cases, Option-cases, Bool,
}
use security_system_gsb.Error.{ok}
use security_system_gsb.World.{World, statement}
use security_system_gsb.World.Statements.{with_faults}
use security_system_gsb.Model.Role.{Role}
use security_system_gsb.Repository.Roles
use security_system_gsb.Repository.Roles.{role_id, grants}
use security_system_gsb.Service.Rbac.{
  resolve_inherited_perms, resolve_role, with_parent, add_new, walk_fuel, get, has_permission,
}
use security_system_gsb.Service.Rbac.Termination.{fresh, fresh_visit, fresh_le_length}
use security_system_gsb.Service.Rbac.Inheritance.{
  Has, Gives, here, above, Trail, own, Gives-Has, Has-Gives, Gives-new, Gives-find, Gives-inv,
  contains-add_new,
}

module _ (w : World) (name : String) where
  module _ (visited : List ℕ) (id : ℕ) (r : Role) (new : contains id visited ≡ false)
      (found : find (has_key role_id id) w.roles ≡ some r) where
    root_iff :
        r.parent_id ≡ none
        → (contains name (add_new [] (own w name id)) ≡ true) ↔ Gives w name visited id
    unfolding contains
    root_iff root = (
      (λ h. here r new found (sym (contains-add_new name [] (own w name id)) ∙ h)),
      λ g.
          contains-add_new name [] (own w name id)
          ∙ elim (Gives-inv w name visited id r found g) [ inl h ↦ h | inr (parent, p, _) ↦ cc ],
    )

    parent_iff :
        (parent : ℕ) (ps : List String)
        → r.parent_id ≡ some parent
        → ((contains name ps ≡ true) ↔ Gives w name (id ∷ visited) parent)
        → (contains name (add_new (add_new [] (own w name id)) ps) ≡ true) ↔ Gives w name visited id
    unfolding contains
    parent_iff parent ps p iff =
        let both : contains name (add_new (add_new [] (own w name id)) ps)
            ≡ (contains name (own w name id) || contains name ps) =
          contains-add_new name (add_new [] (own w name id)) ps
          ∙ ap (λ b. b || contains name ps) (contains-add_new name [] (own w name id)) in
        (
          (λ h. elim (Bool-cases (contains name (own w name id))) [
            | inl k ↦ here r new found k
            | inr k ↦ above r parent new found p (iff.0 (sym (rw (both, k)) ∙ h))
          ]),
          λ g. both ∙ elim (Gives-inv w name visited id r found g) [
            | inl h ↦ rw (h)
            | inr (q, p2, g2) ↦
                let same : q ≡ parent = cc in
                let h : contains name ps ≡ true = iff.1 (rw (← same) g2) in ground arith
          ],
        )

  -- A run of the walk: the names that it returns.
  abbrev pub Answer : ℕ → ℕ → List ℕ → Type 0
  Answer fuel id visited =
      (ps : List String) × (resolve_inherited_perms fuel id visited (with_faults w [])
        ≡ (ok ps, with_faults w []))
      × ((contains name ps ≡ true) ↔ Gives w name visited id)

  pub answer :
      (fuel id : ℕ) (visited : List ℕ) → fresh visited w.roles < fuel → Answer fuel id visited
  unfolding resolve_inherited_perms resolve_role with_parent Roles.find_by_id Roles.get_permissions
      statement
  answer zero id visited f = absurd (omega arith)
  answer (suc fuel) id visited f = elim (Bool-cases (contains id visited)) [
    | inl back ↦
        ([], rw back, ((λ h. absurd (cc)), λ g. absurd (cc (Gives-new w name visited id g))))
    | inr new ↦ elim (Option-cases (find (has_key role_id id) w.roles)) [
      | inl missing ↦ (
        [],
        rw (new, missing),
        ((λ h. absurd (cc)), λ g. absurd (cc ((Gives-find w name visited id g).1))),
      )
      | inr (r, found) ↦ elim (Option-cases r.parent_id) [
        | inl root ↦ (
          add_new [] (own w name id),
          rw (new, found, root),
          root_iff visited id r new found root,
        )
        | inr (parent, p) ↦
            let (ps, run, iff) =
              answer fuel parent (id ∷ visited)
                (omega (arith, fresh_visit id visited w.roles r found new)) in
            (
              add_new (add_new [] (own w name id)) ps,
              rw (new, found, p, run),
              parent_iff visited id r new found parent ps p iff,
            )
      ]
    ]
  ]

  start : (id : ℕ) → Trail w name [] id
  unfolding contains
  start id = record { fruitless = λ v seen. absurd (cc); leads = λ v r q seen e p. absurd (cc) }

  verdict :
      (role user : ℕ) (ps : List String)
      → get user w.perm_cache ≡ none
      → resolve_inherited_perms (walk_fuel w) role [] (with_faults w []) ≡ (ok ps, with_faults w [])
      → (has_permission role user name (with_faults w [])).0 ≡ ok (contains name ps)
  unfolding has_permission
  verdict role user ps cold run = rw (cold, run)

  -- Where nothing is cached for the user and the database answers, `HasPermission` says whether
  -- the permission is granted to the role or to a role that it reaches by going from role to
  -- parent, cycles of parents included.
  pub has_permission_iff :
      (role user : ℕ)
      → w.faults ≡ []
      → get user w.perm_cache ≡ none
      → (b : Bool) × ((has_permission role user name w).0 ≡ ok b) × ((b ≡ true) ↔ Has w name role)
  has_permission_iff role user f cold =
      let same : w ≡ with_faults w [] = ap (with_faults w) f in
      let enough : fresh [] w.roles < walk_fuel w = omega (arith, fresh_le_length [] w.roles) in
      let (ps, run, iff) = answer (walk_fuel w) role [] enough in
      (
        contains name ps,
        ap (λ v. (has_permission role user name v).0) same ∙ verdict role user ps cold run,
        (
          (λ h. Gives-Has w name [] role (iff.0 h)),
          λ h. iff.1 (Has-Gives w name (walk_fuel w) [] role enough (start role) h),
        ),
      )
