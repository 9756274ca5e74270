-- ===== src/Service/Rbac/Depth.antt =====
-- `Depth`: the rank of a role is its depth in the tree of the stored roles.
use security_system_gsb.Common.{
  ℕ, zero, suc, ◌+◌, ◌≡◌, ◌<◌, ◌⊎◌, refl, subst, ap, sym, ◌∙◌, inl, inr, true, none, some, List, [],
  ◌∷◌, length, arith, find, has_key, contains, nat_eq, ◌==◌, nat_beq_iff, Bool-cases,
}
use security_system_gsb.Error.{ok}
use security_system_gsb.World.{World}
use security_system_gsb.Model.Role.{Role}
use security_system_gsb.Repository.Roles.{role_id}
use security_system_gsb.Service.Rbac.{role_rank}
use security_system_gsb.Service.Rbac.Termination.{fresh, fresh_visit, fresh_le_length}
use security_system_gsb.Service.Rbac.Ranks.{depth_from, depth, role_rank-depth}

-- A stored role without a parent is a root, of depth 0, and the depth of another stored role is one
-- more than that of its parent.
pub data AtDepth (roles : List Role) : ℕ → ℕ → Type 0 where
  root :
      {id : ℕ} (r : Role)
      → find (has_key role_id id) roles ≡ some r
      → r.parent_id ≡ none
      → AtDepth roles id 0
  child :
      {id n : ℕ} (r : Role) (parent : ℕ)
      → find (has_key role_id id) roles ≡ some r
      → r.parent_id ≡ some parent
      → AtDepth roles parent n
      → AtDepth roles id (suc n)

module _ (roles : List Role) where
  abbrev IsRoot : Role → ℕ → Type 0
  IsRoot r n = (r.parent_id ≡ none) × (n ≡ 0)

  abbrev IsChild : Role → ℕ → Type 0
  IsChild r n =
      (parent : ℕ) × (m : ℕ) × (r.parent_id ≡ some parent) × (n ≡ suc m) × AtDepth roles parent m

  AtDepth-cases :
      {id n : ℕ}
      → AtDepth roles id n
      → (r : Role) × (find (has_key role_id id) roles ≡ some r) × (IsRoot r n ⊎ IsChild r n)
  AtDepth-cases (root r found top) = (r, found, inl (top, refl))
  AtDepth-cases (child {n = m} r parent found up above) =
      (r, found, inr (parent, m, up, refl, above))

  AtDepth-unique : {id n m : ℕ} → AtDepth roles id n → AtDepth roles id m → n ≡ m
  AtDepth-unique (root r found top) d =
      let (r', found', cases) = AtDepth-cases d in
      elim cases [ inl (top', e) ↦ sym e | inr (parent, k, up, e, above) ↦ absurd (cc) ]
  AtDepth-unique {id} {n} {m} (child {n = k} r parent found up above) d =
      let (r', found', cases) = AtDepth-cases d in
      elim cases [
        | inl (top', e) ↦ absurd (cc)
        | inr (parent', k', up', e, above') ↦
            let same : parent' ≡ parent = cc in
            let d' : AtDepth roles parent k' = subst (λ p. AtDepth roles p k') same above' in
            ap suc (AtDepth-unique above d') ∙ sym e
      ]

  -- Each role that the walk has visited is deeper than this one.
  abbrev Deeper : List ℕ → ℕ → Type 0
  Deeper visited n = (x : ℕ) → contains x visited ≡ true → (k : ℕ) × AtDepth roles x k × (n < k)

  next_Deeper :
      (cur : ℕ) (visited : List ℕ) (n : ℕ)
      → AtDepth roles cur (suc n)
      → Deeper visited (suc n)
      → Deeper (cur ∷ visited) n
  unfolding contains
  next_Deeper cur visited n d deeper x seen = elim (Bool-cases (x == cur)) [
    | inl here ↦
        let same : cur ≡ x = sym ((nat_beq_iff x cur).0 here) in
        (suc n, subst (λ y. AtDepth roles y (suc n)) same d, omega arith)
    | inr later ↦
        let old : contains x visited ≡ true = ground arith in
        let (k, d', more) = deeper x old in (k, d', omega (arith, more))
  ]

  depth_from-AtDepth :
      (fuel cur : ℕ) (visited : List ℕ) (rank n : ℕ)
      → AtDepth roles cur n
      → Deeper visited n
      → fresh visited roles < fuel
      → depth_from roles fuel cur visited rank ≡ rank + n
  unfolding depth_from
  depth_from-AtDepth zero cur visited rank n d deeper f = absurd (omega arith)
  depth_from-AtDepth (suc fuel) cur visited rank n d deeper f =
      elim (Bool-cases (contains cur visited)) [
        | inl seen ↦
            let (k, d', more) = deeper cur seen in
            let same = AtDepth-unique d d' in absurd (omega (arith, more, same))
        | inr new ↦
            let (r, found, cases) = AtDepth-cases d in
            elim cases [
              | inl (top, e) ↦ rw (new, found, top, e) (omega arith)
              | inr (parent, m, up, e, above) ↦
                  let next =
                    depth_from-AtDepth fuel parent (cur ∷ visited) (suc rank) m above
                      (next_Deeper cur visited m (subst (AtDepth roles cur) e d)
                        (subst (Deeper visited) e deeper))
                      (omega (arith, fresh_visit cur visited roles r found new)) in
                  rw (new, found, up, e) (omega (arith, next))
            ]
      ]

-- Where the database answers, `RoleRank` gives a role that is stored, with all the roles above it up
-- to a root, its depth: 0 for a root, and one more than its parent for another role.
pub role_rank-AtDepth :
    (id n : ℕ) (w : World) → w.faults ≡ [] → AtDepth w.roles id n → role_rank id w ≡ (ok n, w)
unfolding depth contains
role_rank-AtDepth id n w f d =
    let e =
      depth_from-AtDepth w.roles (suc (length w.roles)) id [] 0 n d (λ x seen. absurd (cc))
        (omega (arith, fresh_le_length [] w.roles)) in
    role_rank-depth id w f ∙ ap (λ k. (ok k, w)) (e ∙ omega arith)
