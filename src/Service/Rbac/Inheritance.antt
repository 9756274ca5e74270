-- ===== src/Service/Rbac/Inheritance.antt =====
-- `Inheritance`: which permissions a role is resolved to, described apart from the walk.
use security_system_gsb.Common.{
  ℕ, zero, suc, ◌≡◌, ◌<◌, ◌⊎◌, refl, sym, ap, ◌∙◌, true, false, ◌||◌, inl, inr, String, some, List,
  [], ◌∷◌, ◌++◌, ◌==◌, nat_eq, string_eq, arith, nat_beq_iff, find, has_key, select, contains,
  Bool-cases, eq_iff,
}
use security_system_gsb.World.{World}
use security_system_gsb.Model.Role.{Role}
use security_system_gsb.Repository.Roles.{role_id, grants}
use security_system_gsb.Service.Rbac.{names, add_new}
use security_system_gsb.Service.Rbac.Termination.{fresh, fresh_visit}

contains-append :
    (n : String) (xs ys : List String) → contains n (xs ++ ys) ≡ (contains n xs || contains n ys)
unfolding contains
contains-append n [] ys = refl
contains-append n (x ∷ xs) ys = ground (arith, contains-append n xs ys)

pub contains-add_new :
    (n : String) (xs ys : List String)
    → contains n (add_new xs ys) ≡ (contains n xs || contains n ys)
unfolding add_new contains
contains-add_new n xs [] = ground arith
contains-add_new n xs (y ∷ ys) = elim (Bool-cases (contains y xs)) [
  | inl old ↦ ground (arith, contains-add_new n xs ys, eq_iff y n)
  | inr new ↦ ground (arith, contains-add_new n (xs ++ y ∷ []) ys, contains-append n xs (y ∷ []))
]

module _ (w : World) (name : String) where
  -- The names that the role itself is granted.
  abbrev pub own : ℕ → List String
  own id = names (select (grants id w.role_permissions) w.permissions)

  -- A role has a permission: it is granted to the role, or its parent has it.
  pub data Has : ℕ → Type 0 where
    granted :
        {id : ℕ} (r : Role)
        → find (has_key role_id id) w.roles ≡ some r
        → contains name (own id) ≡ true
        → Has id
    inherited :
        {id : ℕ} (r : Role) (parent : ℕ)
        → find (has_key role_id id) w.roles ≡ some r
        → r.parent_id ≡ some parent
        → Has parent
        → Has id

  -- The same along a walk that has visited some roles.
  pub data Gives : List ℕ → ℕ → Type 0 where
    here :
        {visited : List ℕ} {id : ℕ} (r : Role)
        → contains id visited ≡ false
        → find (has_key role_id id) w.roles ≡ some r
        → contains name (own id) ≡ true
        → Gives visited id
    above :
        {visited : List ℕ} {id : ℕ} (r : Role) (parent : ℕ)
        → contains id visited ≡ false
        → find (has_key role_id id) w.roles ≡ some r
        → r.parent_id ≡ some parent
        → Gives (id ∷ visited) parent
        → Gives visited id

  pub Gives-Has : (visited : List ℕ) (id : ℕ) → Gives visited id → Has id
  Gives-Has visited id (here r new e h) = granted r e h
  Gives-Has visited id (above r parent new e p g) =
      inherited r parent e p (Gives-Has (id ∷ visited) parent g)

  -- No visited role is granted the permission itself, and the parent of a visited role is visited
  -- or the current one.
  pub record Trail (visited : List ℕ) (id : ℕ) : Type 0 where
    pub fruitless : (v : ℕ) → contains v visited ≡ true → contains name (own v) ≡ false
    pub leads :
        (v : ℕ) (r : Role) (parent : ℕ)
        → contains v visited ≡ true
        → find (has_key role_id v) w.roles ≡ some r
        → r.parent_id ≡ some parent
        → (contains parent visited ≡ true) ⊎ (parent ≡ id)

  -- A walk that has come back has seen all there is.
  cycle :
      (visited : List ℕ) (id : ℕ)
      → Trail visited id
      → contains id visited ≡ true
      → (v : ℕ) → contains v visited ≡ true
      → Has v
      → ⊥
  cycle visited id t back v seen (granted r e h) = absurd (cc (t.fruitless v seen))
  cycle visited id t back v seen (inherited r parent e p h) = elim (t.leads v r parent seen e p) [
    | inl before ↦ cycle visited id t back parent before h
    | inr now ↦ cycle visited id t back parent (rw now back) h
  ]

  step :
      (visited : List ℕ) (id : ℕ) (r : Role) (parent : ℕ)
      → Trail visited id
      → contains name (own id) ≡ false
      → find (has_key role_id id) w.roles ≡ some r
      → r.parent_id ≡ some parent
      → Trail (id ∷ visited) parent
  unfolding contains
  step visited id r parent t none_here e p = record {
    fruitless = λ v seen. elim (Bool-cases (id == v)) [
      | inl same ↦ rw (← (nat_beq_iff id v).0 same) none_here
      | inr other ↦ t.fruitless v (rw other at seen)
    ];
    leads = λ v s q seen e2 p2. elim (Bool-cases (id == v)) [
      | inl same ↦ inr (same_parent v s q ((nat_beq_iff id v).0 same) e2 p2)
      | inr other ↦ elim (t.leads v s q (rw other at seen) e2 p2) [
        | inl before ↦ inl (ground arith)
        | inr now ↦ inl (ground arith)
      ]
    ];
  }
    where
      same_parent :
          (v : ℕ) (s : Role) (q : ℕ)
          → id ≡ v
          → find (has_key role_id v) w.roles ≡ some s
          → s.parent_id ≡ some q
          → q ≡ parent
      same_parent v s q same e2 p2 =
          let e3 : find (has_key role_id id) w.roles ≡ some s = rw same e2 in cc

  -- The other direction: what a role has, a walk to it finds.
  pub Has-Gives :
      (fuel : ℕ) (visited : List ℕ) (id : ℕ)
      → fresh visited w.roles < fuel
      → Trail visited id
      → Has id
      → Gives visited id
  Has-Gives zero visited id f t h = absurd (omega arith)
  Has-Gives (suc fuel) visited id f t (granted r e k) = elim (Bool-cases (contains id visited)) [
    | inl back ↦ absurd (cycle visited id t back id back (granted r e k))
    | inr new ↦ here r new e k
  ]
  Has-Gives (suc fuel) visited id f t (inherited r parent e p k) =
      elim (Bool-cases (contains id visited)) [
        | inl back ↦ absurd (cycle visited id t back id back (inherited r parent e p k))
        | inr new ↦ elim (Bool-cases (contains name (own id))) [
          | inl found ↦ here r new e found
          | inr none_here ↦ above r parent new e p (
              Has-Gives fuel (id ∷ visited) parent
                (omega (arith, fresh_visit id visited w.roles r e new))
                (step visited id r parent t none_here e p) k)
        ]
      ]

  pub Gives-new : (visited : List ℕ) (id : ℕ) → Gives visited id → contains id visited ≡ false
  Gives-new visited id (here r new e h) = new
  Gives-new visited id (above r parent new e p g) = new

  pub Gives-find :
      (visited : List ℕ) (id : ℕ)
      → Gives visited id
      → (r : Role) × (find (has_key role_id id) w.roles ≡ some r)
  Gives-find visited id (here r new e h) = (r, e)
  Gives-find visited id (above r parent new e p g) = (r, e)

  pub Gives-inv :
      (visited : List ℕ) (id : ℕ) (r : Role)
      → find (has_key role_id id) w.roles ≡ some r
      → Gives visited id
      → (contains name (own id) ≡ true)
        ⊎ ((parent : ℕ) × (r.parent_id ≡ some parent) × Gives (id ∷ visited) parent)
  Gives-inv visited id r e (here s new e2 h) = inl h
  Gives-inv visited id r e (above s parent new e2 p g) =
      let same : s ≡ r = cc in inr (parent, ap (λ x. x.parent_id) (sym same) ∙ p, g)
