-- ===== src/Service/Rbac/Descendants.antt =====
-- `Descendants`: the roles below a role, and the search for them.
use security_system_gsb.Common.{
  ℕ, zero, suc, ◌≡◌, inl, inr, refl, sym, ◌∙◌, true, ◌||◌, some, none, List, [], ◌∷◌, ◌++◌,
  contains, ◌==◌, nat_eq, nat_beq_iff, subst, Bool-cases, arith, Bool, ◌&&◌, any_where, order_by,
  order_by-any, select, string_eq,
}
use security_system_gsb.Model.Role.{Role}
use security_system_gsb.Service.Rbac.{bfs, children, is_child_of}

-- A role is below another one, or it is that one.
pub data Below (roles : List Role) (top : ℕ) : ℕ → Type 0 where
  itself : Below roles top top
  under :
      {id : ℕ} (parent : ℕ)
      → Below roles top parent
      → contains id (children roles parent) ≡ true
      → Below roles top id

children_any :
    (c x : ℕ) (roles : List Role)
    → contains c (children roles x) ≡ any_where (λ r. is_child_of x r && r.id == c) roles
unfolding contains any_where select
children_any c x [] = refl
children_any c x (r ∷ rs) = elim (Bool-cases (is_child_of x r)) [
  | inl yes_ ↦ rw (yes_, children_any c x rs) (ground arith)
  | inr no_ ↦ rw (no_, children_any c x rs) (ground arith)
]

children-order_by :
    (before : Role → Role → Bool) (roles : List Role) (c x : ℕ)
    → contains c (children (order_by before roles) x) ≡ contains c (children roles x)
children-order_by before roles c x =
    children_any c x (order_by before roles)
    ∙ order_by-any (λ r. is_child_of x r && r.id == c) before roles
    ∙ sym (children_any c x roles)

-- The order of the rows does not matter.
pub Below-order_by :
    (before : Role → Role → Bool) (roles : List Role) (top id : ℕ)
    → Below roles top id
    → Below (order_by before roles) top id
Below-order_by before roles top id itself = itself
Below-order_by before roles top id (under parent b child) =
    under parent (Below-order_by before roles top parent b)
      (children-order_by before roles id parent ∙ child)

pub Below-unordered :
    (before : Role → Role → Bool) (roles : List Role) (top id : ℕ)
    → Below (order_by before roles) top id
    → Below roles top id
Below-unordered before roles top id itself = itself
Below-unordered before roles top id (under parent b child) =
    under parent (Below-unordered before roles top parent b)
      (sym (children-order_by before roles id parent) ∙ child)

pub contains_append :
    (n : ℕ) (xs ys : List ℕ) → contains n (xs ++ ys) ≡ (contains n xs || contains n ys)
unfolding contains
contains_append n [] ys = refl
contains_append n (x ∷ xs) ys = ground (arith, contains_append n xs ys)

module _ (roles : List Role) where
  -- The children of what was taken from the queue were put into it.
  abbrev Closed : List ℕ → List ℕ → Type 0
  Closed queue result =
      (x c : ℕ)
      → contains x result ≡ true
      → contains c (children roles x) ≡ true
      → (contains c result || contains c queue) ≡ true

  step :
      (cur : ℕ) (queue result : List ℕ)
      → Closed (cur ∷ queue) result
      → Closed (queue ++ children roles cur) (result ++ cur ∷ [])
  unfolding contains
  step cur queue result closed x c seen child =
      let all = (contains_append c result (cur ∷ [])) in
      let later = contains_append c queue (children roles cur) in
      rw (all, later)
        (elim (Bool-cases (contains x result)) [
          | inl before ↦ let there = closed x c before child in ground arith
          | inr now ↦
              let split : (contains x result || contains x (cur ∷ [])) ≡ true =
                sym (contains_append x result (cur ∷ [])) ∙ seen in
              let hit : (cur == x) ≡ true = ground arith in
              let same : cur ≡ x = (nat_beq_iff cur x).0 hit in
              let mine : contains c (children roles cur) ≡ true = rw same child in ground arith
        ])

  bfs-Closed :
      (fuel : ℕ) (queue result ids : List ℕ)
      → bfs fuel roles queue result ≡ some ids
      → Closed queue result
      → Closed [] ids
        × ((x : ℕ) → (contains x result || contains x queue) ≡ true → contains x ids ≡ true)
  unfolding bfs contains
  bfs-Closed fuel [] result ids e closed =
      let same : result ≡ ids = cc in
      (
        subst (Closed []) same closed,
        λ x h. let k : contains x result ≡ true = ground arith in rw (← same) k,
      )
  bfs-Closed zero (cur ∷ queue) result ids e closed = absurd (cc)
  bfs-Closed (suc fuel) (cur ∷ queue) result ids e closed =
      let (done, kept) =
        bfs-Closed fuel (queue ++ children roles cur) (result ++ cur ∷ []) ids e
          (step cur queue result closed) in
      (
        done,
        λ x h. kept x (
            rw (contains_append x result (cur ∷ []), contains_append x queue (children roles cur))
              (ground arith)),
      )

  -- The search ends with every role below the one that it starts from.
  pub bfs-Below :
      (fuel top id : ℕ) (ids : List ℕ)
      → bfs fuel roles (top ∷ []) [] ≡ some ids
      → Below roles top id
      → contains id ids ≡ true
  unfolding contains
  bfs-Below fuel top id ids e itself =
      (bfs-Closed fuel (top ∷ []) [] ids e (λ x c seen child. absurd (cc))).1 id
        (let same : (top == top) ≡ true = (nat_beq_iff top top).1 refl in rw same refl)
  bfs-Below fuel top id ids e (under parent b child) =
      let (closed, _) = bfs-Closed fuel (top ∷ []) [] ids e (λ x c seen child. absurd (cc)) in
      let there = closed parent id (bfs-Below fuel top parent ids e b) child in ground arith

  -- Roles of which each has a child among them: a loop of parents.
  abbrev pub Loop : List ℕ → Type 0
  Loop loop =
      (x : ℕ)
      → contains x loop ≡ true
      → (c : ℕ) × (contains c loop ≡ true) × (contains c (children roles x) ≡ true)

  endless :
      (loop : List ℕ) (fuel x : ℕ) (queue result : List ℕ)
      → Loop loop
      → contains x loop ≡ true
      → contains x queue ≡ true
      → bfs fuel roles queue result ≡ none
  unfolding bfs contains
  endless loop fuel x [] result on here queued = absurd (cc)
  endless loop zero x (cur ∷ queue) result on here queued = refl
  endless loop (suc fuel) x (cur ∷ queue) result on here queued = elim (Bool-cases (cur == x)) [
    | inl now ↦
        let same : x ≡ cur = sym ((nat_beq_iff cur x).0 now) in
        let (c, there, child) = on x here in
        let mine : contains c (children roles cur) ≡ true = rw same at child in
        endless loop fuel c (queue ++ children roles cur) (result ++ cur ∷ []) on there
          (contains_append c queue (children roles cur) ∙ ground arith)
    | inr later ↦
        let waiting : contains x queue ≡ true = ground arith in
        endless loop fuel x (queue ++ children roles cur) (result ++ cur ∷ []) on here
          (contains_append x queue (children roles cur) ∙ rw waiting refl)
  ]

  -- From a role in a loop of parents, of stored roles each with a child in the loop, the search for
  -- the roles below it does not end, with whatever number of rounds.
  pub bfs_endless :
      (loop : List ℕ) (role : ℕ)
      → Loop loop
      → contains role loop ≡ true
      → (fuel : ℕ) → bfs fuel roles (role ∷ []) [] ≡ none
  unfolding contains
  bfs_endless loop role on here fuel =
      endless loop fuel role (role ∷ []) [] on here
        (let same : (role == role) ≡ true = (nat_beq_iff role role).1 refl in rw same refl)
