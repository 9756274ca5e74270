-- ===== src/Service/Rbac/Descent.antt =====
-- `Descent`: the search for the roles below a role ends where the roles are a tree. Each round puts
-- into the queue roles that were neither in it nor in the result.
use mathlib.Core.List.{append-nil}
use security_system_gsb.Common.{
  ℕ, zero, suc, ◌+◌, ◌≡◌, ◌≤◌, ◌<◌, ◌≢◌, ◌⊎◌, inl, inr, refl, sym, ap, subst, ◌∙◌, true, false,
  some, none, Option, List, [], ◌∷◌, ◌++◌, arith, All, All-append, All-imp, Distinct, contains, map,
  map-All, select-Distinct, ◌==◌, nat_eq, nat_beq_iff, length, length-append, select, find, has_key,
  find_key, find-Lacks, ◌&&◌, find-All, count_where, Bool-cases,
}
use security_system_gsb.Model.Role.{Role}
use security_system_gsb.Repository.Roles.{role_id}
use security_system_gsb.Service.Rbac.{bfs, children, is_child_of}
use security_system_gsb.Service.Rbac.Descendants.{contains_append, Below, itself, under}
use security_system_gsb.Service.Rbac.Termination.{fresh, fresh_le_length}
use security_system_gsb.Service.Rbac.Tree.{HasOlderParent, Older}

module _ (P : ℕ → Type 0) where
  pub All-contains : (x : ℕ) (xs : List ℕ) → contains x xs ≡ true → All P xs → P x
  unfolding contains
  All-contains x [] there h = absurd (cc)
  All-contains x (y ∷ ys) there (h, hs) = elim (Bool-cases (y == x)) [
    | inl here ↦ subst P ((nat_beq_iff y x).0 here) h
    | inr later ↦ All-contains x ys (rw later at there) hs
  ]

  contains-All : (xs : List ℕ) → ((x : ℕ) → contains x xs ≡ true → P x) → All P xs
  unfolding contains
  contains-All [] f = tt
  contains-All (x ∷ xs) f =
      let here : (x == x) ≡ true = (nat_beq_iff x x).1 refl in
      (f x (ground arith), contains-All xs (λ y there. f y (ground arith)))

  All-middle : (xs : List ℕ) (y : ℕ) (ys : List ℕ) → All P (xs ++ y ∷ ys) → P y
  All-middle [] y ys (h, hs) = h
  All-middle (x ∷ xs) y ys (h, hs) = All-middle xs y ys hs

abbrev pub self : ℕ → ℕ
self x = x

Distinct-append :
    (xs ys : List ℕ)
    → Distinct self xs
    → Distinct self ys
    → All (λ y. contains y xs ≡ false) ys
    → Distinct self (xs ++ ys)
unfolding contains
Distinct-append [] ys d e apart = e
Distinct-append (x ∷ xs) ys (l, d) e apart = (
  All-append (λ y. y ≢ x) xs ys l
      (All-imp (λ y out. let k : (x == y) ≡ false = ground arith in λ same. absurd (ground arith))
        ys apart),
  Distinct-append xs ys d e (All-imp (λ y out. ground arith) ys apart),
)

-- What stands behind in a list without repetition does not stand before.
not_before : (x : ℕ) (xs ys : List ℕ) → Distinct self (xs ++ x ∷ ys) → contains x xs ≡ false
unfolding contains
not_before x [] ys d = refl
not_before x (y ∷ xs) ys (l, d) =
    let rest = not_before x xs ys d in
    let apart : x ≢ y = All-middle (λ z. z ≢ y) xs x ys l in
    elim (Bool-cases (y == x)) [
      | inl same ↦ absurd (apart (sym ((nat_beq_iff y x).0 same)))
      | inr other ↦ ground arith
    ]

-- A child is a stored role whose row names the parent.
child_found :
    (rs : List Role) (p x : ℕ)
    → Distinct role_id rs
    → contains x (children rs p) ≡ true
    → (r : Role) × (find (has_key role_id x) rs ≡ some r) × (r.parent_id ≡ some p)
unfolding contains select find
child_found [] p x d there = absurd (cc)
child_found (r ∷ rs) p x (l, d) there = elim (Bool-cases (is_child_of p r && r.id == x)) [
  | inl head ↦ (r, ground arith, parent_is p r.parent_id (ground arith))
  | inr tail ↦
      let (r', found, named) = child_found rs p x d (ground arith) in
      let other : (r.id == x) ≡ false = elim (Bool-cases (r.id == x)) [
        | inr no_ ↦ no_
        | inl same ↦
            let e : r.id ≡ x = (nat_beq_iff r.id x).0 same in
            let missing : find (has_key role_id x) rs ≡ none =
              subst (λ n. find (has_key role_id n) rs ≡ none) e (find-Lacks role_id r.id rs l) in
            absurd (cc)
      ] in
      (r', ground (arith, found), named)
]
  where
    parent_is :
        (q : ℕ) (o : Option ℕ) → (elim o [ none ↦ false | some p ↦ p == q ]) ≡ true → o ≡ some q
    parent_is q none e = absurd (cc)
    parent_is q (some p) e = ap some ((nat_beq_iff p q).0 e)

ids-Distinct : (rs : List Role) → Distinct role_id rs → Distinct self (map (λ (r : Role). r.id) rs)
ids-Distinct [] d = tt
ids-Distinct (r ∷ rs) (l, d) =
    (map-All (λ (s : Role). s.id) (λ n. n ≢ r.id) rs l, ids-Distinct rs d)

-- The children that are new to the list of those seen use up roles.
fresh_drop :
    (cur : ℕ) (seen cs : List ℕ) (rs : List Role)
    → ((x : ℕ)
        → contains x (children rs cur) ≡ true
        → (contains x seen ≡ false) × (contains x cs ≡ true))
    → fresh (seen ++ cs) rs + length (children rs cur) ≤ fresh seen rs
unfolding fresh count_where select contains
fresh_drop cur seen cs [] new = omega arith
fresh_drop cur seen cs (r ∷ rs) new =
    let split = contains_append r.id seen cs in
    elim (Bool-cases (is_child_of cur r)) [
      | inl child ↦
          let refl_ : (r.id == r.id) ≡ true = (nat_beq_iff r.id r.id).1 refl in
          let (out, in_) = new r.id (rw child (ground arith)) in
          let rest = fresh_drop cur seen cs rs (λ x there. new x (rw child (ground arith))) in
          rw (child, split, out, in_) (omega (arith, rest))
      | inr other ↦
          let rest = fresh_drop cur seen cs rs (λ x there. new x (rw other there)) in
          rw (other, split) (ground (arith, rest))
    ]

module _ (roles : List Role) (top : ℕ) (d : Distinct role_id roles)
    (o : All HasOlderParent roles) where
  child_after : (p x : ℕ) → contains x (children roles p) ≡ true → p < x
  child_after p x there =
      let (r, found, named) = child_found roles p x d there in
      let older : Older r.id r.parent_id =
        find-All HasOlderParent (has_key role_id x) roles r o found in
      let here : Older r.id (some p) = rw named at older in
      omega (arith, here, find_key role_id x roles r found)

  one_parent :
      (p q x : ℕ)
      → contains x (children roles p) ≡ true
      → contains x (children roles q) ≡ true
      → p ≡ q
  one_parent p q x there also =
      let (r, found, named) = child_found roles p x d there in
      let (s, found2, named2) = child_found roles q x d also in let same : r ≡ s = cc in cc

  abbrev Origin : List ℕ → ℕ → Type 0
  Origin result x =
      (x ≡ top) ⊎ ((p : ℕ) × (contains p result ≡ true) × (contains x (children roles p) ≡ true))

  -- The state of the search.
  record Search (result queue : List ℕ) : Type 0 where
    nodup : Distinct self (result ++ queue)
    least : All (λ x. top ≤ x) (result ++ queue)
    origin : All (Origin result) (result ++ queue)
    below : All (Below roles top) (result ++ queue)

  new_child :
      (cur : ℕ) (result queue : List ℕ)
      → Search result (cur ∷ queue)
      → (c : ℕ) → contains c (children roles cur) ≡ true
      → contains c (result ++ cur ∷ queue) ≡ false
  new_child cur result queue t c child = elim (Bool-cases (contains c (result ++ cur ∷ queue))) [
    | inr new ↦ new
    | inl seen ↦ elim (All-contains (Origin result) c (result ++ cur ∷ queue) seen t.origin) [
      | inl first ↦
          let low = All-middle (λ x. top ≤ x) result cur queue t.least in
          absurd (omega (arith, child_after cur c child))
      | inr (p, before, also) ↦
          let same = one_parent p cur c also child in
          let twice : contains cur result ≡ true = rw same at before in
          absurd (cc (not_before cur result queue t.nodup))
    ]
  ]

  -- The list of those seen, before and after a round.
  seen_after :
      (cur : ℕ) (result queue cs : List ℕ)
      → (result ++ cur ∷ []) ++ (queue ++ cs) ≡ (result ++ cur ∷ queue) ++ cs
  seen_after cur [] queue cs = refl
  seen_after cur (x ∷ result) queue cs = ap (λ xs. x ∷ xs) (seen_after cur result queue cs)

  Origin-more :
      (x : ℕ) (result : List ℕ) (cur : ℕ) → Origin result x → Origin (result ++ cur ∷ []) x
  Origin-more x result cur (inl first) = inl first
  Origin-more x result cur (inr (p, before, child)) =
      inr (p, (let e = contains_append p result (cur ∷ []) in ground arith), child)

  step :
      (cur : ℕ) (result queue : List ℕ)
      → Search result (cur ∷ queue)
      → Search (result ++ cur ∷ []) (queue ++ children roles cur)
  unfolding contains
  step cur result queue t =
      let cs = children roles cur in
      let seen = result ++ cur ∷ queue in
      let same = seen_after cur result queue cs in
      let last : contains cur (result ++ cur ∷ []) ≡ true =
        contains_append cur result (cur ∷ [])
        ∙ (let here : (cur == cur) ≡ true = (nat_beq_iff cur cur).1 refl in ground arith) in
      let low = All-middle (λ x. top ≤ x) result cur queue t.least in
      record {
        nodup = subst (Distinct self) (sym same) (
            Distinct-append seen cs t.nodup
              (ids-Distinct (select (is_child_of cur) roles)
                (select-Distinct role_id (is_child_of cur) roles d))
              (contains-All (λ y. contains y seen ≡ false) cs (new_child cur result queue t)));
        least = subst (All (λ x. top ≤ x)) (sym same) (
            All-append (λ x. top ≤ x) seen cs t.least
              (contains-All (λ x. top ≤ x) cs
                (λ x there. omega (arith, child_after cur x there, low))));
        origin = subst (All (Origin (result ++ cur ∷ []))) (sym same) (
            All-append (Origin (result ++ cur ∷ [])) seen cs
              (All-imp (λ x from. Origin-more x result cur from) seen t.origin)
              (contains-All (Origin (result ++ cur ∷ [])) cs (λ x there. inr (cur, last, there))));
        below = subst (All (Below roles top)) (sym same) (
            All-append (Below roles top) seen cs t.below (
              contains-All (Below roles top) cs (λ x there.
                under cur (All-middle (Below roles top) result cur queue t.below) there)));
      }

  from_queue :
      (fuel : ℕ) (queue result : List ℕ)
      → Search result queue
      → length queue + fresh (result ++ queue) roles ≤ fuel
      → (ids : List ℕ) × (bfs fuel roles queue result ≡ some ids)
        × Distinct self ids
        × All (Below roles top) ids
  unfolding bfs
  from_queue fuel [] result t enough =
      let whole = append-nil result in
      (
        result,
        refl,
        subst (Distinct self) whole t.nodup,
        subst (All (Below roles top)) whole t.below,
      )
  from_queue zero (cur ∷ queue) result t enough = absurd (omega arith)
  from_queue (suc fuel) (cur ∷ queue) result t enough =
      let cs = children roles cur in
      let seen = result ++ cur ∷ queue in
      let drop =
        fresh_drop cur seen cs roles (λ x there. (new_child cur result queue t x there, there)) in
      let same = ap (λ xs. fresh xs roles) (seen_after cur result queue cs) in
      from_queue fuel (queue ++ cs) (result ++ cur ∷ []) (step cur result queue t)
        (omega (arith, drop, same, length-append queue cs))

  -- From any role the search ends within one round for each role and one more, with roles below
  -- it, each once.
  pub bfs_ends :
      (ids : List ℕ) × (bfs (suc (length roles)) roles (top ∷ []) [] ≡ some ids)
      × Distinct self ids
      × All (Below roles top) ids
  bfs_ends =
      from_queue (suc (length roles)) (top ∷ []) []
        (record {
          nodup = (tt, tt);
          least = (omega arith, tt);
          origin = (inl refl, tt);
          below = (itself, tt);
        })
        (omega (arith, fresh_le_length (top ∷ []) roles))
