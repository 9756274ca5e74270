-- ===== src/Common/Keys.antt =====
-- Tables whose rows have distinct keys, and what selecting, ordering and updating do to them.
use Prim.Native.Nat.{ℕ, ◌≤◌, ◌<◌}
use mathlib.Core.Path.{◌≡◌, refl, sym, ◌∙◌}
use mathlib.Core.Bool.{Bool, true}
use mathlib.Core.Option.{none, some}
use mathlib.Core.List.{List, [], ◌∷◌, ◌++◌, map}
use mathlib.Core.Logic.{inl, inr, ◌≢◌}
use native.Mathlib.Omega.{arith}
use security_system_gsb.Common.Tests.{◌==◌, nat_eq, if◌then◌else◌, Bool-cases, nat_beq_iff}
use security_system_gsb.Common.Lists.{All}
use security_system_gsb.Common.Tables.{
  find, select, update_where, any_where, insert_ordered, order_by, has_key,
}

module _ {ℓ} {A : Type ℓ} where
  module _ {κ} (P : A → Type κ) where
    pub select-All : (p : A → Bool) (xs : List A) → All P xs → All P (select p xs)
    unfolding select
    select-All p [] h = tt
    select-All p (x ∷ xs) (h, hs) = elim (Bool-cases (p x)) [
      | inl y ↦ rw y (h, select-All p xs hs)
      | inr n ↦ rw n (select-All p xs hs)
    ]

    insert_ordered-All :
        (before : A → A → Bool) (x : A) (xs : List A)
        → P x
        → All P xs
        → All P (insert_ordered before x xs)
    unfolding insert_ordered
    insert_ordered-All before x [] h hs = (h, tt)
    insert_ordered-All before x (y ∷ ys) h (k, ks) = elim (Bool-cases (before y x)) [
      | inl b ↦ rw b (k, insert_ordered-All before x ys h ks)
      | inr n ↦ rw n (h, (k, ks))
    ]

    pub order_by-All : (before : A → A → Bool) (xs : List A) → All P xs → All P (order_by before xs)
    unfolding order_by
    order_by-All before [] h = tt
    order_by-All before (x ∷ xs) (h, hs) =
        insert_ordered-All before x (order_by before xs) h (order_by-All before xs hs)

  pub All-imp {κ μ} :
      {P : A → Type κ} {Q : A → Type μ}
      → ((a : A) → P a → Q a)
      → (xs : List A) → All P xs
      → All Q xs
  All-imp f [] h = tt
  All-imp f (x ∷ xs) (h, hs) = (f x h, All-imp f xs hs)

  pub All-both {κ μ} :
      (P : A → Type κ) (Q : A → Type μ) (xs : List A)
      → All P xs
      → All Q xs
      → All (λ a. P a × Q a) xs
  All-both P Q [] h k = tt
  All-both P Q (x ∷ xs) (h, hs) (k, ks) = ((h, k), All-both P Q xs hs ks)

  pub map-All {κ μ} :
      {B : Type κ} (f : A → B) (P : B → Type μ) (xs : List A)
      → All (λ a. P (f a)) xs
      → All P (map f xs)
  map-All f P [] h = tt
  map-All f P (x ∷ xs) (h, hs) = (h, map-All f P xs hs)

  -- The rows that a query selects meet its condition.
  pub select-holds : (p : A → Bool) (xs : List A) → All (λ a. p a ≡ true) (select p xs)
  unfolding select
  select-holds p [] = tt
  select-holds p (x ∷ xs) = elim (Bool-cases (p x)) [
    | inl y ↦ rw y (y, select-holds p xs)
    | inr n ↦ rw n (select-holds p xs)
  ]

  -- What a query finds is still there in its ordered answer.
  pub select-any :
      (p q : A → Bool) (xs : List A) (a : A)
      → find p xs ≡ some a
      → q a ≡ true
      → any_where p (select q xs) ≡ true
  unfolding find select any_where
  select-any p q [] a e h = absurd (cc)
  select-any p q (x ∷ xs) a e h = elim (Bool-cases (p x)) [
    | inl y ↦ let same : x ≡ a = ground arith in rw (same, h, ← same, y) refl
    | inr n ↦ ground (arith, select-any p q xs a (rw n at e) h)
  ]

  insert_ordered-any :
      (p : A → Bool) (before : A → A → Bool) (x : A) (xs : List A)
      → any_where p (insert_ordered before x xs) ≡ (if p x then true else any_where p xs)
  unfolding any_where insert_ordered
  insert_ordered-any p before x [] = refl
  insert_ordered-any p before x (y ∷ ys) = ground (arith, insert_ordered-any p before x ys)

  pub order_by-any :
      (p : A → Bool) (before : A → A → Bool) (xs : List A)
      → any_where p (order_by before xs) ≡ any_where p xs
  unfolding any_where order_by
  order_by-any p before [] = refl
  order_by-any p before (x ∷ xs) =
      rw (insert_ordered-any p before x (order_by before xs), order_by-any p before xs)

module _ {ℓ} {A : Type ℓ} (key : A → ℕ) where
  pub map-any :
      (f : A → A)
      → ((a : A) → key (f a) ≡ key a)
      → (i : ℕ) (xs : List A) → any_where (has_key key i) (map f xs) ≡ any_where (has_key key i) xs
  unfolding any_where
  map-any f same i [] = refl
  map-any f same i (x ∷ xs) = ground (arith, same x, map-any f same i xs)

  abbrev pub Lacks : ℕ → List A → Type 0
  Lacks i = All (λ a. key a ≢ i)

  -- No two rows have the same key.
  abbrev pub Distinct : List A → Type 0
  Distinct [] = Unit
  Distinct (x ∷ xs) = Lacks (key x) xs × Distinct xs

  -- Every key is at most `n`, as the keys from a sequence that has reached `n` are.
  abbrev pub Within : ℕ → List A → Type 0
  Within n = All (λ a. key a ≤ n)

  pub find-Lacks : (i : ℕ) (xs : List A) → Lacks i xs → find (has_key key i) xs ≡ none
  unfolding find
  find-Lacks i [] h = refl
  find-Lacks i (x ∷ xs) (h, hs) = ground (arith, find-Lacks i xs hs)

  only_head :
      (i : ℕ) (x a : A) (xs : List A)
      → key x ≡ i
      → Lacks (key x) xs
      → All (λ r. key r ≡ i → r ≡ a) xs
  only_head i x a [] e h = tt
  only_head i x a (y ∷ ys) e (h, hs) = (λ k. absurd (h (k ∙ sym e)), only_head i x a ys e hs)

  -- A key names one row.
  pub find_unique :
      (i : ℕ) (xs : List A) (a : A)
      → Distinct xs
      → find (has_key key i) xs ≡ some a
      → All (λ r. key r ≡ i → r ≡ a) xs
  unfolding find
  find_unique i [] a d e = tt
  find_unique i (x ∷ xs) a (h, hs) e = elim (Bool-cases (key x == i)) [
    | inl y ↦ (λ _. ground arith, only_head i x a xs ((nat_beq_iff (key x) i).0 y) h)
    | inr n ↦ (λ k. ground arith, find_unique i xs a hs (rw n at e))
  ]

  pub select-Distinct : (p : A → Bool) (xs : List A) → Distinct xs → Distinct (select p xs)
  unfolding select
  select-Distinct p [] d = tt
  select-Distinct p (x ∷ xs) (h, hs) = elim (Bool-cases (p x)) [
    | inl y ↦ rw y (select-All (λ a. key a ≢ key x) p xs h, select-Distinct p xs hs)
    | inr n ↦ rw n (select-Distinct p xs hs)
  ]

  insert_ordered-Distinct :
      (before : A → A → Bool) (x : A) (xs : List A)
      → Lacks (key x) xs
      → Distinct xs
      → Distinct (insert_ordered before x xs)
  unfolding insert_ordered
  insert_ordered-Distinct before x [] h d = (tt, tt)
  insert_ordered-Distinct before x (y ∷ ys) (h, hs) (k, ks) = elim (Bool-cases (before y x)) [
    | inl b ↦ rw b (
      insert_ordered-All (λ a. key a ≢ key y) before x ys (λ e. h (sym e)) k,
      insert_ordered-Distinct before x ys hs ks,
    )
    | inr n ↦ rw n ((h, hs), (k, ks))
  ]

  pub order_by-Distinct :
      (before : A → A → Bool) (xs : List A) → Distinct xs → Distinct (order_by before xs)
  unfolding order_by
  order_by-Distinct before [] d = tt
  order_by-Distinct before (x ∷ xs) (h, hs) =
      insert_ordered-Distinct before x (order_by before xs)
        (order_by-All (λ a. key a ≢ key x) before xs h) (order_by-Distinct before xs hs)

  pub update-Lacks :
      (p : A → Bool) (f : A → A)
      → ((a : A) → key (f a) ≡ key a)
      → (i : ℕ) (xs : List A) → Lacks i xs
      → Lacks i (update_where p f xs)
  unfolding update_where
  update-Lacks p f same i [] h = tt
  update-Lacks p f same i (x ∷ xs) (h, hs) = (ground (arith, same x), update-Lacks p f same i xs hs)

  pub update-Distinct :
      (p : A → Bool) (f : A → A)
      → ((a : A) → key (f a) ≡ key a)
      → (xs : List A) → Distinct xs
      → Distinct (update_where p f xs)
  unfolding update_where
  update-Distinct p f same [] d = tt
  update-Distinct p f same (x ∷ xs) (h, hs) =
      (rw (kept x) (update-Lacks p f same (key x) xs h), update-Distinct p f same xs hs)
    where
      kept : (x : A) → key (if p x then f x else x) ≡ key x
      kept x = ground (arith, same x)

  pub update-Within :
      (p : A → Bool) (f : A → A)
      → ((a : A) → key (f a) ≡ key a)
      → (n : ℕ) (xs : List A) → Within n xs
      → Within n (update_where p f xs)
  unfolding update_where
  update-Within p f same n [] h = tt
  update-Within p f same n (x ∷ xs) (h, hs) =
      (ground (arith, same x), update-Within p f same n xs hs)

  -- A row with a key from the sequence joins the others.
  pub Distinct-snoc :
      (n : ℕ) (xs : List A) (x : A)
      → Within n xs
      → n < key x
      → Distinct xs
      → Distinct (xs ++ x ∷ [])
  Distinct-snoc n [] x w l d = (tt, tt)
  Distinct-snoc n (y ∷ ys) x (w, ws) l (h, hs) = (lacks ys h, Distinct-snoc n ys x ws l hs)
    where
      lacks : (zs : List A) → Lacks (key y) zs → Lacks (key y) (zs ++ x ∷ [])
      lacks [] k = (λ e. omega arith, tt)
      lacks (z ∷ zs) (k, ks) = (k, lacks zs ks)

  pub Within-snoc :
      (n m : ℕ) (xs : List A) (x : A) → Within n xs → n ≤ m → key x ≤ m → Within m (xs ++ x ∷ [])
  Within-snoc n m [] x w l h = (h, tt)
  Within-snoc n m (y ∷ ys) x (w, ws) l h = (omega arith, Within-snoc n m ys x ws l h)

  pub find-snoc :
      (i : ℕ) (xs : List A) (x a : A)
      → find (has_key key i) xs ≡ some a
      → find (has_key key i) (xs ++ x ∷ []) ≡ some a
  unfolding find
  find-snoc i [] x a e = absurd (cc)
  find-snoc i (y ∷ ys) x a e = ground (arith, find-snoc i ys x a)

  pub map-Distinct :
      (f : A → A)
      → ((a : A) → key (f a) ≡ key a)
      → (xs : List A) → Distinct xs
      → Distinct (map f xs)
  map-Distinct f same [] d = tt
  map-Distinct f same (x ∷ xs) (h, hs) = (lacks xs h, map-Distinct f same xs hs)
    where
      lacks : (ys : List A) → Lacks (key x) ys → Lacks (key (f x)) (map f ys)
      lacks [] k = tt
      lacks (y ∷ ys) (k, ks) = (λ e. k (sym (same y) ∙ e ∙ same x), lacks ys ks)
