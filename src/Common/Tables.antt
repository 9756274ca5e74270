-- ===== src/Common/Tables.antt =====
-- A table of the database as the list of its rows: what SELECT, UPDATE and COUNT with a WHERE
-- condition do to it.
use Prim.Native.Nat.{ℕ, suc}
use mathlib.Core.Path.{◌≡◌, refl, subst}
use mathlib.Core.Bool.{Bool, true, false}
use mathlib.Core.Option
use mathlib.Core.Option.{Option, none, some}
use mathlib.Core.List.{List, [], ◌∷◌, ◌++◌}
use mathlib.Core.Logic.{inl, inr}
use native.Mathlib.Omega.{arith}
use security_system_gsb.Common.Tests.{◌==◌, nat_eq, if◌then◌else◌, Bool-cases, nat_beq_iff}
use security_system_gsb.Common.Lists.{All}

module _ {ℓ} {A : Type ℓ} where
  -- SELECT ... WHERE p, of which a single-row query reads the first row.
  unfoldable pub find : (A → Bool) → List A → Option A
  find p [] = none
  find p (x ∷ xs) = if p x then some x else find p xs

  unfoldable pub select : (A → Bool) → List A → List A
  select p [] = []
  select p (x ∷ xs) = let rest = select p xs in if p x then x ∷ rest else rest

  -- UPDATE ... SET f WHERE p.
  unfoldable pub update_where : (A → Bool) → (A → A) → List A → List A
  update_where p f [] = []
  update_where p f (x ∷ xs) = (if p x then f x else x) ∷ update_where p f xs

  -- The number of rows that an UPDATE reports as affected.
  unfoldable pub count_where : (A → Bool) → List A → ℕ
  count_where p [] = 0
  count_where p (x ∷ xs) = if p x then suc (count_where p xs) else count_where p xs

  -- Whether some row has the value, as a UNIQUE or REFERENCES constraint asks.
  unfoldable pub any_where : (A → Bool) → List A → Bool
  any_where p [] = false
  any_where p (x ∷ xs) = if p x then true else any_where p xs

  -- ORDER BY: `before x y` says that `x` comes strictly before `y`. Rows that tie keep their order.
  unfoldable pub insert_ordered : (A → A → Bool) → A → List A → List A
  insert_ordered before x [] = x ∷ []
  insert_ordered before x (y ∷ ys) =
      let rest = insert_ordered before x ys in if before y x then y ∷ rest else x ∷ y ∷ ys

  unfoldable pub order_by : (A → A → Bool) → List A → List A
  unfolding insert_ordered
  order_by before [] = []
  order_by before (x ∷ xs) = insert_ordered before x (order_by before xs)

  pub find_holds : (p : A → Bool) (xs : List A) (a : A) → find p xs ≡ some a → p a ≡ true
  unfolding find
  find_holds p (x ∷ xs) a e = ground (arith, find_holds p xs a)
  find_holds p [] a e = cc

  -- The row that a query finds after an update of the rows that it asks for.
  pub find-updated :
      (p : A → Bool) (f : A → A)
      → ((a : A) → p (f a) ≡ p a)
      → (xs : List A) (a : A) → find p xs ≡ some a
      → find p (update_where p f xs) ≡ some (f a)
  unfolding find update_where
  find-updated p f same [] a e = absurd (cc)
  find-updated p f same (x ∷ xs) a e = ground (arith, same x, find-updated p f same xs a)

  -- The row that a query finds after an update of other rows too.
  pub find-update_any :
      (p q : A → Bool) (f : A → A)
      → ((a : A) → p (f a) ≡ p a)
      → (xs : List A) (a : A) → find p xs ≡ some a
      → find p (update_where q f xs) ≡ some (if q a then f a else a)
  unfolding find update_where
  find-update_any p q f same [] a e = absurd (cc)
  find-update_any p q f same (x ∷ xs) a e = ground (arith, same x, find-update_any p q f same xs a)

  -- A new row that no other row is taken for is found.
  pub find-new :
      (p : A → Bool) (xs : List A) (x : A)
      → any_where p xs ≡ false
      → p x ≡ true
      → find p (xs ++ x ∷ []) ≡ some x
  unfolding find any_where
  find-new p [] x absent here = rw (here)
  find-new p (y ∷ ys) x absent here = ground (arith, find-new p ys x)

  -- A predicate of all rows holds of a row found, and is kept by an update whose new rows have it.
  pub find-All {κ} :
      (P : A → Type κ) (p : A → Bool) (xs : List A) (a : A) → All P xs → find p xs ≡ some a → P a
  unfolding find
  find-All P p [] a h e = absurd (cc)
  find-All P p (x ∷ xs) a (h, hs) e = elim (Bool-cases (p x)) [
    | inl y ↦ subst P (Option.some-injective x a (rw y at e)) h
    | inr n ↦ find-All P p xs a hs (rw n at e)
  ]

  pub update_where-All {κ} :
      (P : A → Type κ) (p : A → Bool) (f : A → A)
      → ((a : A) → p a ≡ true → P a → P (f a))
      → (xs : List A) → All P xs
      → All P (update_where p f xs)
  unfolding update_where
  update_where-All P p f keep [] h = tt
  update_where-All P p f keep (x ∷ xs) (h, hs) = elim (Bool-cases (p x)) [
    | inl y ↦ (rw y (keep x y h), update_where-All P p f keep xs hs)
    | inr n ↦ (rw n h, update_where-All P p f keep xs hs)
  ]

-- Rows with a primary key.
module _ {ℓ} {A : Type ℓ} (key : A → ℕ) where
  -- WHERE id = $1
  abbrev pub has_key : ℕ → A → Bool
  has_key i a = key a == i

  pub find_key : (i : ℕ) (xs : List A) (a : A) → find (has_key i) xs ≡ some a → key a ≡ i
  find_key i xs a e = (nat_beq_iff (key a) i).0 (find_holds (has_key i) xs a e)

  module _ (f : A → A) (same : (a : A) → key (f a) ≡ key a) where
    -- An UPDATE by primary key changes the row with that key and no other.
    pub find-update_key :
        (i j : ℕ) (xs : List A)
        → find (has_key j) (update_where (has_key i) f xs)
          ≡ (if i == j then Option.map f (find (has_key j) xs) else find (has_key j) xs)
    unfolding find update_where
    find-update_key i j [] = ground arith
    find-update_key i j (x ∷ xs) = ground (arith, same x, find-update_key i j xs)

    -- So does an UPDATE by any condition, on the rows that meet it.
    pub find-update_where :
        (p : A → Bool) (j : ℕ) (xs : List A)
        → find (has_key j) (update_where p f xs)
          ≡ Option.map (λ a. if p a then f a else a) (find (has_key j) xs)
    unfolding find update_where
    find-update_where p j [] = refl
    find-update_where p j (x ∷ xs) = ground (arith, same x, find-update_where p j xs)
