-- ===== src/Repository/Paging/Pages.antt =====
-- `Pages`: what a paged query answers, and how the pages fit together.
use native.Mathlib.Nat.{mod-eq_of_lt}
use security_system_gsb.Common.{
  ℕ, zero, suc, ◌+◌, ◌-◌, ◌*◌, ◌%◌, ◌≡◌, ◌≤◌, ◌<◌, refl, ap, sym, ◌∙◌, true, List, [], ◌∷◌, ◌++◌,
  map, length, arith, inl, inr, ltb,
}
use security_system_gsb.Error.{Result, Result-cases, ok, err}
use security_system_gsb.World.{World, statement}
use security_system_gsb.World.Statements.{with_faults}
use security_system_gsb.Repository.Paging.{
  Paged, limit, skip, window, paged, offset_bits, first_page,
}

module _ {ℓ} {A : Type ℓ} where
  pub length-limit : (n : ℕ) (xs : List A) → length (limit n xs) ≤ n
  unfolding limit
  length-limit zero xs = omega arith
  length-limit (suc n) [] = omega arith
  length-limit (suc n) (x ∷ xs) = omega (arith, length-limit n xs)

  -- A page and the next one, as one page.
  pub limit-limit : (n m : ℕ) (xs : List A) → limit n xs ++ limit m (skip n xs) ≡ limit (n + m) xs
  unfolding limit skip
  limit-limit zero m xs = let e : 0 + m ≡ m = omega arith in rw e
  limit-limit (suc n) zero [] = let e : suc n + 0 ≡ suc n = omega arith in rw e
  limit-limit (suc n) (suc m) [] = let e : suc n + suc m ≡ suc (n + suc m) = omega arith in rw e
  limit-limit (suc n) m (x ∷ xs) =
      let e : suc n + m ≡ suc (n + m) = omega arith in rw e (ap (λ ys. x ∷ ys) (limit-limit n m xs))

  pub limit_all : (n : ℕ) (xs : List A) → length xs ≤ n → limit n xs ≡ xs
  unfolding limit
  limit_all zero [] h = refl
  limit_all zero (x ∷ xs) h = absurd (omega arith)
  limit_all (suc n) [] h = refl
  limit_all (suc n) (x ∷ xs) h = ap (λ ys. x ∷ ys) (limit_all n xs (omega (arith, h)))

  unfoldable pub read_pages : (ℕ → List A) → ℕ → List A
  read_pages page zero = []
  read_pages page (suc k) = read_pages page k ++ page (suc k)

map-append : {A B : Type 0} (f : A → B) (xs ys : List A) → map f (xs ++ ys) ≡ map f xs ++ map f ys
map-append f [] ys = refl
map-append f (x ∷ xs) ys = ap (λ zs. f x ∷ zs) (map-append f xs ys)

module _ {A : Type 0} where
  abbrev pub rows_of : Result (Paged A) × World → List A
  rows_of (ok page, w) = page.rows
  rows_of (err e, w) = []

  module _ (chosen : World → List A) (ordered : List A → List A) (scanned : A → A) where
    -- The page, where the offset is one that int64 holds.
    pub paged_run :
        (offset size : ℕ) (w : World)
        → offset < 9223372036854775808
        → paged offset size chosen ordered scanned (with_faults w []) ≡ (
          ok (record {
            total = length (chosen (with_faults w []));
            rows = map scanned (limit size (skip offset (ordered (chosen (with_faults w [])))));
          }),
          with_faults w [],
        )
    unfolding paged window statement
    paged_run offset size w small =
        let fits : ltb offset 9223372036854775808 ≡ true = ground arith in rw (fits)

    -- A listing, where the database answers, changes nothing.
    pub paged_reads :
        (offset size : ℕ) (w : World)
        → (r : Result (Paged A)) × (paged offset size chosen ordered scanned (with_faults w [])
            ≡ (r, with_faults w []))
    unfolding paged statement
    paged_reads offset size w =
        elim (Result-cases (window offset size (ordered (chosen (with_faults w []))))) [
          | inl (xs, run) ↦ (
            ok (record { total = length (chosen (with_faults w [])); rows = map scanned xs }),
            rw run,
          )
          | inr (e, failed) ↦ (err e, rw failed)
        ]

-- The offset of a page, where int64 holds it, is the one that the code means.
pub offset_exact :
    (k size : ℕ) → k * size < 9223372036854775808 → offset_bits (suc k) size ≡ k * size
offset_exact k size small =
    let one : first_page (suc k) - 1 ≡ k = ground arith in
    ap (λ n. (n * size) % 18446744073709551616) one ∙ (mod-eq_of_lt (omega (arith, small)))

module _ {A : Type 0} (scanned : A → A) (page : ℕ → List A) (xs : List A) (size : ℕ) where
  -- The first pages together are the first rows.
  pub read_pages_lem :
      ((k : ℕ)
        → k * size < 9223372036854775808
        → page (suc k) ≡ map scanned (limit size (skip (k * size) xs)))
      → (k : ℕ) → k * size < 9223372036854775808
      → read_pages page k ≡ map scanned (limit (k * size) xs)
  unfolding limit read_pages
  read_pages_lem reads zero small = let e : 0 * size ≡ 0 = omega arith in rw e
  read_pages_lem reads (suc k) small =
      let e : suc k * size ≡ k * size + size = omega arith in
      let before : k * size < 9223372036854775808 = omega (arith, e, small) in
      rw (e, read_pages_lem reads k before, reads k before, ← limit-limit (k * size) size xs)
        (sym (map-append scanned (limit (k * size) xs) (limit size (skip (k * size) xs))))
