-- ===== src/Repository/Paging.antt =====
-- The paged queries of internal/repository: COUNT(*), then LIMIT and OFFSET. A page and its size are
-- 0 where the request leaves them out or asks for a negative one.
pub mod Pages
use security_system_gsb.Common.{
  ℕ, zero, suc, ◌-◌, ◌*◌, ◌%◌, Bool, List, [], ◌∷◌, map, ltb, ◌==◌, nat_eq, ◌||◌, if◌then◌else◌,
  length,
}
use security_system_gsb.Error.{library, Result, ok, err}
use security_system_gsb.World.{World, Exec, statement, gets, attempt, lift, pure, ◌>>=◌}

-- LIMIT n
unfoldable pub limit {ℓ} : {A : Type ℓ} → ℕ → List A → List A
limit zero xs = []
limit (suc n) [] = []
limit (suc n) (x ∷ xs) = x ∷ limit n xs

-- OFFSET n
unfoldable pub skip {ℓ} : {A : Type ℓ} → ℕ → List A → List A
skip zero xs = xs
skip (suc n) [] = []
skip (suc n) (x ∷ xs) = skip n xs

-- What a listing returns: the rows of the page, and how many rows there are in all.
pub record Paged (A : Type 0) : Type 0 where
  pub total : ℕ
  pub rows : List A

abbrev pub page_size_within : ℕ → ℕ → ℕ → ℕ
page_size_within largest default size = if size == 0 || ltb largest size then default else size

abbrev pub first_page : ℕ → ℕ
first_page page = if page == 0 then 1 else page

-- `(page - 1) * size` in int64, as the 64 bits.
abbrev pub offset_bits : ℕ → ℕ → ℕ
offset_bits page size = ((first_page page - 1) * size) % 18446744073709551616

-- The database refuses a negative offset.
unfoldable pub window {ℓ} : {A : Type ℓ} → ℕ → ℕ → List A → Result (List A)
unfolding limit skip
window offset size xs =
    if ltb offset 9223372036854775808
    then ok (limit size (skip offset xs))
    else err (library "OFFSET must not be negative")

abbrev or_zero : Result ℕ → ℕ
or_zero (ok n) = n
or_zero (err e) = 0

-- The rows that `chosen` selects, in the order that `ordered` puts them in, each as the query
-- reads it. The error of the count is dropped, and the total is then 0.
unfoldable pub paged :
    {A : Type 0} → ℕ → ℕ → (World → List A) → (List A → List A) → (A → A) → Exec (Paged A)
unfolding window
paged offset size chosen ordered scanned = do
  total ← attempt (statement (gets λ w. length (chosen w)))
  rows ← statement (λ w. (window offset size (ordered (chosen w)), w))
  pure (record { total = or_zero total; rows = map scanned rows })
