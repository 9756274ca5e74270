-- ===== src/Common/Queries.antt =====
-- What a query finds after rows were added or changed.
use mathlib.Core.Path.{◌≡◌, refl, ap}
use mathlib.Core.Logic.{inl, inr}
use mathlib.Core.Bool.{Bool, true, false}
use mathlib.Core.Option.{some}
use mathlib.Core.List.{List, [], ◌∷◌, ◌++◌}
use native.Mathlib.Omega.{arith}
use security_system_gsb.Common.Tests.{Bool-cases}
use security_system_gsb.Common.Tables.{find, update_where, any_where}

module _ {A : Type 0} where
  pub find-append :
      (p : A → Bool) (xs ys : List A) (a : A) → find p xs ≡ some a → find p (xs ++ ys) ≡ some a
  unfolding find
  find-append p [] ys a e = absurd (cc)
  find-append p (x ∷ xs) ys a e = ground (arith, find-append p xs ys a)

  -- Rows that no longer meet the condition of a query after an update do not hide its answer.
  pub find-update_other :
      (p q : A → Bool) (f : A → A)
      → ((x : A) → p (f x) ≡ false)
      → (xs : List A) (a : A) → find p xs ≡ some a
      → q a ≡ false
      → find p (update_where q f xs) ≡ some a
  unfolding find update_where
  find-update_other p q f gone [] a e other = absurd (cc)
  find-update_other p q f gone (x ∷ xs) a e other = elim (Bool-cases (p x)) [
    | inl here ↦
        let same : x ≡ a = let e2 : some x ≡ some a = rw here at e in cc in
        let kept : q x ≡ false = rw same other in rw (kept, here) (ap some same)
    | inr not_here ↦ elim (Bool-cases (q x)) [
      | inl hit ↦ rw (hit, gone x) (find-update_other p q f gone xs a (rw not_here at e) other)
      | inr miss ↦ rw (miss, not_here) (find-update_other p q f gone xs a (rw not_here at e) other)
    ]
  ]

  pub update_none :
      (q : A → Bool) (f : A → A) (xs : List A) → any_where q xs ≡ false → update_where q f xs ≡ xs
  unfolding any_where update_where
  update_none q f [] none_there = refl
  update_none q f (x ∷ xs) none_there = elim (Bool-cases (q x)) [
    | inl hit ↦ absurd (ground arith)
    | inr miss ↦ rw (miss, update_none q f xs (rw miss at none_there))
  ]

  pub any_found :
      (p q : A → Bool) (xs : List A) (a : A)
      → find p xs ≡ some a
      → q a ≡ true
      → any_where q xs ≡ true
  unfolding find any_where
  any_found p q [] a e hit = absurd (cc)
  any_found p q (x ∷ xs) a e hit = elim (Bool-cases (p x)) [
    | inl here ↦
        let e2 : some x ≡ some a = rw here at e in
        let same : x ≡ a = cc in ground (arith, same, hit)
    | inr not_here ↦ let rest = any_found p q xs a (rw not_here at e) hit in ground arith
  ]
