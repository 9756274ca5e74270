-- ===== src/Common/Order.antt =====
-- ORDER BY over the rows of a table: where no two rows tie, the order of the table plays no part.
use mathlib.Core.Path.{◌≡◌, refl, ap, subst, sym, ◌∙◌}
use mathlib.Core.Bool.{Bool, true, false}
use mathlib.Core.List.{List, [], ◌∷◌, Permᴰ}
use mathlib.Core.List.Permᴰ.{nil, cons, swap, trans}
use mathlib.Core.Logic.{◌⊎◌, inl, inr}
use security_system_gsb.Common.Tests.{Bool-cases}
use security_system_gsb.Common.Lists.{All}
use security_system_gsb.Common.Tables.{select, insert_ordered, order_by}

module _ {A : Type 0} where
  same_rows : (xs : List A) → Permᴰ xs xs
  same_rows [] = nil
  same_rows (x ∷ xs) = cons refl (same_rows xs)

  select_swapped :
      (p : A → Bool) (a b : A) (l : List A) → Permᴰ (select p (a ∷ b ∷ l)) (select p (b ∷ a ∷ l))
  unfolding select
  select_swapped p a b l = elim (Bool-cases (p a)) [
    | inl taken ↦ elim (Bool-cases (p b)) [
      | inl both ↦ rw (taken, both) (swap refl refl)
      | inr left ↦ rw (taken, left) (same_rows (a ∷ select p l))
    ]
    | inr left ↦ rw left (same_rows (select p (b ∷ l)))
  ]

  pub select-Permᴰ :
      (p : A → Bool) {xs ys : List A} → Permᴰ xs ys → Permᴰ (select p xs) (select p ys)
  unfolding select
  select-Permᴰ p nil = nil
  select-Permᴰ p (cons {a} {b} {l₁ = xs} {l₂ = ys} e d) =
      subst (λ z. Permᴰ (select p (a ∷ xs)) (select p (z ∷ ys))) e
        (elim (Bool-cases (p a)) [
          | inl taken ↦ rw taken (cons refl (select-Permᴰ p d))
          | inr left ↦ rw left (select-Permᴰ p d)
        ])
  select-Permᴰ p (swap {a} {b} {a'} {b'} {l} e f) =
      subst (λ z. Permᴰ (select p (a ∷ b ∷ l)) (select p (z ∷ b' ∷ l))) f
        (subst (λ z. Permᴰ (select p (a ∷ b ∷ l)) (select p (b ∷ z ∷ l))) e
          (select_swapped p a b l))
  select-Permᴰ p (trans d d') = trans (select-Permᴰ p d) (select-Permᴰ p d')

  All-Permᴰ : (P : A → Type 0) {xs ys : List A} → Permᴰ xs ys → All P xs → All P ys
  All-Permᴰ P nil h = h
  All-Permᴰ P (cons e d) (h, hs) = (subst P e h, All-Permᴰ P d hs)
  All-Permᴰ P (swap e f) (h, (k, hs)) = (subst P f k, (subst P e h, hs))
  All-Permᴰ P (trans d d') h = All-Permᴰ P d' (All-Permᴰ P d h)

  -- One of the two comes before the other.
  abbrev Differ : (A → A → Bool) → A → A → Type 0
  Differ before x y = (before x y ≡ true) ⊎ (before y x ≡ true)

  -- Of any two rows, one comes before the other.
  unfoldable pub Untied : (A → A → Bool) → List A → Type 0
  Untied before [] = Unit {0}
  Untied before (x ∷ xs) = All (Differ before x) xs × Untied before xs

  module _ (before : A → A → Bool) (asym : (a b : A) → before a b ≡ true → before b a ≡ false)
      (chain : (a b c : A) → before a b ≡ true → before b c ≡ true → before a c ≡ true) where
    abbrev insert : A → List A → List A
    insert = insert_ordered before

    insert_past : (x z : A) (zs : List A) → before z x ≡ true → insert x (z ∷ zs) ≡ z ∷ insert x zs
    unfolding insert_ordered
    insert_past x z zs h = rw h

    insert_here : (x z : A) (zs : List A) → before z x ≡ false → insert x (z ∷ zs) ≡ x ∷ z ∷ zs
    unfolding insert_ordered
    insert_here x z zs h = rw h

    insert_in_turn :
        (x y : A) (zs : List A)
        → before x y ≡ true
        → insert x (insert y zs) ≡ insert y (insert x zs)
    unfolding insert_ordered
    insert_in_turn x y [] h = insert_here x y [] (asym x y h) ∙ sym (insert_past y x [] h)
    insert_in_turn x y (z ∷ zs) h = elim (Bool-cases (before z x)) [
      | inl first ↦
          let second = chain z x y first h in
          ap (insert x) (insert_past y z zs second)
          ∙ insert_past x z (insert y zs) first
          ∙ ap (λ rest. z ∷ rest) (insert_in_turn x y zs h)
          ∙ sym (insert_past y z (insert x zs) second)
          ∙ ap (insert y) (sym (insert_past x z zs first))
      | inr later ↦ elim (Bool-cases (before z y)) [
        | inl between ↦
            ap (insert x) (insert_past y z zs between)
            ∙ insert_here x z (insert y zs) later
            ∙ ap (λ rest. x ∷ rest) (sym (insert_past y z zs between))
            ∙ sym (insert_past y x (z ∷ zs) h)
            ∙ ap (insert y) (sym (insert_here x z zs later))
        | inr last ↦
            ap (insert x) (insert_here y z zs last)
            ∙ insert_here x y (z ∷ zs) (asym x y h)
            ∙ ap (λ rest. x ∷ rest) (sym (insert_here y z zs last))
            ∙ sym (insert_past y x (z ∷ zs) h)
            ∙ ap (insert y) (sym (insert_here x z zs later))
      ]
    ]

    insert_either :
        (x y : A) (zs : List A)
        → Differ before x y
        → insert x (insert y zs) ≡ insert y (insert x zs)
    insert_either x y zs (inl h) = insert_in_turn x y zs h
    insert_either x y zs (inr h) = sym (insert_in_turn y x zs h)

    turned : (x y : A) → Differ before x y → Differ before y x
    turned x y (inl h) = inr h
    turned x y (inr h) = inl h

    -- Rows of which no two tie come in one order, in whatever order the table holds them.
    pub order_by-Permᴰ :
        {xs ys : List A}
        → Permᴰ xs ys
        → Untied before xs
        → (order_by before xs ≡ order_by before ys) × Untied before ys
    unfolding order_by Untied
    order_by-Permᴰ nil h = (refl, tt)
    order_by-Permᴰ (cons {a} {b} {l₁ = xs} {l₂ = ys} e d) (h, hs) =
        let (same, k) = order_by-Permᴰ d hs in
        (
          ap (insert a) same ∙ ap (λ z. insert z (order_by before ys)) e,
          (All-Permᴰ (Differ before b) d (subst (λ z. All (Differ before z) xs) e h), k),
        )
    order_by-Permᴰ (swap {a} {b} {a'} {b'} {l} e f) ((h, ha), (hb, hs)) = (
      insert_either a b (order_by before l) h
          ∙ ap (λ z. insert z (insert a (order_by before l))) f
          ∙ ap (λ z. insert a' (insert z (order_by before l))) e,
      (
        (
          subst (λ z. Differ before z b') f (subst (Differ before b) e (turned a b h)),
          subst (λ z. All (Differ before z) l) f hb,
        ),
        (subst (λ z. All (Differ before z) l) e ha, hs),
      ),
    )
    order_by-Permᴰ (trans d d') h =
        let (e, k) = order_by-Permᴰ d h in let (e', k') = order_by-Permᴰ d' k in (e ∙ e', k')
