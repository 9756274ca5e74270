-- ===== src/World/Statements.antt =====
-- What a database statement can do: fail, or run with one entry of `faults` gone. Functions that
-- change nothing but `faults` are the reads.
use security_system_gsb.Common.{
  String, ◌≡◌, refl, ap, sym, subst, ◌⊎◌, inl, inr, Option, none, some, List, [], ◌∷◌,
}
use security_system_gsb.Error.{library, Result, ok, err}
use security_system_gsb.World.{World, Exec, statement, after_fault, continue, ◌>>=◌}

abbrev pub with_faults : World → List (Option String) → World
with_faults w fs = record w { faults = fs }

module _ {ℓ} {A : Type ℓ} where
  -- A statement runs, or it fails and leaves the tables alone.
  pub statement_cases :
      (m : Exec A) (w : World)
      → ((fs : List (Option String)) × (statement m w ≡ m (with_faults w fs)))
        ⊎ ((fs : List (Option String)) × (text : String) × (statement m w
              ≡ (err (library text), with_faults w fs)))
  unfolding statement
  statement_cases m w = go w.faults refl
    where
      go :
          (fs : List (Option String))
          → w.faults ≡ fs
          → ((fs : List (Option String)) × (statement m w ≡ m (with_faults w fs)))
            ⊎ ((fs : List (Option String)) × (text : String) × (statement m w
                  ≡ (err (library text), with_faults w fs)))
      go [] e = inl ([], ap (λ fs. after_fault m fs w) e)
      go (none ∷ rest) e = inl (rest, ap (λ fs. after_fault m fs w) e)
      go (some text ∷ rest) e = inr (rest, text, ap (λ fs. after_fault m fs w) e)

  -- What holds of a run and of a failure holds of the statement.
  pub statement_elim {κ} :
      (P : Result A × World → Type κ) (m : Exec A) (w : World)
      → ((fs : List (Option String)) → P (m (with_faults w fs)))
      → ((fs : List (Option String)) (text : String) → P (err (library text), with_faults w fs))
      → P (statement m w)
  statement_elim P m w runs fails = elim (statement_cases m w) [
    | inl (fs, e) ↦ subst P (sym e) (runs fs)
    | inr (fs, text, e) ↦ subst P (sym e) (fails fs text)
  ]

  pub statement_runs :
      (m : Exec A) (w : World) → w.faults ≡ [] → statement m w ≡ m (with_faults w [])
  unfolding statement
  statement_runs m w e = ap (λ fs. after_fault m fs w) e

-- A block that returns has run its first part to a value, and then the rest.
pub bind_ok {ℓ κ} :
    {A : Type ℓ} {B : Type κ} (m : Exec A) (k : A → Exec B) (w : World) {b : B}
    → ((m >>= k) w).0 ≡ ok b
    → (a : A) × ((m w).0 ≡ ok a) × ((k a (m w).1).0 ≡ ok b)
bind_ok {A} m k w {b} e = go (m w).0 refl e
  where
    go :
        (r : Result A)
        → (m w).0 ≡ r
        → (continue r k (m w).1).0 ≡ ok b
        → (a : A) × ((m w).0 ≡ ok a) × ((k a (m w).1).0 ≡ ok b)
    go (ok a) f e = (a, f, e)
    go (err x) f e = absurd (cc)

-- The run of a block that returns is the run of its rest.
pub bind_run {ℓ κ} :
    {A : Type ℓ} {B : Type κ} (m : Exec A) (k : A → Exec B) (w : World) {b : B}
    → ((m >>= k) w).0 ≡ ok b
    → (a : A) × ((m >>= k) w ≡ k a (m w).1)
bind_run {A} m k w {b} e = go (m w).0 e
  where
    go :
        (r : Result A)
        → (continue r k (m w).1).0 ≡ ok b
        → (a : A) × (continue r k (m w).1 ≡ k a (m w).1)
    go (ok a) e = (a, refl)
    go (err x) e = absurd (cc)
