-- ===== src/Service/Audit/Verification.antt =====
-- `Verification`: what the check of the chain finds, and what it does not look at.
use security_system_gsb.Common.{
  ℕ, zero, suc, ◌≡◌, refl, Bool, true, false, List, [], ◌∷◌, map, ltb, string_eq, none,
  if◌then◌else◌, sym, ap, ◌∙◌, order_by, insert_ordered, eq_iff,
}
use security_system_gsb.Error.{ok, Result}
use security_system_gsb.World.{World, gets}
use security_system_gsb.World.Statements.{statement_runs}
use security_system_gsb.Model.Audit.{AuditLog}
use security_system_gsb.Repository.Audits
use security_system_gsb.Repository.Paging.{limit}
use security_system_gsb.Repository.Audits.{
  newest_first, hash_or_initial, first_broken, entry, Entry, or_zero,
}
use security_system_gsb.Pkg.Libraries.{Libraries}
use security_system_gsb.Service.Audit.{verify_chain}
use security_system_gsb.Service.Audit.Chain.{Linked, Intact}

-- The pointer of each row to the row before it.
abbrev Joined : List AuditLog → Type 0
Joined [] = Unit
Joined (l ∷ []) = Unit
Joined (l ∷ m ∷ ls) = (l.prev_hash ≡ m.hash) × Joined (m ∷ ls)

Linked-Joined : (lib : Libraries) (ls : List AuditLog) → Linked lib ls → Joined ls
unfolding hash_or_initial
Linked-Joined lib [] h = tt
Linked-Joined lib (l ∷ []) h = tt
Linked-Joined lib (l ∷ m ∷ ls) (e, _, h) = (e, Linked-Joined lib (m ∷ ls) h)

limit-Joined : (n : ℕ) (ls : List AuditLog) → Joined ls → Joined (limit n ls)
unfolding limit
limit-Joined zero ls h = tt
limit-Joined (suc n) [] h = tt
limit-Joined (suc zero) (l ∷ ls) h = tt
limit-Joined (suc (suc n)) (l ∷ []) h = tt
limit-Joined (suc (suc n)) (l ∷ m ∷ ls) (e, h) = (e, limit-Joined (suc n) (m ∷ ls) h)

Joined-unbroken : (ls : List AuditLog) → Joined ls → first_broken (map entry ls) ≡ none
unfolding first_broken
Joined-unbroken [] h = refl
Joined-unbroken (l ∷ []) h = refl
Joined-unbroken (l ∷ m ∷ ls) (e, h) =
    rw (Joined-unbroken (m ∷ ls) h, (eq_iff l.prev_hash m.hash).1 e)

answer : ℕ → List AuditLog → Result ℕ
answer n ls = ok (or_zero (first_broken (map entry (limit n (newest_first ls)))))

verify_chain-runs :
    (n : ℕ) (w : World) → w.faults ≡ [] → (verify_chain n w).0 ≡ answer n w.audit_logs
unfolding verify_chain Audits.verify_chain answer
verify_chain-runs n w f =
    ap (λ x. x.0)
      (statement_runs
        (gets λ v. or_zero (first_broken (map entry (limit n (newest_first v.audit_logs))))) w f)

-- The check of the last `n` rows of a chain finds nothing; the database answers.
pub verify_chain-Intact :
    (lib : Libraries) (n : ℕ) (w : World)
    → w.faults ≡ []
    → Intact lib w
    → (verify_chain n w).0 ≡ ok 0
unfolding answer
verify_chain-Intact lib n w f (_, links) =
    verify_chain-runs n w f
    ∙ ap (λ o. ok (or_zero o))
        (Joined-unbroken (limit n (newest_first w.audit_logs))
          (limit-Joined n (newest_first w.audit_logs) (Linked-Joined lib _ links)))

module _ (f : AuditLog → AuditLog) (same : (l : AuditLog) → entry (f l) ≡ entry l) where
  map-choice :
      (c b : Bool)
      → c ≡ b
      → (xs ys us vs : List AuditLog) → xs ≡ map f us
      → ys ≡ map f vs
      → (if c then xs else ys) ≡ map f (if b then us else vs)
  map-choice true true e xs ys us vs x y = x
  map-choice true false e xs ys us vs x y = absurd (cc)
  map-choice false true e xs ys us vs x y = absurd (cc)
  map-choice false false e xs ys us vs x y = y

  map-insert :
      (l : AuditLog) (ls : List AuditLog)
      → insert_ordered (λ a b. ltb b.id a.id) (f l) (map f ls)
        ≡ map f (insert_ordered (λ a b. ltb b.id a.id) l ls)
  unfolding insert_ordered
  map-insert l [] = refl
  map-insert l (m ∷ ls) =
      let moved : ltb (f l).id (f m).id ≡ ltb l.id m.id =
        ap (λ a. ltb a (f m).id) (ap (λ x. x.id) (same l))
        ∙ ap (ltb l.id) (ap (λ x. x.id) (same m)) in
      map-choice (ltb (f l).id (f m).id) (ltb l.id m.id) moved
        (f m ∷ insert_ordered (λ a b. ltb b.id a.id) (f l) (map f ls)) (f l ∷ f m ∷ map f ls)
        (m ∷ insert_ordered (λ a b. ltb b.id a.id) l ls) (l ∷ m ∷ ls)
        (ap (λ xs. f m ∷ xs) (map-insert l ls)) refl

  map-newest_first : (ls : List AuditLog) → newest_first (map f ls) ≡ map f (newest_first ls)
  unfolding order_by
  map-newest_first [] = refl
  map-newest_first (l ∷ ls) =
      ap (insert_ordered (λ a b. ltb b.id a.id) (f l)) (map-newest_first ls)
      ∙ map-insert l (newest_first ls)

  map-limit : (n : ℕ) (ls : List AuditLog) → map entry (limit n (map f ls)) ≡ map entry (limit n ls)
  unfolding limit
  map-limit zero ls = refl
  map-limit (suc n) [] = refl
  map-limit (suc n) (l ∷ ls) = rw (same l, map-limit n ls)

  -- The check looks at the identifier and the two hashes of a row only: whoever changes any
  -- other column of any row does not change what it finds. The database answers.
  pub verify_chain_blind :
      (n : ℕ) (w : World)
      → w.faults ≡ []
      → (verify_chain n (record w { audit_logs = map f w.audit_logs })).0 ≡ (verify_chain n w).0
  unfolding answer
  verify_chain_blind n w e =
      verify_chain-runs n (record w { audit_logs = map f w.audit_logs }) e
      ∙ ap (λ ls. ok (or_zero (first_broken (map entry (limit n ls)))))
          (map-newest_first w.audit_logs)
      ∙ ap (λ es. ok (or_zero (first_broken es))) (map-limit n (newest_first w.audit_logs))
      ∙ sym (verify_chain-runs n w e)
