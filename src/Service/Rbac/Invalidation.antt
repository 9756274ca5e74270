-- ===== src/Service/Rbac/Invalidation.antt =====
-- `Invalidation`: what dropping users' permissions from the cache leaves in it.
use security_system_gsb.Common.{
  ℕ, ◌≡◌, ◌⊎◌, inl, inr, refl, ap, ◌∙◌, Bool, true, some, none, List, [], ◌∷◌, map, select, find,
  contains, ◌==◌, nat_eq, string_eq, nat_beq_iff, Bool-cases, arith, if◌then◌else◌, has_key,
}
use security_system_gsb.Error.{ok}
use security_system_gsb.World.{World, statement}
use security_system_gsb.World.Statements.{with_faults}
use security_system_gsb.Model.User.{User}
use security_system_gsb.Repository.Users.{user_id}
use security_system_gsb.Repository.Roles
use security_system_gsb.Repository.Roles.{Tx, insert_links, save_permissions, delete_links, commit}
use security_system_gsb.Service.Rbac.{Cache, get, without, invalidate_users, invalidate_roles}

pub get-without :
    (user other : ℕ) (store : Cache)
    → get other (without user store) ≡ (if other == user then none else get other store)
unfolding get without
get-without user other [] = ground arith
get-without user other ((u, perms) ∷ store) = ground (arith, get-without user other store)

contains-map :
    {A : Type 0} (f : A → ℕ) (p q : A → Bool) (xs : List A) (a : A)
    → find p xs ≡ some a
    → q a ≡ true
    → contains (f a) (map f (select q xs)) ≡ true
unfolding contains find select
contains-map f p q [] a e hit = absurd (cc)
contains-map f p q (x ∷ xs) a e hit = elim (Bool-cases (p x)) [
  | inl here ↦
      let e2 : some x ≡ some a = rw here at e in
      let same : x ≡ a = cc in
      let kept : q x ≡ true = rw same hit in
      let self : (f x == f a) ≡ true = (nat_beq_iff (f x) (f a)).1 (ap f same) in
      rw kept (ground arith)
  | inr not_here ↦
      let rest = contains-map f p q xs a (rw not_here at e) hit in
      elim (Bool-cases (q x)) [ inl kept ↦ rw kept (ground arith) | inr dropped ↦ rw dropped rest ]
]

invalidate_users-get :
    (us : List ℕ) (user : ℕ) (w : World)
    → (contains user us ≡ true) ⊎ (get user w.perm_cache ≡ none)
    → get user (invalidate_users us w).1.perm_cache ≡ none
unfolding invalidate_users contains
invalidate_users-get [] user w (inl seen) = absurd (cc)
invalidate_users-get [] user w (inr cold) = cold
invalidate_users-get (u ∷ us) user w h =
    invalidate_users-get us user (record w { perm_cache = without u w.perm_cache }) (later h)
  where
    later :
        (contains user (u ∷ us) ≡ true) ⊎ (get user w.perm_cache ≡ none)
        → (contains user us ≡ true) ⊎ (get user (without u w.perm_cache) ≡ none)
    later h = elim (Bool-cases (user == u)) [
      | inl same ↦ inr (rw (get-without u user w.perm_cache, same))
      | inr other ↦ elim h [
        | inl seen ↦ inl (ground arith)
        | inr cold ↦ inr (rw (get-without u user w.perm_cache, other) cold)
      ]
    ]

invalidate_users-users :
    (us : List ℕ) (w : World)
    → ((invalidate_users us w).1.users ≡ w.users)
      × ((invalidate_users us w).1.faults ≡ w.faults)
      × ((invalidate_users us w).0 ≡ ok tt)
unfolding invalidate_users
invalidate_users-users [] w = (refl, refl, refl)
invalidate_users-users (u ∷ us) w =
    invalidate_users-users us (record w { perm_cache = without u w.perm_cache })

-- The users that have a role.
abbrev members : ℕ → World → List ℕ
members id w = map (λ (x : User). x.id) (select (λ x. x.role_id == id) w.users)

pub invalidate_roles-get :
    (ids : List ℕ) (n : ℕ) (u : User) (w : World)
    → find (has_key user_id n) w.users ≡ some u
    → (contains u.role_id ids ≡ true) ⊎ (get u.id w.perm_cache ≡ none)
    → get u.id (invalidate_roles ids (with_faults w [])).1.perm_cache ≡ none
unfolding invalidate_roles contains Roles.find_users_with_role statement
invalidate_roles-get [] n u w found (inl seen) = absurd (cc)
invalidate_roles-get [] n u w found (inr cold) = cold
invalidate_roles-get (id ∷ ids) n u w found h =
    let us = members id w in
    let v = (invalidate_users us (with_faults w [])).1 in
    let (users, faults, done) = invalidate_users-users us (with_faults w []) in
    let same : v ≡ with_faults v [] = ap (with_faults v) faults in
    let rest = invalidate_roles-get ids n u v (rw users found) later in
    rw (done) (ap (λ x. get u.id (invalidate_roles ids x).1.perm_cache) same ∙ rest)
  where
    later :
        (contains u.role_id ids ≡ true)
        ⊎ (get u.id (invalidate_users (members id w) (with_faults w [])).1.perm_cache ≡ none)
    later = elim (Bool-cases (u.role_id == id)) [
      | inl mine ↦ inr (
          invalidate_users-get (members id w) u.id (with_faults w []) (
            inl (
              contains-map (λ x. x.id) (has_key user_id n) (λ x. x.role_id == id) w.users u found
                mine)))
      | inr other ↦ elim h [
        | inl seen ↦ inl (ground arith)
        | inr cold ↦ inr (invalidate_users-get (members id w) u.id (with_faults w []) (inr cold))
      ]
    ]

invalidate_users-links :
    (us : List ℕ) (w : World) → (invalidate_users us w).1.role_permissions ≡ w.role_permissions
unfolding invalidate_users
invalidate_users-links [] w = refl
invalidate_users-links (u ∷ us) w =
    invalidate_users-links us (record w { perm_cache = without u w.perm_cache })

pub invalidate_roles-links :
    (ids : List ℕ) (w : World)
    → (invalidate_roles ids (with_faults w [])).1.role_permissions ≡ w.role_permissions
unfolding invalidate_roles Roles.find_users_with_role statement
invalidate_roles-links [] w = refl
invalidate_roles-links (id ∷ ids) w =
    let us = members id w in
    let v = (invalidate_users us (with_faults w [])).1 in
    let (users, faults, done) = invalidate_users-users us (with_faults w []) in
    let same : v ≡ with_faults v [] = ap (with_faults v) faults in
    rw (done) (
      ap (λ x. (invalidate_roles ids x).1.role_permissions) same
      ∙ invalidate_roles-links ids v
      ∙ invalidate_users-links us (with_faults w []))
