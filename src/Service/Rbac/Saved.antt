-- ===== src/Service/Rbac/Saved.antt =====
-- `Saved`: which permissions a role has been given when `SavePermissions` returns without an error.
use security_system_gsb.Common.{
  ℕ, ◌≡◌, refl, ap, sym, ◌∙◌, inl, inr, Bool, true, false, not, ◌&&◌, ◌||◌, List, [], ◌∷◌, ◌==◌,
  nat_eq, string_eq, if◌then◌else◌, any_where, select, contains, Bool-cases, Option-cases, arith,
}
use security_system_gsb.Error.{Result, ok, err}
use security_system_gsb.World.{World, statement, continue}
use security_system_gsb.World.Statements.{with_faults}
use security_system_gsb.Model.Role.{RolePermission}
use security_system_gsb.Repository.Roles
use security_system_gsb.Repository.Roles.{
  Tx, is_link, perm_exists, is_role, insert_links, save_permissions, delete_links, commit,
}

-- What saving the permissions of a role leaves alone, where the database answers.
pub insert_links-same :
    (role : ℕ) (perms : List ℕ) (tx : Tx) (w : World)
    → (insert_links role perms tx (with_faults w [])).1 ≡ with_faults w []
unfolding insert_links statement
insert_links-same role [] tx w = refl
insert_links-same role (perm ∷ perms) tx w =
    let r = Roles.insert_link role perm (with_faults w []) tx in
    elim (Option-cases r.0) [
      | inl fine ↦ rw fine (insert_links-same role perms r.1 w)
      | inr (code, bad) ↦ elim (Bool-cases (code == "23505")) [
        | inl duplicate ↦ rw (bad, duplicate) (insert_links-same role perms r.1 w)
        | inr other ↦ rw (bad, other)
      ]
    ]

-- Whether the rows give the role the permission.
abbrev pub has_link : ℕ → ℕ → List RolePermission → Bool
has_link r p rows = any_where (is_link r p) rows

-- The loop cannot go on in a transaction that has failed.
failed_stays :
    (role : ℕ) (perms : List ℕ) (tx tx' : Tx) (w : World)
    → tx.failed ≡ true
    → (insert_links role perms tx (with_faults w [])).0 ≡ ok tx'
    → tx'.failed ≡ true
unfolding insert_links statement
failed_stays role [] tx tx' w failed e =
    let same : tx ≡ tx' = cc in ap (λ t. t.failed) (sym same) ∙ failed
failed_stays role (perm ∷ perms) tx tx' w failed e = absurd (cc (rw failed at e))

abbrev with_link : ℕ → ℕ → Tx → Tx
with_link role perm tx = record { rows = Roles.link role perm ∷ tx.rows; failed = false }

insert_links-has_link :
    (role : ℕ) (perms : List ℕ) (tx tx' : Tx) (w : World) (r p : ℕ)
    → tx.failed ≡ false
    → tx'.failed ≡ false
    → (insert_links role perms tx (with_faults w [])).0 ≡ ok tx'
    → has_link r p tx'.rows ≡ (has_link r p tx.rows || role == r && contains p perms)
unfolding insert_links contains any_where statement
insert_links-has_link role [] tx tx' w r p fine fine' e =
    let same : tx ≡ tx' = cc in ap (λ t. has_link r p t.rows) (sym same) ∙ ground arith
insert_links-has_link role (perm ∷ perms) tx tx' w r p fine fine' e =
    elim (Bool-cases (has_link role perm tx.rows)) [
      | inl duplicate ↦
          let failed =
            failed_stays role perms (record tx { failed = true }) tx' w refl
              (rw (fine, duplicate) at e) in
          absurd (cc)
      | inr new ↦ elim (Bool-cases (perm_exists perm w && is_role role w)) [
        | inr missing ↦ absurd (cc (rw (fine, new, missing) at e))
        | inl there ↦
            insert_links-has_link role perms (with_link role perm tx) tx' w r p refl fine'
              (rw (fine, new, there) at e)
            ∙ ground arith
      ]
    ]

delete_links-has_link :
    (role r p : ℕ) (rows : List RolePermission)
    → has_link r p (select (λ l. not (l.role_id == role)) rows)
      ≡ (if role == r then false else has_link r p rows)
unfolding any_where select
delete_links-has_link role r p [] = ground arith
delete_links-has_link role r p (l ∷ rows) = ground (arith, delete_links-has_link role r p rows)

abbrev pub Sets : ℕ → List ℕ → ℕ → ℕ → World → World → Type 0
Sets role perms r p w v =
    has_link r p v.role_permissions
    ≡ (if role == r then contains p perms else has_link r p w.role_permissions)

commit-Sets :
    (role : ℕ) (perms : List ℕ) (m : Result Tx) (w v : World) (r p : ℕ)
    → (insert_links role perms (delete_links role w) (with_faults w [])).0 ≡ m
    → v ≡ with_faults w []
    → (continue m (λ tx. statement (commit tx)) v).0 ≡ ok tt
    → Sets role perms r p w (continue m (λ tx. statement (commit tx)) v).1
unfolding statement
commit-Sets role perms (err e) w v r p run same saved = absurd (cc)
commit-Sets role perms (ok tx) w v r p run same saved = elim (Bool-cases tx.failed) [
  | inl failed ↦ absurd (cc (rw (same, failed) at saved))
  | inr fine ↦
      let linked = insert_links-has_link role perms (delete_links role w) tx w r p refl fine run in
      let deleted = delete_links-has_link role r p w.role_permissions in
      rw (same, fine) (ground (arith, linked, deleted))
]

-- Saving the permissions of a role without an error leaves the role with the permissions of the
-- list, and each other role with what it had.
pub save_permissions-Sets :
    (role : ℕ) (perms : List ℕ) (w : World) (r p : ℕ)
    → (save_permissions role perms (with_faults w [])).0 ≡ ok tt
    → Sets role perms r p w (save_permissions role perms (with_faults w [])).1
unfolding save_permissions statement
save_permissions-Sets role [] w r p saved =
    let run = insert_links role [] (delete_links role w) (with_faults w []) in
    commit-Sets role [] run.0 w run.1 r p refl (insert_links-same role [] (delete_links role w) w)
      saved
save_permissions-Sets role (perm ∷ perms) w r p saved =
    let run = insert_links role (perm ∷ perms) (delete_links role w) (with_faults w []) in
    commit-Sets role (perm ∷ perms) run.0 w run.1 r p refl
      (insert_links-same role (perm ∷ perms) (delete_links role w) w) saved
