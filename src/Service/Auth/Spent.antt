-- ===== src/Service/Auth/Spent.antt =====
-- `Spent`: a token that was exchanged stays that of a revoked session, whatever is issued next.
use security_system_gsb.Common.{
  find-append, find-update_other, update_none, any_found, ℕ, ◌+◌, ◌≡◌, ◌≤◌, ◌<◌, refl, ap, ◌∙◌,
  String, true, not, ◌&&◌, some, find, find_holds, find-update_any, has_key, any_where, ◌==◌,
  nat_eq, string_eq, Bool-cases, inl, inr, nat_beq_iff, arith, eq_iff,
}
use security_system_gsb.Error.{Error, Result, Result-cases, ok, err}
use security_system_gsb.World.{World}
use security_system_gsb.World.Statements.{with_faults, statement_elim}
use security_system_gsb.Model.User.{User}
use security_system_gsb.Model.Session.{Session}
use security_system_gsb.Pkg.Libraries.{Libraries}
use security_system_gsb.Pkg.Jwt.{generate_access, generate_refresh}
use security_system_gsb.Service.Auth.{AuthService, issue_tokens, new_session, refresh}
use security_system_gsb.Repository.Sessions.{
  has_token, session_id, create, update_refresh_token, revoke, revoked,
}

module _ (token : String) (j : ℕ) where
  -- The token is that of session `j`, which is revoked, and later sessions have other identifiers.
  pub record Spent (w : World) : Type 0 where
    pub holder : Session
    pub found : find (has_token token) w.sessions ≡ some holder
    pub is_holder : holder.id ≡ j
    pub revoked : holder.is_revoked ≡ true
    pub earlier : j ≤ w.serials.sessions

  moved :
      (w v : World) (s : Spent w)
      → v.serials ≡ w.serials
      → find (has_token token) v.sessions ≡ some s.holder
      → Spent v
  moved w v s serials found = record {
    holder = s.holder;
    found = found;
    is_holder = s.is_holder;
    revoked = s.revoked;
    earlier = rw serials s.earlier;
  }

  abbrev Later : Result ℕ × World → Type 0
  Later out = Spent out.1 × ((id : ℕ) → out.0 ≡ ok id → j < id)

  same_Later :
      (x : Error) (w v : World)
      → v.sessions ≡ w.sessions
      → v.serials ≡ w.serials
      → Spent w
      → Later (err x, v)
  same_Later x w v same serials s =
      (moved w v s serials (ap (find (has_token token)) same ∙ s.found), λ id e. absurd (cc))

  pub create-Spent : (new : Session) (w : World) → Spent w → Later (create new w)
  unfolding create
  create-Spent new w s =
      statement_elim Later _ w
        (λ fs. elim (Bool-cases (any_where (has_token new.refresh_token) w.sessions)) [
          | inl taken ↦ rw taken (same_Later _ w (with_faults w fs) refl refl s)
          | inr free ↦ elim (Bool-cases (any_where (λ (u : User). u.id == new.user_id) w.users)) [
            | inr nobody ↦ rw (free, nobody) (same_Later _ w (with_faults w fs) refl refl s)
            | inl there ↦
                rw (free, there)
                  (
                    record {
                      holder = s.holder;
                      found = find-append (has_token token) w.sessions _ s.holder s.found;
                      is_holder = s.is_holder;
                      revoked = s.revoked;
                      earlier = omega (arith, s.earlier);
                    },
                    λ id e.
                        let same : id ≡ w.serials.sessions + 1 = cc in
                        omega (arith, same, s.earlier),
                  )
          ]
        ])
        (λ fs text. same_Later _ w (with_faults w fs) refl refl s)

  pub update-Spent :
      (id : ℕ) (other : String) (w : World)
      → j < id
      → Spent w
      → Spent (update_refresh_token id other w).1
  unfolding update_refresh_token
  update-Spent id other w later s =
      statement_elim (λ out. Spent out.1) _ w
        (λ fs. elim (Bool-cases (any_where (has_key session_id id) w.sessions)) [
          | inr absent ↦ rw absent (
              moved w _ s refl (
                ap (find (has_token token))
                  (update_none (has_key session_id id) _ w.sessions absent)
                ∙ s.found))
          | inl there ↦
              elim (Bool-cases
                (any_where (λ r. not (r.id == id) && r.refresh_token == other) w.sessions)) [
                  | inl taken ↦ rw (there, taken) (moved w _ s refl s.found)
                  | inr free ↦ elim (Bool-cases (other == token)) [
                    | inl same ↦
                        let holds = find_holds (has_token token) w.sessions s.holder s.found in
                        let clash : (not (s.holder.id == id) && s.holder.refresh_token == other)
                            ≡ true =
                          ground (
                            arith,
                            s.is_holder,
                            later,
                            same,
                            holds,
                            eq_iff s.holder.refresh_token token,
                            eq_iff other token,
                            eq_iff s.holder.refresh_token other,
                          ) in
                        absurd (
                          cc (
                            free,
                            any_found (has_token token)
                                (λ r. not (r.id == id) && r.refresh_token == other) w.sessions
                                s.holder s.found clash,
                          ))
                    | inr differs ↦
                        rw (there, free)
                          (moved w _ s refl (
                            find-update_other (has_token token) (has_key session_id id) _
                              (λ x. differs) w.sessions s.holder s.found
                              (ground (arith, s.is_holder, later))))
                  ]
                ]
        ])
        (λ fs text. moved w _ s refl s.found)

module _ (lib : Libraries) (s : AuthService) (ip ua : String) where
  pub issue-Spent :
      (token : String) (j : ℕ) (user : User) (w : World)
      → Spent token j w
      → Spent token j (issue_tokens lib s user ip ua w).1
  unfolding issue_tokens
  issue-Spent token j user w spent =
      let new = new_session s w.now user.id ip ua in
      let (kept, later) = create-Spent token j new w spent in
      let v = (create new w).1 in
      elim (Result-cases (create new w).0) [
        | inr (e, failed) ↦ rw failed kept
        | inl (id, made) ↦
            elim (Result-cases (generate_refresh lib w.now id s.jwt_refresh s.refresh_exp)) [
              | inr (e, unsigned) ↦ rw (made, unsigned) kept
              | inl (refresh, signed) ↦
                  let done = update-Spent token j id refresh v (later id made) kept in
                  elim (Result-cases (update_refresh_token id refresh v).0) [
                    | inr (e, failed) ↦ rw (made, signed, failed) done
                    | inl (_, saved) ↦
                        elim (Result-cases (
                          generate_access lib w.now user.id user.role_id user.username s.jwt_access
                            s.access_exp)) [
                              | inr (e, failed) ↦ rw (made, signed, saved, failed) done
                              | inl (access, ready) ↦ rw (made, signed, saved, ready) done
                            ]
                  ]
            ]
      ]

pub revoke-Spent :
    (token : String) (old : Session) (w : World)
    → find (has_token token) w.sessions ≡ some old
    → old.id ≤ w.serials.sessions
    → (revoke old.id w).0 ≡ ok tt
    → Spent token old.id (revoke old.id w).1
unfolding revoke
revoke-Spent token old w found early =
    statement_elim (λ out. out.0 ≡ ok tt → Spent token old.id out.1) _ w
      (λ fs done.
        let mine : (old.id == old.id) ≡ true = (nat_beq_iff old.id old.id).1 refl in
        let there =
          find-update_any (has_token token) (has_key session_id old.id) (revoked w.now) (λ r. refl)
            w.sessions old found in
        record {
          holder = revoked w.now old;
          found = rw mine at there;
          is_holder = refl;
          revoked = refl;
          earlier = early;
        })
      (λ fs text failed. absurd (cc))
