-- ===== src/Handler/Escalation.antt =====
-- `Escalation`: the ranks that the user handlers let a caller give away.
use security_system_gsb.Common.{
  ℕ, ◌≡◌, ◌<◌, refl, ap, sym, ◌∙◌, String, Bool, true, false, List, [], arith, leb, ◌&&◌,
  Bool-cases, inl, inr, some, Option-cases, ◌⊎◌, find, has_key, ◌≢◌, nat_eq, ltb,
}
use security_system_gsb.Error.{Result, Result-cases, ok}
use security_system_gsb.World.{World}
use security_system_gsb.Model.User.{User, CreateUserRequest, UpdateUserRequest}
use security_system_gsb.Model.Role.{perm_user_write}
use security_system_gsb.Http.{
  Context, reply, call, or_message, response, status_ok, status_bad_request, done, caller_id,
  caller_role, ◌>>=◌, ◌>>◌,
}
use security_system_gsb.Http.Success.{Success}
use security_system_gsb.Pkg.Libraries.{Libraries}
use security_system_gsb.Service.Rbac.{Cache}
use security_system_gsb.Service.Rbac.Ranks.{depth, role_rank-depth, has_permission_quiet}
use security_system_gsb.Handler.Calls.{permits, rank_of, log_entry, entry_of}
use security_system_gsb.Handler.Users
use security_system_gsb.Handler.Users.{is_self, may_give}
use security_system_gsb.Service.Audit
use security_system_gsb.Model.Audit.{AuditLogEntry}
use security_system_gsb.Service.Users.Assigned.{update-role}
use security_system_gsb.Repository.Users.{user_id}
use security_system_gsb.Service.Users as Accounts
use security_system_gsb.Strconv.{ℤ, pos, negsuc, to_nat, parse_int, format_int64}

-- Where the database answers, the answer to a request to create a user is a success (a status
-- below 400) only if the request names a role that is less deep in the role tree than the
-- caller's.
pub create_below :
    (lib : Libraries) (body : Result CreateUserRequest) (c : Context) (w : World)
    → w.faults ≡ []
    → Success (Users.create lib body c w)
    → (req : CreateUserRequest) × (body ≡ ok req)
      × (depth w.roles req.role_id < depth w.roles (caller_role c))
unfolding Users.create Users.outranks permits rank_of
create_below lib body c w f s =
    let (b, cache, run) = has_permission_quiet (caller_role c) (caller_id c) perm_user_write w f in
    let v = record w { perm_cache = cache; faults = [] } in
    elim (Bool-cases b) [
      | inr no_ ↦ absurd (omega (arith, rw (run, no_) at s))
      | inl yes_ ↦ elim (Result-cases body) [
        | inr (e, bad) ↦ absurd (omega (arith, rw (run, yes_, bad) at s))
        | inl (req, good) ↦
            elim (Bool-cases (leb (depth w.roles (caller_role c)) (depth w.roles req.role_id))) [
              | inl low ↦ absurd (
                  omega (
                    arith,
                    rw
                        (
                          run,
                          yes_,
                          good,
                          role_rank-depth (caller_role c) v refl,
                          role_rank-depth req.role_id v refl,
                          low,
                        )
                        at s,
                  ))
              | inr high ↦ (req, good, ground arith)
            ]
      ]
    ]

-- The role of a request is one that the caller may give to the user.
abbrev MayGive : Context → World → ℤ → ℕ → Type 0
MayGive c w id role =
    (role ≡ 0) ⊎ ((is_self c id ≡ false) × (depth w.roles role < depth w.roles (caller_role c)))

-- The update changes no user, or the service does it in a world where only the cache differs.
abbrev Allowed : Context → World → List User → Type 0
Allowed c w users =
    (users ≡ w.users)
    ⊎ ((id : ℤ) × (req : UpdateUserRequest) × (cache : Cache) × MayGive c w id req.role_id
        × (users
            ≡ (Accounts.update (to_nat id) req
                (record w { perm_cache = cache; faults = [] })).1.users))

-- What the handler goes on with once the checks are passed.
saved :
    (c : Context) (id : ℤ) (req : UpdateUserRequest) (entry : AuditLogEntry) (text : String)
    (v : World)
    → let tail = do
      updated ← call (Accounts.update (to_nat id) req)
      or_message updated status_bad_request
      log_entry entry
      reply status_ok (done text)
      in (response (tail v)).1.users ≡ (Accounts.update (to_nat id) req v).1.users
unfolding Audit.log
saved c id req entry text v = elim (Result-cases (Accounts.update (to_nat id) req v).0) [
  | inl (_, done_) ↦ rw done_
  | inr (e, failed) ↦ rw failed
]

and_false : (b : Bool) → (b && false) ≡ false
and_false true = refl
and_false false = refl

update-Allowed :
    (c : Context) (w : World) (body : Result UpdateUserRequest)
    → w.faults ≡ []
    → Allowed c w (Users.update body c w).1.users
unfolding Users.update Users.outranks permits rank_of
update-Allowed c w body f =
    let (b, cache, run) = has_permission_quiet (caller_role c) (caller_id c) perm_user_write w f in
    let v = record w { perm_cache = cache; faults = [] } in
    elim (Bool-cases b) [
      | inr no_ ↦ inl (rw (run, no_))
      | inl yes_ ↦ elim (Option-cases (parse_int c.id_param)) [
        | inl bad ↦ inl (rw (run, yes_, bad))
        | inr (id, parsed) ↦ elim (Result-cases body) [
          | inr (e, bad) ↦ inl (rw (run, yes_, parsed, bad))
          | inl (req, good) ↦ elim (Bool-cases (ltb 0 req.role_id)) [
            | inr none_named ↦ inr (
              id,
              req,
              cache,
              inl (ground arith),
              rw (run, yes_, parsed, good, none_named, and_false (is_self c id))
                  (saved c id req (entry_of c "update_user" "user" (format_int64 id) "") "更新成功" v),
            )
            | inl named ↦ elim (Bool-cases (is_self c id)) [
              | inl self ↦ inl (rw (run, yes_, parsed, good, named, self))
              | inr other ↦
                  let mine = role_rank-depth (caller_role c) v refl in
                  let theirs = role_rank-depth req.role_id v refl in
                  elim (Bool-cases
                    (leb (depth w.roles (caller_role c)) (depth w.roles req.role_id))) [
                      | inl low ↦
                          inl (rw (run, yes_, parsed, good, named, other, mine, theirs, low))
                      | inr high ↦ inr (
                        id,
                        req,
                        cache,
                        inr (other, ground arith),
                        rw (run, yes_, parsed, good, named, other, mine, theirs, high)
                            (saved c id req (entry_of c "update_user" "user" (format_int64 id) "")
                              "更新成功" v),
                      )
                    ]
            ]
          ]
        ]
      ]
    ]

not_self :
    (c : Context) (id : ℤ) (j : ℕ)
    → 0 < caller_id c
    → is_self c id ≡ false
    → j ≡ to_nat id
    → j ≢ caller_id c
not_self c (pos n) j known other here = ground arith
not_self c (negsuc n) j known other here = omega arith

-- Where the caller is a user and the database answers, an update, whatever it is answered, leaves
-- each user with the role that the user had, or the user is not the caller and the new role is
-- less deep in the role tree than the caller's.
pub update_below :
    (c : Context) (w : World) (body : Result UpdateUserRequest) (j : ℕ) (u v : User)
    → w.faults ≡ []
    → 0 < caller_id c
    → find (has_key user_id j) w.users ≡ some u
    → find (has_key user_id j) (Users.update body c w).1.users ≡ some v
    → (v.role_id ≡ u.role_id)
      ⊎ ((j ≢ caller_id c) × (depth w.roles v.role_id < depth w.roles (caller_role c)))
update_below c w body j u v f known before after = elim (update-Allowed c w body f) [
  | inl same ↦
      let e : some u ≡ some v = sym before ∙ rw same at after in
      let one : v ≡ u = cc in inl (ap (λ y. y.role_id) one)
  | inr (id, req, cache, may, run) ↦
      let x = record w { perm_cache = cache; faults = [] } in
      elim (update-role (to_nat id) req x j u v before (rw run at after)) [
        | inl kept ↦ inl kept
        | inr (here, role, named) ↦ elim may [
          | inl none_named ↦ absurd (named none_named)
          | inr (other, lower) ↦ inr (not_self c id j known other here, rw (role) lower)
        ]
      ]
]
