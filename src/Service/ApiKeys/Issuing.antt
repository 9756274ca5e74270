-- ===== src/Service/ApiKeys/Issuing.antt =====
-- `Issuing`: the row behind a key that is handed out.
use security_system_gsb.Common.{
  ℕ, ◌+◌, ◌≡◌, refl, String, Bool, true, false, not, none, some, List, [], ◌∷◌, ◌++◌, ◌==◌,
  string_eq, nat_eq, if◌then◌else◌, find, any_where, find-new, inl, inr, ap, sym, ◌∙◌, subst,
  eq_iff,
}
use security_system_gsb.Error.{library, Result, ok, err}
use security_system_gsb.World.{World, Exec, pure, lift, ◌>>=◌}
use security_system_gsb.World.Statements.{with_faults, statement_cases, bind_run}
use security_system_gsb.Model.ApiKey.{
  ApiKey, CreateApiKeyRequest, CreateApiKeyResponse, is_expired, after_expiry,
}
use security_system_gsb.Repository.ApiKeys
use security_system_gsb.Repository.ApiKeys.{has_hash, is_key_of, insert_row, inserted}
use security_system_gsb.Model.User.{User}
use security_system_gsb.Pkg.Libraries.{Libraries}
use security_system_gsb.Pkg.Crypto.{GeneratedKey, generate_api_key, hash_api_key}
use security_system_gsb.Service.ApiKeys.{create, issue, check_scopes, authenticate, new_key}
use security_system_gsb.Service.ApiKeys.Access.{accepted, unexpired}

-- The response of `Create`, in a world that has its row.
abbrev pub Issued : Libraries → List String → CreateApiKeyResponse → World → Type 0
Issued lib scopes resp w =
    (k : ApiKey) × (find (has_hash (hash_api_key lib resp.raw_key)) w.api_keys ≡ some k)
    × (k.id ≡ resp.api_key.id)
    × (k.is_active ≡ true)
    × (k.scopes ≡ scopes)
    × (k.expires_at ≡ resp.api_key.expires_at)

-- A row that is inserted is the one of its hash.
abbrev Inserted : ApiKey → Result ℕ × World → Type 0
Inserted k (r, v) =
    (id : ℕ)
    → r ≡ ok id
    → (row : ApiKey) × (find (has_hash k.key_hash) v.api_keys ≡ some row)
      × (row ≡ record k { id = id; created_at = row.created_at; last_used_at = none })

insert_row-Inserted : (k : ApiKey) (w : World) → Inserted k (insert_row k w)
insert_row-Inserted k w =
    go (any_where (has_hash k.key_hash) w.api_keys)
      (any_where (λ (u : User). u.id == k.owner_id) w.users) refl
  where
    stored : World
    stored = record w {
      api_keys = w.api_keys ++ inserted k w ∷ [];
      serials = record (w.serials) { api_keys = w.serials.api_keys + 1 };
    }

    go :
        (taken owned : Bool)
        → any_where (has_hash k.key_hash) w.api_keys ≡ taken
        → Inserted k (
            if taken
            then (err (library "unique_violation"), w)
            else if not owned
            then (err (library "foreign_key_violation"), w)
            else (ok (w.serials.api_keys + 1), stored))
    go true owned t id e = absurd (cc)
    go false false t id e = absurd (cc)
    go false true t id e = (
      inserted k w,
      find-new (has_hash k.key_hash) w.api_keys (inserted k w) t
          ((eq_iff k.key_hash k.key_hash).1 refl),
      cc,
    )

create-Inserted : (k : ApiKey) (w : World) → Inserted k (ApiKeys.create k w)
unfolding ApiKeys.create
create-Inserted k w = elim (statement_cases (insert_row k) w) [
  | inl (fs, f) ↦ subst (Inserted k) (sym f) (insert_row-Inserted k (with_faults w fs))
  | inr (fs, text, f) ↦ subst (Inserted k) (sym f) (λ id e. absurd (cc))
]

module _ (lib : Libraries) (owner : ℕ) (req : CreateApiKeyRequest) where
  abbrev respond : GeneratedKey → Result ℕ × World → Result CreateApiKeyResponse × World
  respond g (r, v) =
      let body = do
        id ← lift r
        pure
            (record { api_key = record (new_key lib owner req g) { id = id }; raw_key = g.raw_key })
      in body v

  respond-Issued :
      (g : GeneratedKey) (r : Result ℕ) (v : World) (resp : CreateApiKeyResponse)
      → Inserted (new_key lib owner req g) (r, v)
      → (respond g (r, v)).0 ≡ ok resp
      → Issued lib req.scopes resp (respond g (r, v)).1
  respond-Issued g (err x) v resp h e = absurd (cc)
  respond-Issued g (ok id) v resp h e =
      let (row, found, same) = h id refl in
      let answer : CreateApiKeyResponse = record {
        api_key = record (new_key lib owner req g) { id = id };
        raw_key = g.raw_key;
      } in
      let is : Issued lib req.scopes answer v = (
        row,
        found,
        ap (λ x. x.id) same,
        ap (λ x. x.is_active) same,
        ap (λ x. x.scopes) same,
        ap (λ x. x.expires_at) same,
      ) in
      let answered : answer ≡ resp = cc in subst (λ x. Issued lib req.scopes x v) answered is

  issue-Issued :
      (g : GeneratedKey) (w : World) (resp : CreateApiKeyResponse)
      → (issue lib owner req g w).0 ≡ ok resp
      → Issued lib req.scopes resp (issue lib owner req g w).1
  unfolding issue
  issue-Issued g w resp e =
      respond-Issued g (ApiKeys.create (new_key lib owner req g) w).0
        (ApiKeys.create (new_key lib owner req g) w).1 resp
        (create-Inserted (new_key lib owner req g) w) e

  abbrev generate : Exec CreateApiKeyResponse
  generate = do g ← generate_api_key lib; issue lib owner req g

  generate-Issued :
      (w : World) (resp : CreateApiKeyResponse)
      → (generate w).0 ≡ ok resp
      → Issued lib req.scopes resp (generate w).1
  generate-Issued w resp e =
      let (g, same) = bind_run (generate_api_key lib) (issue lib owner req) w e in
      let v : World = (generate_api_key lib w).1 in
      subst (λ x. Issued lib req.scopes resp x.1) (sym same)
        (issue-Issued g v resp (ap (λ x. x.0) (sym same) ∙ e))

  create-Issued :
      (w : World) (resp : CreateApiKeyResponse)
      → (create lib owner req w).0 ≡ ok resp
      → Issued lib req.scopes resp (create lib owner req w).1
  unfolding create
  create-Issued w resp e =
      let (_, same) = bind_run (lift (check_scopes req.scopes)) (λ _. generate) w e in
      subst (λ x. Issued lib req.scopes resp x.1) (sym same)
        (generate-Issued w resp (ap (λ x. x.0) (sym same) ∙ e))

  same_expiry :
      (t : ℕ) (k j : ApiKey) → k.expires_at ≡ j.expires_at → is_expired t k ≡ is_expired t j
  unfolding is_expired
  same_expiry t k j e = ap (after_expiry t) e

  -- A key that `Create` has returned is accepted until it expires, as a key with that identifier
  -- and the scopes that were asked for. The database accepts every statement of `Authenticate`,
  -- and no other request runs in between.
  pub create-authenticate :
      (w : World) (resp : CreateApiKeyResponse) (t : ℕ)
      → (create lib owner req w).0 ≡ ok resp
      → is_expired t resp.api_key ≡ false
      → (k : ApiKey) × ((authenticate lib resp.raw_key
            (record (create lib owner req w).1 { now = t; faults = [] })).0
          ≡ ok k)
        × (k.id ≡ resp.api_key.id)
        × (k.scopes ≡ req.scopes)
  create-authenticate w resp t e fresh =
      let (k, found, id, active, scopes, expiry) = create-Issued w resp e in
      let v : World = record (create lib owner req w).1 { now = t; faults = [] } in
      (
        k,
        ap (λ x. x.0) (accepted lib resp.raw_key v k refl found)
            ∙ unexpired lib resp.raw_key k v active (same_expiry t k resp.api_key expiry ∙ fresh),
        id,
        scopes,
      )
