-- ===== src/Service/ApiKeys/Access.antt =====
-- `Access`: which keys let their bearer in.
use security_system_gsb.Common.{
  ℕ, ◌≡◌, refl, String, true, false, not, ◌&&◌, Option, none, some, [], string_eq, nat_eq,
  if◌then◌else◌, find, update_where, find-update_any, inl, inr, ap, sym, ◌∙◌, arith,
}
use security_system_gsb.Error.{api_key_not_found, is_not_found, Result, ok, err}
use security_system_gsb.World.{
  World, statement, one_row, pure, gets, lift, attempt, guard, ◌>>=◌, ◌>>◌,
}
use security_system_gsb.World.Statements.{with_faults, statement_cases, statement_runs}
use security_system_gsb.Model.ApiKey.{ApiKey, is_expired}
use security_system_gsb.Repository.ApiKeys
use security_system_gsb.Repository.ApiKeys.{has_hash, is_key_of, insert_row, inserted}
use security_system_gsb.Pkg.Libraries.{Libraries}
use security_system_gsb.Pkg.Crypto.{hash_api_key}
use security_system_gsb.Service.ApiKeys.{or_no_key, authenticate, revoke}

module _ (lib : Libraries) (raw : String) where
  -- `Authenticate` on the row that its query finds.
  abbrev pub let_in : Result ApiKey × World → Result ApiKey × World
  let_in (found, v) =
      let body = do
        key ← lift (or_no_key found)
        now ← gets (λ w. w.now)
        guard (key.is_active && not (is_expired now key)) api_key_not_found
        stamped ← attempt (ApiKeys.update_last_used key.id)
        pure key
      in body v

  authenticate_found :
      (w : World)
      → authenticate lib raw w ≡ let_in (ApiKeys.find_by_key_hash (hash_api_key lib raw) w)
  unfolding authenticate
  authenticate_found w = refl

  let_in_sound :
      (o : Option ApiKey) (v : World) (k : ApiKey)
      → (let_in (one_row o, v)).0 ≡ ok k
      → (o ≡ some k) × (k.is_active ≡ true) × (is_expired v.now k ≡ false)
  unfolding is_not_found
  let_in_sound none v k e = absurd (cc)
  let_in_sound (some key) v k e = ground arith

  -- A raw key is accepted only where the row of its hash is active and has not expired.
  pub authenticate_sound :
      (w : World) (k : ApiKey)
      → (authenticate lib raw w).0 ≡ ok k
      → (find (has_hash (hash_api_key lib raw)) w.api_keys ≡ some k)
        × (k.is_active ≡ true)
        × (is_expired w.now k ≡ false)
  unfolding ApiKeys.find_by_key_hash is_not_found
  authenticate_sound w k e =
      elim (statement_cases (λ v. (one_row (find (has_hash (hash_api_key lib raw)) v.api_keys), v))
        w) [
          | inl (fs, f) ↦
              let_in_sound (find (has_hash (hash_api_key lib raw)) w.api_keys) (with_faults w fs) k
                (ap (λ x. (let_in x).0) (sym f) ∙ ap (λ x. x.0) (sym (authenticate_found w)) ∙ e)
          | inr (fs, text, f) ↦
              absurd (
                cc
                  (ap (λ x. (let_in x).0) (sym f) ∙ ap (λ x. x.0) (sym (authenticate_found w)) ∙ e))
        ]

  pub accepted :
      (w : World) (k : ApiKey)
      → w.faults ≡ []
      → find (has_hash (hash_api_key lib raw)) w.api_keys ≡ some k
      → authenticate lib raw w ≡ let_in (ok k, with_faults w [])
  unfolding ApiKeys.find_by_key_hash
  accepted w k f found =
      authenticate_found w
      ∙ ap let_in (
          statement_runs (λ v. (one_row (find (has_hash (hash_api_key lib raw)) v.api_keys), v)) w f
          ∙ ap (λ o. (one_row o, with_faults w [])) found)

  own_key :
      (k : ApiKey)
      → some (if is_key_of k.id k.owner_id k then record k { is_active = false } else k)
        ≡ some (record k { is_active = false })
  own_key k = ground arith

  revoke_runs :
      (id owner : ℕ) (w : World)
      → w.faults ≡ []
      → (revoke id owner w).1 ≡ record (with_faults w []) {
        api_keys =
            update_where (is_key_of id owner) (λ r. record r { is_active = false }) w.api_keys;
      }
  unfolding revoke ApiKeys.revoke statement
  revoke_runs id owner w f = rw (f)

  pub unexpired :
      (k : ApiKey) (v : World)
      → k.is_active ≡ true
      → is_expired v.now k ≡ false
      → (let_in (ok k, v)).0 ≡ ok k
  unfolding is_expired
  unexpired k v active fresh = rw (active, fresh)

  -- Once its owner has revoked it, a key is refused at every time. The database accepts every
  -- statement, and no other request runs in between.
  pub revoke-authenticate :
      (w : World) (k : ApiKey)
      → w.faults ≡ []
      → find (has_hash (hash_api_key lib raw)) w.api_keys ≡ some k
      → (t : ℕ)
      → (authenticate lib raw (record (revoke k.id k.owner_id w).1 { now = t })).0
        ≡ err api_key_not_found
  revoke-authenticate w k f found t =
      let v : World = record (with_faults w []) {
        api_keys =
            update_where (is_key_of k.id k.owner_id) (λ r. record r { is_active = false })
              w.api_keys;
        now = t;
      } in
      ap (λ x. (authenticate lib raw (record x { now = t })).0) (revoke_runs k.id k.owner_id w f)
      ∙ ap (λ x. x.0)
          (accepted v (record k { is_active = false }) refl
            (find-update_any (has_hash (hash_api_key lib raw)) (is_key_of k.id k.owner_id)
                (λ r. record r { is_active = false }) (λ r. refl) w.api_keys k found
              ∙ own_key k))
