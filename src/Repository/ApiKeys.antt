-- ===== src/Repository/ApiKeys.antt =====
-- internal/repository/apikey_repo.go, over `api_keys`.
use security_system_gsb.Common.{
  ℕ, ◌+◌, String, Bool, false, not, ◌&&◌, none, some, List, [], ◌∷◌, ◌++◌, map, ltb, ◌==◌, nat_eq,
  string_eq, if◌then◌else◌, find, has_key, select, update_where, count_where, any_where, order_by,
}
use security_system_gsb.Error.{library, not_found, ok, err}
use security_system_gsb.World.{World, Exec, statement, one_row, gets, modify}
use security_system_gsb.Model.User.{User}
use security_system_gsb.Model.ApiKey.{ApiKey}

abbrev pub key_id : ApiKey → ℕ
key_id k = k.id

abbrev pub has_hash : String → ApiKey → Bool
has_hash hash k = k.key_hash == hash

abbrev pub inserted : ApiKey → World → ApiKey
inserted k w = record k { id = w.serials.api_keys + 1; last_used_at = none; created_at = w.now }

-- Returns the new row's identifier.
abbrev pub insert_row : ApiKey → Exec ℕ
insert_row k w =
    if any_where (has_hash k.key_hash) w.api_keys
    then (err (library "unique_violation"), w)
    else if not (any_where (λ (u : User). u.id == k.owner_id) w.users)
    then (err (library "foreign_key_violation"), w)
    else (
      ok (w.serials.api_keys + 1),
      record w {
        api_keys = w.api_keys ++ inserted k w ∷ [];
        serials = record (w.serials) { api_keys = w.serials.api_keys + 1 };
      },
    )

unfoldable pub create : ApiKey → Exec ℕ
create k = statement (insert_row k)

unfoldable pub find_by_key_hash : String → Exec ApiKey
find_by_key_hash hash = statement (λ w. (one_row (find (has_hash hash) w.api_keys), w))

-- The query does not read the hash of the key.
abbrev listed : ApiKey → ApiKey
listed k = record k { key_hash = "" }

unfoldable pub list_by_owner : ℕ → Exec (List ApiKey)
list_by_owner owner = statement (
    gets λ w. map listed (
      order_by (λ a b. ltb b.created_at a.created_at)
        (select (λ k. k.owner_id == owner) w.api_keys)))

-- WHERE id=$1 AND owner_id=$2
abbrev pub is_key_of : ℕ → ℕ → ApiKey → Bool
is_key_of id owner k = k.id == id && k.owner_id == owner

unfoldable pub revoke : ℕ → ℕ → Exec (Unit {0})
revoke id owner = statement λ w. (
  if count_where (is_key_of id owner) w.api_keys == 0 then err not_found else ok tt,
  record w {
    api_keys = update_where (is_key_of id owner) (λ k. record k { is_active = false }) w.api_keys;
  },
)

unfoldable pub update_last_used : ℕ → Exec (Unit {0})
update_last_used id = statement (
    modify λ w. record w {
      api_keys =
          update_where (has_key key_id id) (λ k. record k { last_used_at = some w.now }) w.api_keys;
    })
