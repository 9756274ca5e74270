-- ===== src/Pkg/Crypto.antt =====
-- pkg/crypto/hash.go
use security_system_gsb.Common.{ℕ, ◌+◌, String, Bool}
use security_system_gsb.Error.{◌++◌, wrap, Result, ok, err}
use security_system_gsb.World.{Exec, pure, ◌>>=◌}
use security_system_gsb.Pkg.Libraries.{Libraries}

-- A call that draws on the source of randomness.
abbrev draw {ℓ} : {A : Type ℓ} → (ℕ → Result A) → Exec A
draw f w = (f w.entropy, record w { entropy = w.entropy + 1 })

pub record GeneratedKey : Type 0 where
  pub raw_key : String
  pub prefix : String

module _ (lib : Libraries) where
  unfoldable pub hash_password : String → Exec String
  hash_password password = draw (λ e. lib.generate_from_password e password 12)

  unfoldable pub check_password : String → String → Bool
  check_password hash plain = lib.compare_hash_and_password hash plain

  unfoldable pub sha256_hex : String → String
  sha256_hex text = lib.sha256_hex text

  unfoldable pub hash_api_key : String → String
  unfolding sha256_hex
  hash_api_key raw_key = sha256_hex raw_key

  abbrev random_failed : Result String → Result String
  random_failed (ok s) = ok s
  random_failed (err e) = err (wrap "随机数生成失败: " e "")

  unfoldable pub generate_random_hex : ℕ → Exec String
  generate_random_hex byte_len = draw (λ e. random_failed (lib.random_hex e byte_len))

  unfoldable pub generate_api_key : Exec GeneratedKey
  unfolding generate_random_hex
  generate_api_key = do
    prefix ← generate_random_hex 4
    secret ← generate_random_hex 24
    pure (record { raw_key = "sp_" ++ prefix ++ "_" ++ secret; prefix = prefix })
