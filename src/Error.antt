-- ===== src/Error.antt =====
-- The `error` values of the services and repositories, and the results of functions that return
-- one. A sentinel is compared by identity; `wrap` is fmt.Errorf with a %w verb, between two texts.
use Prim.Native.String
use security_system_gsb.Common.{
  ℕ, zero, suc, ◌+◌, ◌/◌, ◌%◌, ◌≡◌, refl, ◌⊎◌, inl, inr, String, Bool, true, false, ltb,
  if◌then◌else◌,
}

infixr 65 ◌++◌
-- `+` on strings.
abbrev pub ◌++◌ : String → String → String
◌++◌ = String.◌++◌

abbrev pub digit : ℕ → String
digit d = String.slice "0123456789" d (d + 1)

unfoldable pub format_from : ℕ → ℕ → String → String
format_from zero n acc = acc
format_from (suc fuel) n acc =
    let rest = format_from fuel (n / 10) (digit (n % 10) ++ acc) in
    if ltb n 10 then digit n ++ acc else rest

-- strconv.FormatInt(n, 10), and the verb %d. A number has fewer digits than `suc n`.
unfoldable pub format_int : ℕ → String
unfolding format_from
format_int n = format_from (suc n) n ""

pub data Error : Type 0 where
  not_found : Error
  alert_not_found : Error
  invalid_transition : Error
  already_closed : Error
  api_key_not_found : Error
  invalid_credentials : Error
  account_locked : Error
  account_disabled : Error
  invalid_token : Error
  -- What the database driver or another library reports.
  library : String → Error
  errorf : String → Error
  wrap : String → Error → String → Error
  -- No error of the program: the mark of a loop that its fuel did not cover.
  out_of_fuel : Error

-- err.Error()
unfoldable pub message : Error → String
message not_found = "记录不存在"
message alert_not_found = "告警不存在"
message invalid_transition = "告警状态流转不合法"
message already_closed = "告警已关闭，不允许修改"
message api_key_not_found = "密钥不存在或无权操作"
message invalid_credentials = "用户名或密码错误"
message account_locked = "账号已被锁定，请稍后再试"
message account_disabled = "账号已被禁用"
message invalid_token = "令牌无效或已过期"
message (library text) = text
message (errorf text) = text
message out_of_fuel = ""
message (wrap before e after) = before ++ message e ++ after

-- errors.Is(err, repository.ErrNotFound)
unfoldable pub is_not_found : Error → Bool
is_not_found not_found = true
is_not_found (wrap before e after) = is_not_found e
is_not_found _ = false

pub data Result {ℓ} (A : Type ℓ) : Type ℓ where
  ok : A → Result A
  err : Error → Result A

unfoldable pub is_ok {ℓ} : {A : Type ℓ} → Result A → Bool
is_ok (ok a) = true
is_ok (err e) = false

pub Result-cases {ℓ} :
    {A : Type ℓ} (r : Result A) → ((a : A) × (r ≡ ok a)) ⊎ ((e : Error) × (r ≡ err e))
Result-cases (ok a) = inl (a, refl)
Result-cases (err e) = inr (e, refl)

format_int_runs : format_int 9070 ≡ "9070"
unfolding format_int
format_int_runs = refl
