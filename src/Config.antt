-- ===== src/Config.antt =====
-- internal/config/config.go, and what cmd/server/main.go makes of it: the settings of the
-- authentication, and the loop of the SLA check. The environment gives a variable that is not set
-- as "".
use security_system_gsb.Common.{
  ℕ, String, Option, none, some, List, [], ◌∷◌, ◌==◌, string_eq, if◌then◌else◌,
}
use security_system_gsb.Error.{◌++◌}
use security_system_gsb.World.{Exec, pure, attempt, modify, ◌>>=◌, ◌>>◌}
use security_system_gsb.Strconv.{ℤ, pos, parse_int}
use security_system_gsb.Service.Alerts.{run_sla_check}

pub record ServerConfig : Type 0 where
  pub port : String
  pub mode : String

pub record DatabaseConfig : Type 0 where
  pub host : String
  pub port : String
  pub user : String
  pub password : String
  pub db_name : String

pub record JwtConfig : Type 0 where
  pub access_secret : String
  pub refresh_secret : String
  pub access_exp_min : ℤ
  pub refresh_exp_day : ℤ

pub record Config : Type 0 where
  pub server : ServerConfig
  pub database : DatabaseConfig
  pub jwt : JwtConfig

module _ (env : String → String) where
  unfoldable pub get_env : String → String → String
  get_env key fallback = if env key == "" then fallback else env key

  abbrev or_fallback : ℤ → Option ℤ → ℤ
  or_fallback fallback none = fallback
  or_fallback fallback (some n) = n

  unfoldable pub get_env_int : String → ℤ → ℤ
  get_env_int key fallback =
      if env key == "" then fallback else or_fallback fallback (parse_int (env key))

  unfoldable pub load : Config
  unfolding get_env get_env_int
  load = record {
    server = record { port = get_env "SERVER_PORT" "8080"; mode = get_env "GIN_MODE" "debug" };
    database = record {
      host = get_env "DB_HOST" "localhost";
      port = get_env "DB_PORT" "5432";
      user = get_env "DB_USER" "secadmin";
      password = get_env "DB_PASSWORD" "secpassword123";
      db_name = get_env "DB_NAME" "secplatform";
    };
    jwt = record {
      access_secret = get_env "JWT_ACCESS_SECRET" "access-secret-change-in-prod";
      refresh_secret = get_env "JWT_REFRESH_SECRET" "refresh-secret-change-in-prod";
      access_exp_min = get_env_int "JWT_ACCESS_EXP_MIN" (pos 15);
      refresh_exp_day = get_env_int "JWT_REFRESH_EXP_DAY" (pos 7);
    };
  }

unfoldable pub dsn : DatabaseConfig → String
dsn c =
    "host=" ++ c.host ++ " port=" ++ c.port ++ " user=" ++ c.user ++ " password=" ++ c.password
    ++ " dbname=" ++ c.db_name ++ " sslmode=disable"

-- `runSLAChecker` at the ticks of its ticker: an error of a round is logged and dropped.
unfoldable pub run_sla_checker : List ℕ → Exec (Unit {0})
run_sla_checker [] = pure tt
run_sla_checker (tick ∷ ticks) = do
  modify λ w. record w { now = tick }
  checked ← attempt run_sla_check
  run_sla_checker ticks
