-- ===== src/World.antt =====
-- The state that the components share: the tables of migrations/001_schema.sql, the memory of the
-- process (permission cache, audit channel), and what the environment supplies.
--
-- A handler is run to its end at one instant, `now`. Each database statement first reads the next
-- entry of `faults`: with `some text` it fails with that text and changes nothing. So every
-- theorem that does not speak of `faults` holds whatever statements fail. `entropy` counts the
-- uses of randomness.
pub mod Statements
pub mod Kept
pub mod Frames
use security_system_gsb.Common.{ℕ, String, Bool, true, false, Option, none, some, List, [], ◌∷◌}
use security_system_gsb.Error.{Error, library, not_found, Result, ok, err}
use security_system_gsb.Model.User.{User}
use security_system_gsb.Model.Session.{Session}
use security_system_gsb.Model.Role.{Role, Permission, RolePermission}
use security_system_gsb.Model.Alert.{SecurityAlert, AlertComment}
use security_system_gsb.Model.Audit.{AuditLog, AuditLogEntry}
use security_system_gsb.Model.ApiKey.{ApiKey}

-- The last identifier that each BIGSERIAL sequence gave out.
pub record Serials : Type 0 where
  pub users : ℕ
  pub roles : ℕ
  pub sessions : ℕ
  pub alerts : ℕ
  pub comments : ℕ
  pub audit_logs : ℕ
  pub api_keys : ℕ

pub record World : Type 0 where
  pub users : List User
  pub roles : List Role
  pub permissions : List Permission
  pub role_permissions : List RolePermission
  pub sessions : List Session
  pub alerts : List SecurityAlert
  pub comments : List AlertComment
  pub audit_logs : List AuditLog
  pub api_keys : List ApiKey
  pub serials : Serials
  pub perm_cache : List (ℕ × List String)
  pub log_chan : List AuditLogEntry
  pub now : ℕ
  pub entropy : ℕ
  pub faults : List (Option String)

-- A function with a receiver that may return an error.
abbrev pub Exec {ℓ} : Type ℓ → Type ℓ
Exec A = World → Result A × World

module _ {ℓ} {A : Type ℓ} where
  abbrev pub pure : A → Exec A
  pure a w = (ok a, w)

  abbrev pub raise : Error → Exec A
  raise e w = (err e, w)

  abbrev pub gets : (World → A) → Exec A
  gets f w = (ok (f w), w)

  -- The error as a value, for code that looks at it or drops it.
  abbrev as_value : Result A × World → Result (Result A) × World
  as_value (r, w) = (ok r, w)

  abbrev pub attempt : Exec A → Exec (Result A)
  attempt m w = as_value (m w)

  -- One statement that the database executes or refuses.
  abbrev after_fault : Exec A → List (Option String) → Exec A
  after_fault m [] w = m (record w { faults = [] })
  after_fault m (none ∷ rest) w = m (record w { faults = rest })
  after_fault m (some text ∷ rest) w = (err (library text), record w { faults = rest })

  unfoldable pub statement : Exec A → Exec A
  statement m w = after_fault m w.faults w

  -- Scan of a single row, with sql.ErrNoRows turned into ErrNotFound.
  abbrev pub one_row : Option A → Result A
  one_row none = err not_found
  one_row (some a) = ok a

  abbrev pub lift : Result A → Exec A
  lift r w = (r, w)

module _ {ℓ κ} {A : Type ℓ} {B : Type κ} where
  abbrev pub continue : Result A → (A → Exec B) → Exec B
  continue (ok a) f w = f a w
  continue (err e) f w = (err e, w)

  infixl 5 ◌>>=◌
  abbrev pub ◌>>=◌ : Exec A → (A → Exec B) → Exec B
  ◌>>=◌ m f w = let (r, w') = m w in continue r f w'

infixl 5 ◌>>◌
abbrev pub ◌>>◌ {ℓ} : {B : Type ℓ} → Exec (Unit {0}) → Exec B → Exec B
m >> k = m >>= λ _. k

abbrev pub modify : (World → World) → Exec (Unit {0})
modify f w = (ok tt, f w)

-- `if !test { return err }`
abbrev pub guard : Bool → Error → Exec (Unit {0})
guard true e w = (ok tt, w)
guard false e w = (err e, w)
