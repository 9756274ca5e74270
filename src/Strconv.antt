-- ===== src/Strconv.antt =====
-- strconv.ParseInt(s, 10, 64), strconv.Atoi and strconv.FormatInt of the Go library, and `itoa` of
-- internal/repository/alert_repo.go. A text is read as its code points.
pub mod Digits
use Prim.Native.Char.{code}
use Prim.Native.String
use security_system_gsb.Common.{
  ℕ, zero, suc, ◌+◌, ◌-◌, ◌*◌, ◌/◌, ◌%◌, String, Bool, true, false, ◌&&◌, Option, none, some, List,
  [], ◌∷◌, ◌≡◌, refl, ltb, leb, ◌==◌, nat_eq, if◌then◌else◌,
}
use security_system_gsb.Error.{◌++◌, digit, format_int}

pub data ℤ : Type 0 where
  pos : ℕ → ℤ
  negsuc : ℕ → ℤ

abbrev pub codes : String → List ℕ
codes String.[] = []
codes (String.◌∷◌ c s) = code c ∷ codes s

abbrev pub is_digit : ℕ → Bool
is_digit c = leb b'0' c && leb c b'9'

-- The digits behind `acc`, `none` at any other character.
unfoldable pub digits_from : ℕ → List ℕ → Option ℕ
digits_from acc [] = some acc
digits_from acc (c ∷ cs) =
    let rest = digits_from (acc * 10 + (c - b'0')) cs in if is_digit c then rest else none

-- At least one digit.
unfoldable pub magnitude : List ℕ → Option ℕ
unfolding digits_from
magnitude [] = none
magnitude (c ∷ cs) = digits_from 0 (c ∷ cs)

abbrev pub max_int64 : ℕ
max_int64 = 9223372036854775807

-- The value, and whether there was an error: a value out of range is the nearest one in it, a
-- text that is no number is 0.
abbrev pub bounded : Bool → Option ℕ → ℤ × Bool
bounded negative none = (pos 0, false)
bounded false (some n) = if leb n max_int64 then (pos n, true) else (pos max_int64, false)
bounded true (some zero) = (pos 0, true)
bounded true (some (suc n)) =
    if leb n max_int64 then (negsuc n, true) else (negsuc max_int64, false)

abbrev pub signed : List ℕ → ℤ × Bool
signed [] = (pos 0, false)
signed (c ∷ cs) =
    if c == b'-'
    then bounded true (magnitude cs)
    else if c == b'+'
    then bounded false (magnitude cs)
    else bounded false (magnitude (c ∷ cs))

abbrev pub if_valid : ℤ × Bool → Option ℤ
if_valid (z, true) = some z
if_valid (z, false) = none

unfoldable pub parse_int : String → Option ℤ
unfolding magnitude
parse_int s = if_valid (signed (codes s))

-- `n, _ := strconv.Atoi(s)`
unfoldable pub atoi_or_zero : String → ℤ
unfolding magnitude
atoi_or_zero s = (signed (codes s)).0

unfoldable pub format_int64 : ℤ → String
unfolding format_int
format_int64 (pos n) = format_int n
format_int64 (negsuc n) = "-" ++ format_int (suc n)

-- A count or an identifier as the other modules have it. Identifiers start at 1, so no row has one
-- that is negative or 0, and the code treats a negative page as page 0.
abbrev pub to_nat : ℤ → ℕ
to_nat (pos n) = n
to_nat (negsuc n) = 0

-- A time so many units later, or before it, in seconds: a time before the clock's origin is 0.
abbrev pub later : ℕ → ℤ → ℕ → ℕ
later now (pos n) unit = now + n * unit
later now (negsuc n) unit = now - suc n * unit

-- `for i > 0 { s = string(rune('0'+i%10)) + s; i /= 10 }` with a round for each digit and more.
itoa_from : ℕ → ℕ → String → String
itoa_from zero i s = s
itoa_from (suc fuel) i s =
    let rest = itoa_from fuel (i / 10) (digit (i % 10) ++ s) in if ltb 0 i then rest else s

unfoldable pub itoa : ℕ → String
unfolding itoa_from
itoa i = if leb i 0 then "1" else itoa_from (suc i) i ""

parse_int_runs : parse_int "-120" ≡ some (negsuc 119)
unfolding parse_int magnitude digits_from
parse_int_runs = refl

itoa_runs : itoa 12 ≡ "12"
unfolding itoa
itoa_runs = refl
