-- ===== src/Strconv/Digits.antt =====
-- `Digits`: what is formatted is read back.
use Prim.Native.Char.{Char, code}
use Prim.Native.String.append.{cons, nil}
use security_system_gsb.Common.{
  ℕ, zero, suc, ◌+◌, ◌-◌, ◌*◌, ◌/◌, ◌%◌, ◌≡◌, ◌≤◌, ◌<◌, refl, ap, ◌∙◌, String, true, false, some,
  List, ◌∷◌, arith, leb, ltb, Bool-cases, inl, inr, ◌==◌, nat_eq,
}
use security_system_gsb.Error.{◌++◌ as joined, digit, format_from, format_int}
use security_system_gsb.Strconv.{
  ℤ, pos, codes, is_digit, digits_from, magnitude, bounded, signed, parse_int, negsuc, format_int64,
  max_int64, itoa, itoa_from,
}

codes-char : (c : Char) (s : String) → codes (joined (String.◌∷◌ c String.[]) s) ≡ code c ∷ codes s
codes-char c s = ap codes (cons c String.[] s) ∙ ap (λ t. code c ∷ codes t) (nil s)

-- The digits by their code points.
codes-digit : (d : ℕ) (s : String) → d < 10 → codes (joined (digit d) s) ≡ (48 + d) ∷ codes s
codes-digit zero s h = codes-char "0" s
codes-digit (suc zero) s h = codes-char "1" s
codes-digit (suc (suc zero)) s h = codes-char "2" s
codes-digit (suc (suc (suc zero))) s h = codes-char "3" s
codes-digit (suc (suc (suc (suc zero)))) s h = codes-char "4" s
codes-digit (suc (suc (suc (suc (suc zero))))) s h = codes-char "5" s
codes-digit (suc (suc (suc (suc (suc (suc zero)))))) s h = codes-char "6" s
codes-digit (suc (suc (suc (suc (suc (suc (suc zero))))))) s h = codes-char "7" s
codes-digit (suc (suc (suc (suc (suc (suc (suc (suc zero)))))))) s h = codes-char "8" s
codes-digit (suc (suc (suc (suc (suc (suc (suc (suc (suc zero))))))))) s h = codes-char "9" s
codes-digit (suc (suc (suc (suc (suc (suc (suc (suc (suc (suc n)))))))))) s h =
    absurd (omega (arith, h))

is_digit-of : (d : ℕ) → d < 10 → is_digit (48 + d) ≡ true
is_digit-of d h = ground arith

-- Reading the digits of `n`, and going on.
digits_from-format_from :
    (fuel n : ℕ) (s : String)
    → n < fuel
    → digits_from 0 (codes (format_from fuel n s)) ≡ digits_from n (codes s)
unfolding digits_from format_from
digits_from-format_from zero n s h = absurd (omega (arith, h))
digits_from-format_from (suc fuel) n s h = elim (Bool-cases (ltb n 10)) [
  | inl small ↦
      let one : n < 10 = ground arith in
      let e : 0 * 10 + (48 + n - 48) ≡ n = omega arith in
      rw (small, codes-digit n s one, is_digit-of n one, e)
  | inr large ↦
      let many : 10 ≤ n = ground arith in
      let e : (n / 10) * 10 + (48 + n % 10 - 48) ≡ n = omega arith in
      let one : n % 10 < 10 = omega arith in
      rw (
        large,
        digits_from-format_from fuel (n / 10) (joined (digit (n % 10)) s) (omega (arith, many, h)),
        codes-digit (n % 10) s one,
        is_digit-of (n % 10) one,
        e,
      )
]

-- The first digit.
format_from_head :
    (fuel n : ℕ) (s : String)
    → n < fuel
    → (d : ℕ) × (cs : List ℕ) × (d < 10) × (codes (format_from fuel n s) ≡ (48 + d) ∷ cs)
unfolding format_from
format_from_head zero n s h = absurd (omega (arith, h))
format_from_head (suc fuel) n s h = elim (Bool-cases (ltb n 10)) [
  | inl small ↦ let one : n < 10 = ground arith in (n, codes s, one, rw small (codes-digit n s one))
  | inr large ↦
      let many : 10 ≤ n = ground arith in
      let (d, cs, one, e) =
        format_from_head fuel (n / 10) (joined (digit (n % 10)) s) (omega (arith, many, h)) in
      (d, cs, one, rw large e)
]

magnitude-format_int : (n : ℕ) → magnitude (codes (format_int n)) ≡ some n
unfolding magnitude format_int digits_from
magnitude-format_int n =
    let (d, cs, one, e) = format_from_head (suc n) n "" (omega arith) in
    let all = digits_from-format_from (suc n) n "" (omega arith) in rw e (rw e at all)

unsigned : (n : ℕ) → signed (codes (format_int n)) ≡ bounded false (some n)
unfolding format_int
unsigned n =
    let (d, cs, one, e) = format_from_head (suc n) n "" (omega arith) in
    let all = magnitude-format_int n in
    let minus : (48 + d == b'-') ≡ false = ground arith in
    let plus : (48 + d == b'+') ≡ false = ground arith in
    let whole : magnitude ((48 + d) ∷ cs) ≡ some n = rw e at all in rw (e, minus, plus, whole)

-- The numbers of int64.
abbrev pub Fits : ℤ → Type 0
Fits (pos n) = n ≤ max_int64
Fits (negsuc n) = n ≤ max_int64

-- A number of int64 that is formatted is parsed back.
pub parse_int-format_int64 : (z : ℤ) → Fits z → parse_int (format_int64 z) ≡ some z
unfolding parse_int format_int64
parse_int-format_int64 (pos n) fits =
    let small : leb n max_int64 ≡ true = ground arith in rw (unsigned n, small)
parse_int-format_int64 (negsuc n) fits =
    let small : leb n max_int64 ≡ true = ground arith in
    rw (codes-char "-" (format_int (suc n)), magnitude-format_int (suc n), small)

itoa_from-zero : (fuel : ℕ) (s : String) → itoa_from fuel 0 s ≡ s
unfolding itoa_from
itoa_from-zero zero s = refl
itoa_from-zero (suc fuel) s = refl

itoa_from-format_from :
    (fuel n : ℕ) (s : String) → n < fuel → 0 < n → itoa_from fuel n s ≡ format_from fuel n s
unfolding itoa_from format_from
itoa_from-format_from zero n s h positive = absurd (omega (arith, h))
itoa_from-format_from (suc fuel) n s h positive =
    let round : ltb 0 n ≡ true = ground arith in
    elim (Bool-cases (ltb n 10)) [
      | inl small ↦
          let below : n < 10 = ground arith in
          let last : n % 10 ≡ n = omega (arith, below) in
          let done : n / 10 ≡ 0 = omega (arith, below) in
          rw (round, small, done, last, itoa_from-zero fuel (joined (digit n) s))
      | inr large ↦
          let many : 10 ≤ n = ground arith in
          rw (round, large)
            (itoa_from-format_from fuel (n / 10) (joined (digit (n % 10)) s)
              (omega (arith, many, h)) (omega (arith, many)))
    ]

-- The alert repository's own conversion of a positive number to text gives what strconv gives.
pub itoa-format_int : (i : ℕ) → 0 < i → itoa i ≡ format_int i
unfolding itoa format_int
itoa-format_int i positive =
    let more : leb i 0 ≡ false = ground arith in
    rw more (itoa_from-format_from (suc i) i "" (omega arith) positive)
