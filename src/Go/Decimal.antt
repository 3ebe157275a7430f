-- ===== src/Go/Decimal.antt =====
-- strconv.ParseInt(s, 10, 64) and the verb %d of fmt.
use block_explorer.Prelude.{
  ℕ, zero, suc, ◌+◌, ◌-◌, ◌*◌, ◌/◌, ◌%◌, ◌^◌, ◌≤◌, ◌<◌, ◌≡◌, refl, sym, ap, ◌∙◌, inl, inr, Bool,
  true, false, Option, none, some, [], ◌∷◌, ◌++◌, ◌&&◌, arith, Text, ltb, leb, All, Bool-cases,
  subst, if◌then◌else◌, ◌==◌, nat_eq, ℤ, pos, negsuc,
}

-- The rounds of a division by ten, with as much fuel as the number is large.
unfoldable pub decimal_onto : ℕ → ℕ → Text → Text
decimal_onto zero n out = out
decimal_onto (suc fuel) n out =
    let more = decimal_onto fuel (n / 10) ((b'0' + n % 10) ∷ out) in if n == 0 then out else more

unfoldable pub decimal : ℕ → Text
unfolding decimal_onto
decimal n = if n == 0 then b'0' ∷ [] else decimal_onto n n []

-- fmt's %d
unfoldable pub format_int : ℤ → Text
format_int (pos n) = decimal n
format_int (negsuc n) = b'-' ∷ decimal (suc n)

unfoldable pub is_digit : ℕ → Bool
is_digit c = leb b'0' c && leb c b'9'

unfoldable pub scan : Text → ℕ → Option ℕ
unfolding is_digit
scan [] n = some n
scan (c ∷ s) n = if is_digit c then scan s (n * 10 + (c - b'0')) else none

unfoldable pub parse_uint : Text → Option ℕ
unfolding scan
parse_uint [] = none
parse_uint (c ∷ s) = scan (c ∷ s) 0

-- The number behind the sign, held to the range of int64.
unfoldable pub with_sign : Bool → Option ℕ → Option ℤ
with_sign negative none = none
with_sign false (some n) = if ltb n (2 ^ 63) then some (pos n) else none
with_sign true (some zero) = some (pos 0)
with_sign true (some (suc n)) = if leb (suc n) (2 ^ 63) then some (negsuc n) else none

unfoldable pub parse_int : Text → Option ℤ
parse_int [] = none
parse_int (c ∷ s) =
    if c == b'-'
    then with_sign true (parse_uint s)
    else if c == b'+'
    then with_sign false (parse_uint s)
    else with_sign false (parse_uint (c ∷ s))

abbrev pub IsInt64 : ℤ → Type 0
IsInt64 (pos n) = n < 2 ^ 63
IsInt64 (negsuc n) = suc n ≤ 2 ^ 63

abbrev pub IsDigit : ℕ → Type 0
IsDigit c = (b'0' ≤ c) × (c ≤ b'9')

scan_last : (n : ℕ) (out : Text) → scan ((b'0' + n % 10) ∷ out) (n / 10) ≡ scan out n
unfolding scan
scan_last n out = ground arith

scan-decimal_onto :
    (fuel n : ℕ) (out : Text) → n ≤ fuel → scan (decimal_onto fuel n out) 0 ≡ scan out n
unfolding decimal_onto
scan-decimal_onto zero n out h = let e : n ≡ 0 = omega arith in rw e
scan-decimal_onto (suc fuel) n out h = elim (Bool-cases (n == 0)) [
  | inl e ↦ let z : n ≡ 0 = ground arith in rw (z, decimal_onto)
  | inr e ↦
      rw (e, decimal_onto)
        (scan-decimal_onto fuel (n / 10) ((b'0' + n % 10) ∷ out) (ground arith) ∙ scan_last n out)
]

decimal_onto-IsDigit :
    (fuel n : ℕ) (out : Text) → All IsDigit out → All IsDigit (decimal_onto fuel n out)
unfolding decimal_onto
decimal_onto-IsDigit zero n out h = h
decimal_onto-IsDigit (suc fuel) n out h = elim (Bool-cases (n == 0)) [
  | inl e ↦ rw (e, decimal_onto) h
  | inr e ↦
      rw (e, decimal_onto) (decimal_onto-IsDigit fuel (n / 10) _ ((omega arith, omega arith), h))
]

pub decimal-IsDigit : (n : ℕ) → All IsDigit (decimal n)
unfolding decimal
decimal-IsDigit n = elim (Bool-cases (n == 0)) [
  | inl e ↦ rw e ((omega arith, omega arith), tt)
  | inr e ↦ rw e (decimal_onto-IsDigit n n [] tt)
]

decimal_onto_nonempty :
    (fuel n c : ℕ) (out : Text) → (d : ℕ) × (s : Text) × (decimal_onto fuel n (c ∷ out) ≡ d ∷ s)
unfolding decimal_onto
decimal_onto_nonempty zero n c out = (c, out, refl)
decimal_onto_nonempty (suc fuel) n c out = elim (Bool-cases (n == 0)) [
  | inl e ↦ (c, out, rw e)
  | inr e ↦ rw (e, decimal_onto) (decimal_onto_nonempty fuel (n / 10) (b'0' + n % 10) (c ∷ out))
]

pub decimal_nonempty : (n : ℕ) → (d : ℕ) × (s : Text) × (decimal n ≡ d ∷ s)
unfolding decimal
decimal_nonempty zero = (b'0', [], refl)
decimal_nonempty (suc n) =
    let e : (suc n == 0) ≡ false = ground arith in
    rw e (decimal_onto_nonempty n (suc n / 10) (b'0' + suc n % 10) [])

scan-decimal : (n : ℕ) → scan (decimal n) 0 ≡ some n
unfolding decimal scan
scan-decimal n = elim (Bool-cases (n == 0)) [
  | inl e ↦ let z : n ≡ 0 = ground arith in rw z
  | inr e ↦ rw e (scan-decimal_onto n n [] (omega arith))
]

pub parse_uint-decimal : (n : ℕ) → parse_uint (decimal n) ≡ some n
parse_uint-decimal n =
    let (d, s, e) = decimal_nonempty n in rw (ap parse_uint e, parse_cons d s, ← e) (scan-decimal n)
  where
    parse_cons : (d : ℕ) (s : Text) → parse_uint (d ∷ s) ≡ scan (d ∷ s) 0
    parse_cons d s = unfold parse_uint in refl

parse_int_digit :
    (d : ℕ) (s : Text) → IsDigit d → parse_int (d ∷ s) ≡ with_sign false (parse_uint (d ∷ s))
unfolding parse_int
parse_int_digit d s h = ground arith

parse_int_minus : (s : Text) → parse_int (b'-' ∷ s) ≡ with_sign true (parse_uint s)
unfolding parse_int
parse_int_minus s = refl

parse_int-decimal : (n : ℕ) → parse_int (decimal n) ≡ with_sign false (parse_uint (decimal n))
parse_int-decimal n =
    let (d, s, e) = decimal_nonempty n in
    let digits : IsDigit d × All IsDigit s = subst (All IsDigit) e (decimal-IsDigit n) in
    subst (λ t. parse_int t ≡ with_sign false (parse_uint t)) (sym e) (parse_int_digit d s digits.0)

-- Every int64 is read back from what %d prints.
pub parse_int-format_int : (n : ℤ) → IsInt64 n → parse_int (format_int n) ≡ some n
unfolding format_int with_sign
parse_int-format_int (pos n) h =
    parse_int-decimal n ∙ ap (with_sign false) (parse_uint-decimal n) ∙ ground arith
parse_int-format_int (negsuc n) h =
    parse_int_minus (decimal (suc n))
    ∙ ap (with_sign true) (parse_uint-decimal (suc n))
    ∙ ground arith

with_sign_sound :
    (negative : Bool) (o : Option ℕ) (n : ℤ) → with_sign negative o ≡ some n → IsInt64 n
unfolding with_sign
with_sign_sound false none n h = absurd (ground arith)
with_sign_sound true none n h = absurd (ground arith)
with_sign_sound false (some m) (pos n) h = ground arith
with_sign_sound false (some m) (negsuc n) h = absurd (ground arith)
with_sign_sound true (some zero) (pos n) h = ground arith
with_sign_sound true (some zero) (negsuc n) h = absurd (ground arith)
with_sign_sound true (some (suc m)) (pos n) h = absurd (ground arith)
with_sign_sound true (some (suc m)) (negsuc n) h = ground arith

pub parse_int-IsInt64 : (s : Text) (n : ℤ) → parse_int s ≡ some n → IsInt64 n
unfolding parse_int
parse_int-IsInt64 [] n h = absurd (ground arith)
parse_int-IsInt64 (c ∷ s) n h = elim (Bool-cases (c == b'-')) [
  | inl e ↦ with_sign_sound true (parse_uint s) n (rw (e, parse_int) at h)
  | inr e ↦ elim (Bool-cases (c == b'+')) [
    | inl f ↦ with_sign_sound false (parse_uint s) n (ground arith)
    | inr f ↦ with_sign_sound false (parse_uint (c ∷ s)) n (ground arith)
  ]
]

-- A text with a colon is no number.
scan_colon : (s t : Text) (n : ℕ) → scan (s ++ b':' ∷ t) n ≡ none
unfolding scan
scan_colon [] t n = refl
scan_colon (c ∷ s) t n = ground (arith, scan_colon s t (n * 10 + (c - b'0')))

parse_uint_colon : (s t : Text) → parse_uint (s ++ b':' ∷ t) ≡ none
unfolding parse_uint
parse_uint_colon [] t = scan_colon [] t 0
parse_uint_colon (c ∷ s) t = scan_colon (c ∷ s) t 0

with_sign-none : (negative : Bool) (o : Option ℕ) → o ≡ none → with_sign negative o ≡ none
unfolding with_sign
with_sign-none negative o e = rw e refl

pub parse_int_colon : (s t : Text) → parse_int (s ++ b':' ∷ t) ≡ none
unfolding parse_int
parse_int_colon [] t = with_sign-none false (parse_uint (b':' ∷ t)) (parse_uint_colon [] t)
parse_int_colon (c ∷ s) t = elim (Bool-cases (c == b'-')) [
  | inl a ↦ rw a (with_sign-none true (parse_uint (s ++ b':' ∷ t)) (parse_uint_colon s t))
  | inr a ↦ elim (Bool-cases (c == b'+')) [
    | inl b ↦ rw a (rw b (with_sign-none false (parse_uint (s ++ b':' ∷ t)) (parse_uint_colon s t)))
    | inr b ↦ rw a (
        rw b (with_sign-none false (parse_uint (c ∷ (s ++ b':' ∷ t))) (parse_uint_colon (c ∷ s) t)))
  ]
]
