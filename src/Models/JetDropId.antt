-- ===== src/Models/JetDropId.antt =====
-- models.JetDropID: a jet drop's name is its jet id and its pulse number.
use block_explorer.Prelude.{
  ℕ, suc, ◌≤◌, ◌≡◌, ◌≢◌, refl, inl, inr, Bool, true, Option, none, some, List, [], ◌∷◌, ◌++◌, ◌&&◌,
  ◌||◌, arith, Text, codes, leb, All, All-append, all, length, Bool-cases, Option-cases, subst,
  if◌then◌else◌, ◌==◌, nat_eq, list_eq, ℤ, pos, negsuc,
}
use block_explorer.Go.Decimal.{
  parse_int, format_int, decimal, IsInt64, IsDigit, decimal-IsDigit, parse_int-format_int,
  parse_int-IsInt64,
}
use block_explorer.Go.Strings.{split, split_two, Lacks}
use block_explorer.Go.Url.{query_unescape, query_unescape_plain, IsPlain}

pub record JetDropId : Type 0 where
  pub jet_id : Text
  pub pulse_number : ℤ

-- The root's jet id is written as a star.
abbrev pub with_star : Text → Text
with_star jet_id = if jet_id == [] then codes "*" else jet_id

abbrev pub without_star : Text → Text
without_star jet_id = if jet_id == codes "*" then [] else jet_id

unfoldable pub new_jet_drop_id : Text → ℤ → JetDropId
new_jet_drop_id jet_id pulse_number = record {
  jet_id = without_star jet_id;
  pulse_number = pulse_number;
}

unfoldable pub jet_id_to_string : JetDropId → Text
jet_id_to_string j = with_star j.jet_id

unfoldable pub to_string : JetDropId → Text
unfolding jet_id_to_string
to_string j = jet_id_to_string j ++ b':' ∷ format_int j.pulse_number

abbrev pub is_bit : ℕ → Bool
is_bit c = (c == b'0') || (c == b'1')

-- `^(\*|([0-1]{1,216}))$`
unfoldable pub jet_id_regexp : Text → Bool
jet_id_regexp s = (s == codes "*") || (leb 1 (length s) && leb (length s) 216 && all is_bit s)

from_parts : List Text → Option JetDropId
from_parts (jet_id ∷ pulse ∷ []) =
    if jet_id_regexp jet_id
    then elim (parse_int pulse) [ none ↦ none | some n ↦ some (new_jet_drop_id jet_id n) ]
    else none
from_parts _ = none

-- models.NewJetDropIDFromString
unfoldable pub new_jet_drop_id_from_string : Text → Option JetDropId
unfolding from_parts
new_jet_drop_id_from_string jet_drop_id = elim (query_unescape jet_drop_id) [
  | none ↦ none
  | some s ↦ from_parts (split b':' s)
]

-- What a jet drop's name holds: bits, at most as many as the platform's jet ids have, and an int64.
pub record IsValid (j : JetDropId) : Type 0 where
  pub bits : all is_bit j.jet_id ≡ true
  pub short : length j.jet_id ≤ 216
  pub in_range : IsInt64 j.pulse_number

jet_id_regexp-with_star :
    (s : Text) → all is_bit s ≡ true → length s ≤ 216 → jet_id_regexp (with_star s) ≡ true
unfolding jet_id_regexp
jet_id_regexp-with_star [] b l = refl
jet_id_regexp-with_star (c ∷ s) b l = ground arith

-- No byte of a name needs an escape, and only the separator is a colon.
abbrev pub IsLetter : ℕ → Type 0
IsLetter c = IsPlain c × (c ≢ b':')

IsBit-IsLetter : (s : Text) → all is_bit s ≡ true → All IsLetter s
IsBit-IsLetter [] b = tt
IsBit-IsLetter (c ∷ s) b =
    let bit : is_bit c ≡ true = ground arith in
    let rest : all is_bit s ≡ true = ground arith in ((ground arith), IsBit-IsLetter s rest)

IsDigit-IsLetter : (s : Text) → All IsDigit s → All IsLetter s
IsDigit-IsLetter [] h = tt
IsDigit-IsLetter (c ∷ s) h = let (low, high) = h.0 in ((ground arith), IsDigit-IsLetter s h.1)

with_star-IsLetter : (s : Text) → all is_bit s ≡ true → All IsLetter (with_star s)
with_star-IsLetter [] b = ((ground arith), tt)
with_star-IsLetter (c ∷ s) b = IsBit-IsLetter (c ∷ s) b

pub format_int-IsLetter : (n : ℤ) → All IsLetter (format_int n)
unfolding format_int
format_int-IsLetter (pos n) = IsDigit-IsLetter (decimal n) (decimal-IsDigit n)
format_int-IsLetter (negsuc n) =
    ((ground arith), IsDigit-IsLetter (decimal (suc n)) (decimal-IsDigit (suc n)))

IsLetter-IsPlain : (s : Text) → All IsLetter s → All IsPlain s
IsLetter-IsPlain [] h = tt
IsLetter-IsPlain (c ∷ s) h = (h.0.0, IsLetter-IsPlain s h.1)

pub IsLetter-Lacks : (s : Text) → All IsLetter s → Lacks b':' s
IsLetter-Lacks [] h = tt
IsLetter-Lacks (c ∷ s) h = (h.0.1, IsLetter-Lacks s h.1)

without-with_star : (s : Text) → all is_bit s ≡ true → without_star (with_star s) ≡ s
without-with_star [] b = refl
without-with_star (c ∷ s) b = ground arith

from_parts-with_star :
    (s : Text) (n : ℤ)
    → all is_bit s ≡ true
    → length s ≤ 216
    → IsInt64 n
    → from_parts (with_star s ∷ format_int n ∷ []) ≡ some (record { jet_id = s; pulse_number = n })
unfolding from_parts new_jet_drop_id
from_parts-with_star s n b l r =
    rw (parse_int-format_int n r, from_parts)
      (rw (jet_id_regexp-with_star s b l) (rw (without-with_star s b) refl))

-- A jet drop's name is read back as the jet drop that it names.
pub from_string-to_string :
    (j : JetDropId) → IsValid j → new_jet_drop_id_from_string (to_string j) ≡ some j
unfolding new_jet_drop_id_from_string to_string
from_string-to_string j v =
    let jet = with_star-IsLetter j.jet_id v.bits in
    let pulse = format_int-IsLetter j.pulse_number in
    let plain : All IsPlain (with_star j.jet_id ++ b':' ∷ format_int j.pulse_number) =
      All-append IsPlain (with_star j.jet_id) (b':' ∷ format_int j.pulse_number)
        (IsLetter-IsPlain _ jet) ((ground arith), IsLetter-IsPlain _ pulse) in
    rw
      (
        query_unescape_plain (with_star j.jet_id ++ b':' ∷ format_int j.pulse_number) plain,
        new_jet_drop_id_from_string,
      )
      (rw
        (split_two b':' (with_star j.jet_id) (format_int j.pulse_number) (IsLetter-Lacks _ jet)
          (IsLetter-Lacks _ pulse))
        (from_parts-with_star j.jet_id j.pulse_number v.bits v.short v.in_range))

without_star-IsBits :
    (s : Text)
    → jet_id_regexp s ≡ true
    → (all is_bit (without_star s) ≡ true) × (length (without_star s) ≤ 216)
unfolding jet_id_regexp
without_star-IsBits s h = elim (Bool-cases (s == codes "*")) [
  | inl e ↦ rw e (refl, omega arith)
  | inr e ↦ rw e ((ground arith), (ground arith))
]

from_parts-IsValid : (parts : List Text) (j : JetDropId) → from_parts parts ≡ some j → IsValid j
unfolding from_parts new_jet_drop_id
from_parts-IsValid [] j h = cc
from_parts-IsValid (x ∷ []) j h = cc
from_parts-IsValid (x ∷ y ∷ z ∷ parts) j h = cc
from_parts-IsValid (x ∷ y ∷ []) j h = elim (Bool-cases (jet_id_regexp x)) [
  | inl e ↦ elim (Option-cases (parse_int y)) [
    | inl f ↦ absurd (ground arith)
    | inr (n, f) ↦
        let (bits, short) = without_star-IsBits x e in
        let same : new_jet_drop_id x n ≡ j = ground arith in
        subst IsValid same
          (record { bits = bits; short = short; in_range = parse_int-IsInt64 y n f })
  ]
  | inr e ↦ absurd (ground arith)
]

-- What is read is always a jet drop's name.
pub from_string-IsValid :
    (s : Text) (j : JetDropId) → new_jet_drop_id_from_string s ≡ some j → IsValid j
unfolding new_jet_drop_id_from_string
from_string-IsValid s j h = elim (Option-cases (query_unescape s)) [
  | inl e ↦ absurd (ground arith)
  | inr (t, e) ↦ from_parts-IsValid (split b':' t) j (rw (e, new_jet_drop_id_from_string) at h)
]
