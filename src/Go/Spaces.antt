-- ===== src/Go/Spaces.antt =====
-- strings.TrimSpace: the white space of Unicode, in UTF-8, is taken off both ends.
use mathlib.Core.List.{reverse}
use block_explorer.Prelude.{
  ℕ, zero, suc, Bool, ◌&&◌, ◌||◌, Option, none, some, [], ◌∷◌, Text, length, leb, ◌==◌, nat_eq,
  if◌then◌else◌,
}

-- Tab to carriage return, and the blank.
abbrev is_ascii_space : ℕ → Bool
is_ascii_space c = (leb 9 c && leb c 13) || (c == 32)

-- U+0085 and U+00A0.
abbrev is_space_of_two : ℕ → ℕ → Bool
is_space_of_two c d = (c == 194) && ((d == 133) || (d == 160))

-- U+1680, U+2000 to U+200A, U+2028, U+2029, U+202F, U+205F and U+3000.
abbrev is_space_of_three : ℕ → ℕ → ℕ → Bool
is_space_of_three c d e =
    ((c == 225) && (d == 154) && (e == 128))
    || ((c == 226)
        && (d == 128)
        && ((leb 128 e && leb e 138) || (e == 168) || (e == 169) || (e == 175)))
    || ((c == 226) && (d == 129) && (e == 159))
    || ((c == 227) && (d == 128) && (e == 128))

-- What follows white space at the front of a text, and what precedes it at the end of one that is
-- written from its end.
unfoldable pub after_space : Text → Option Text
after_space [] = none
after_space (c ∷ []) = if is_ascii_space c then some [] else none
after_space (c ∷ d ∷ []) =
    if is_ascii_space c then some (d ∷ []) else if is_space_of_two c d then some [] else none
after_space (c ∷ d ∷ e ∷ s) =
    if is_ascii_space c
    then some (d ∷ e ∷ s)
    else if is_space_of_two c d
    then some (e ∷ s)
    else if is_space_of_three c d e
    then some s
    else none

unfoldable pub before_space : Text → Option Text
before_space [] = none
before_space (c ∷ []) = if is_ascii_space c then some [] else none
before_space (d ∷ c ∷ []) =
    if is_ascii_space d then some (c ∷ []) else if is_space_of_two c d then some [] else none
before_space (e ∷ d ∷ c ∷ s) =
    if is_ascii_space e
    then some (d ∷ c ∷ s)
    else if is_space_of_two d e
    then some (c ∷ s)
    else if is_space_of_three c d e
    then some s
    else none

-- As often as there is white space; a text has at most as much as its bytes.
unfoldable pub trim : (Text → Option Text) → ℕ → Text → Text
trim without zero s = s
trim without (suc n) s = elim (without s) [ none ↦ s | some rest ↦ trim without n rest ]

unfoldable pub trim_space : Text → Text
trim_space s =
    let left = trim after_space (length s) s in
    reverse (trim before_space (length left) (reverse left))
