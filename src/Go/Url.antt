-- ===== src/Go/Url.antt =====
-- net/url.QueryUnescape: %XY stands for a byte and + for a space.
use block_explorer.Prelude.{
  ℕ, ◌+◌, ◌-◌, ◌*◌, ◌≡◌, ◌≢◌, refl, Bool, false, Option, none, some, [], ◌∷◌, ◌&&◌, ◌||◌, arith,
  Text, codes, leb, All, if◌then◌else◌, ◌==◌, nat_eq,
}

abbrev pub is_hex : ℕ → Bool
is_hex c = (leb b'0' c && leb c b'9') || (leb b'a' c && leb c b'f') || (leb b'A' c && leb c b'F')

abbrev pub unhex : ℕ → ℕ
unhex c =
    if leb b'0' c && leb c b'9'
    then c - b'0'
    else if leb b'a' c && leb c b'f'
    then c - b'a' + 10
    else c - b'A' + 10

abbrev pub plus_to_space : ℕ → ℕ
plus_to_space c = if c == b'+' then b' ' else c

abbrev pub prepend : ℕ → Option Text → Option Text
prepend c none = none
prepend c (some s) = some (c ∷ s)

unfoldable pub query_unescape : Text → Option Text
query_unescape [] = some []
query_unescape (c ∷ []) = if c == b'%' then none else some (plus_to_space c ∷ [])
query_unescape (c ∷ x ∷ []) =
    let rest = query_unescape (x ∷ []) in if c == b'%' then none else prepend (plus_to_space c) rest
query_unescape (c ∷ x ∷ y ∷ s) =
    let escaped =
      if is_hex x && is_hex y then prepend (unhex x * 16 + unhex y) (query_unescape s) else none in
    let rest = query_unescape (x ∷ y ∷ s) in
    if c == b'%' then escaped else prepend (plus_to_space c) rest

abbrev pub IsPlain : ℕ → Type 0
IsPlain c = (c ≢ b'%') × (c ≢ b'+')

-- A text with neither sign stands for itself.
pub query_unescape_plain : (s : Text) → All IsPlain s → query_unescape s ≡ some s
unfolding query_unescape
query_unescape_plain [] h = refl
query_unescape_plain (c ∷ []) h = ground arith
query_unescape_plain (c ∷ x ∷ []) h = ground (arith, query_unescape_plain (x ∷ []) h.1)
query_unescape_plain (c ∷ x ∷ y ∷ s) h =
    let rest = query_unescape_plain (x ∷ y ∷ s) h.1 in
    let percent : (c == b'%') ≡ false = ground arith in
    let plus : plus_to_space c ≡ c = ground arith in
    rw (percent, query_unescape) (rw (rest, plus) refl)

unescape_colon : query_unescape (codes "01%3A5+") ≡ some (codes "01:5 ")
unfolding query_unescape
unescape_colon = refl
