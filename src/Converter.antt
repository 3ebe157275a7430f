-- ===== src/Converter.antt =====
-- instrumentation/converter/platform.go: the name of a jet, and seconds and nanoseconds.
pub mod JetNames
use block_explorer.Prelude.{
  ℕ, zero, suc, ◌+◌, ◌-◌, ◌*◌, ◌/◌, ◌%◌, ◌^◌, List, [], ◌∷◌, Text, ℤ, pos, negsuc, get_or, ◌==◌,
  nat_eq, if◌then◌else◌,
}

-- `(byteValue >> bitPos) & 1` of the i-th bit, in decimal. The prefix of the platform's ids has a
-- byte for each bit of their depth.
unfoldable pub bit_string : Text → ℕ → ℕ
bit_string prefix i = b'0' + get_or prefix (i / 8) 0 / 2 ^ (7 - i % 8) % 2

-- The loop, with the number of bits that are left.
unfoldable pub bit_strings : Text → ℕ → ℕ → Text
bit_strings prefix i zero = []
bit_strings prefix i (suc left) = bit_string prefix i ∷ bit_strings prefix (i + 1) left

-- JetIDToString, of the depth and the prefix of an id.
unfoldable pub jet_id_to_string : ℕ → Text → Text
jet_id_to_string depth prefix = if depth == 0 then [] else bit_strings prefix 0 depth

abbrev pub nanoseconds_in_second : ℕ
nanoseconds_in_second = 1_000_000_000

unfoldable pub seconds_to_nanos : ℕ → ℤ
seconds_to_nanos seconds = pos (seconds * nanoseconds_in_second)

abbrev pub negated : ℕ → ℤ
negated zero = pos 0
negated (suc n) = negsuc n

-- Go's division rounds towards zero.
unfoldable pub nanos_to_seconds : ℤ → ℤ
nanos_to_seconds (pos n) = pos (n / nanoseconds_in_second)
nanos_to_seconds (negsuc n) = negated (suc n / nanoseconds_in_second)
