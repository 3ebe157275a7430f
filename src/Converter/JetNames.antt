-- ===== src/Converter/JetNames.antt =====
-- The names of jets are texts of bits as long as their depth.
use block_explorer.Prelude.{
  ℕ, zero, suc, ◌+◌, ◌-◌, ◌/◌, ◌%◌, ◌^◌, ◌≤◌, ◌≡◌, refl, true, [], arith, Text, all, length, get_or,
  ◌==◌, nat_eq, if_elim,
}
use block_explorer.Models.JetDropId.{is_bit}
use block_explorer.Converter.{bit_string, bit_strings, jet_id_to_string}

bit_string-IsBit : (prefix : Text) (i : ℕ) → is_bit (bit_string prefix i) ≡ true
unfolding bit_string
bit_string-IsBit prefix i =
    let bit : get_or prefix (i / 8) 0 / 2 ^ (7 - i % 8) % 2 ≤ 1 = omega arith in ground arith

bit_strings-AreBits :
    (prefix : Text) (i left : ℕ)
    → (all is_bit (bit_strings prefix i left) ≡ true) × (length (bit_strings prefix i left) ≡ left)
unfolding bit_strings
bit_strings-AreBits prefix i zero = (refl, refl)
bit_strings-AreBits prefix i (suc left) =
    let (bits, long) = bit_strings-AreBits prefix (i + 1) left in
    (rw (bit_string-IsBit prefix i) bits, omega arith)

-- The name of a jet has a bit for each level of its depth, and nothing else.
pub jet_id_to_string-AreBits :
    (depth : ℕ) (prefix : Text)
    → (all is_bit (jet_id_to_string depth prefix) ≡ true)
      × (length (jet_id_to_string depth prefix) ≡ depth)
unfolding jet_id_to_string
jet_id_to_string-AreBits depth prefix =
    if_elim (λ (s : Text). (all is_bit s ≡ true) × (length s ≡ depth)) (depth == 0) []
      (bit_strings prefix 0 depth) (λ b. (refl, (ground arith)))
      (λ b. bit_strings-AreBits prefix 0 depth)
