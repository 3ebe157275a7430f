-- ===== src/Tests/Models.antt =====
-- Names and relatives of jet drops on small inputs.
use block_explorer.Prelude.{◌≡◌, refl, inl, inr, some, codes, arith, In, pos}
use block_explorer.Models.JetDropId.{
  JetDropId, IsValid, to_string, new_jet_drop_id_from_string, from_string-to_string,
  from_string-IsValid,
}
use block_explorer.Models.Siblings.{siblings}

abbrev drop_id : JetDropId
drop_id = record { jet_id = codes "011"; pulse_number = pos 65540 }

drop_id-IsValid : IsValid drop_id
drop_id-IsValid = record { bits = refl; short = omega arith; in_range = omega arith }

from_string-to_string_example : new_jet_drop_id_from_string (to_string drop_id) ≡ some drop_id
from_string-to_string_example = from_string-to_string drop_id drop_id-IsValid

from_string-IsValid_example : IsValid drop_id
from_string-IsValid_example =
    from_string-IsValid (to_string drop_id) drop_id (from_string-to_string drop_id drop_id-IsValid)

parent_is_sibling : In (codes "0") (siblings (codes "01"))
unfolding siblings
parent_is_sibling = inr (inr (inr (inl refl)))
