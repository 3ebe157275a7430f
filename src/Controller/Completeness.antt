-- ===== src/Controller/Completeness.antt =====
-- etl/controller/pulsemaintainer.go: `pulseIsComplete`, which decides from the jet ids saved for a
-- pulse whether its jet drops are all there. A map's keys are a list in the order of its `range`;
-- a panic of Go's runtime is `none`.
pub mod Prefixes
pub mod Loops
pub mod Runs
pub mod Covering
pub mod Root
pub mod Panics
use block_explorer.Prelude.{
  ℕ, zero, suc, ◌-◌, Bool, true, false, Option, none, some, List, [], ◌∷◌, ◌||◌, Text, length, take,
  any, ◌==◌, nat_eq, list_eq, if◌then◌else◌,
}

-- How a loop with `return` and `continue` ends: by a panic, by `return false`, or by going
-- on with the loop's variables.
pub data Flow (A : Type 0) : Type 0 where
  panics : Flow A
  returns_false : Flow A
  goes_on : A → Flow A

unfoldable pub flip : ℕ → ℕ
flip c = if c == b'1' then b'0' else b'1'

-- `s[len(s)-1:]` is out of range on the empty string.
unfoldable pub invert_last_symbol : Text → Option Text
unfolding flip
invert_last_symbol [] = none
invert_last_symbol (c ∷ []) = some (flip c ∷ [])
invert_last_symbol (c ∷ d ∷ s) = elim (invert_last_symbol (d ∷ s)) [
  | none ↦ none
  | some t ↦ some (c ∷ t)
]

-- `strings.Index(s, sub) == 0`
unfoldable pub starts_with : Text → Text → Bool
starts_with [] s = true
starts_with (c ∷ sub) [] = false
starts_with (c ∷ sub) (b ∷ s) = if c == b then starts_with sub s else false

unfoldable pub contains : Text → List Text → Bool
contains s d = any (λ j. j == s) d

-- One round of `Main`: the opposite jet drop, or a drop under it.
unfoldable pub has_sibling : List Text → Text → Bool
has_sibling d inverted = contains inverted d || any (starts_with inverted) d

unfoldable pub sibling_round : List Text → Text → Flow (Unit {0})
sibling_round d jet_id = elim (invert_last_symbol jet_id) [
  | none ↦ panics
  | some inverted ↦ if has_sibling d inverted then goes_on tt else returns_false
]

unfoldable pub sibling_loop : List Text → List Text → Flow (Unit {0})
sibling_loop d [] = goes_on tt
sibling_loop d (jet_id ∷ ids) = elim (sibling_round d jet_id) [
  | panics ↦ panics
  | returns_false ↦ returns_false
  | goes_on _ ↦ sibling_loop d ids
]

-- One round of `ParentIterator`, with the strings found so far.
unfoldable pub parent_round : List Text → List Text → Text → Flow (List Text)
parent_round d checked parent = elim (invert_last_symbol parent) [
  | none ↦ panics
  | some inverted ↦
      if contains inverted checked
      then goes_on checked
      else if any (starts_with inverted) d
      then goes_on (inverted ∷ checked)
      else returns_false
]

-- `for i := n; i >= 1; i--`
unfoldable pub parent_iterator : List Text → List Text → Text → ℕ → Flow (List Text)
parent_iterator d checked jet_id zero = goes_on checked
parent_iterator d checked jet_id (suc i) = elim (parent_round d checked (take (suc i) jet_id)) [
  | panics ↦ panics
  | returns_false ↦ returns_false
  | goes_on checked' ↦ parent_iterator d checked' jet_id i
]

unfoldable pub parent_loop : List Text → List Text → List Text → Flow (List Text)
parent_loop d checked [] = goes_on checked
parent_loop d checked (jet_id ∷ ids) = elim (parent_iterator d checked jet_id (length jet_id - 1)) [
  | panics ↦ panics
  | returns_false ↦ returns_false
  | goes_on checked' ↦ parent_loop d checked' ids
]

unfoldable pub both_loops : List Text → Option Bool
both_loops d = elim (sibling_loop d d) [
  | panics ↦ none
  | returns_false ↦ some false
  | goes_on _ ↦ elim (parent_loop d [] d) [
    | panics ↦ none
    | returns_false ↦ some false
    | goes_on _ ↦ some true
  ]
]

unfoldable pub pulse_is_complete : List Text → Option Bool
pulse_is_complete [] = some false
pulse_is_complete ([] ∷ []) = some true
pulse_is_complete d = both_loops d
