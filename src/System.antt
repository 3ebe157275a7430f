-- ===== src/System.antt =====
-- How the processor and the controller's two loops share the storage and the register: the machine of
-- etl/processor/processor.go and etl/controller/pulsemaintainer.go. A jet drop that is saved and
-- reported is one step, and so is each entry of the register's copy that the maintainer looks at.

pub mod Quiet
pub mod Saved
pub mod Sound
pub mod Restart
pub mod Pipeline
use block_explorer.Prelude.{ℕ, Option, none, some, List, [], ◌∷◌}
use block_explorer.Models.{CanonicalJetDrop}
use block_explorer.Interfaces.{Storage}
use block_explorer.Controller.Register.{Register, World, W, erase_entry, count_round}
use block_explorer.Controller.Sequence.{pulse_sequence_round}
use block_explorer.Processor.{process}

-- `round` is what is left of the copy of the register, while `eraseJetDropRegister` runs.
pub record System (State : Type 0) : Type 0 where
  pub world : World State
  pub round : Option Register

-- A jet drop is processed; a round of `eraseJetDropRegister` begins with the copy, looks at its next
-- entry, ends; and a round of `pulseSequence`. The numbers are what the clock shows.
pub data Event : Type 0 where
  processes : CanonicalJetDrop → Event
  begins ends : Event
  looks moves_on : ℕ → Event

module _ (storage : Storage) (min_time_pulse : ℕ) where
  abbrev pub Sys : Type 0
  Sys = System storage.State

  abbrev pub looked : Register → Option (W storage min_time_pulse) → Option Sys
  looked copy none = none
  looked copy (some w) = some (record { world = w; round = some copy })

  unfoldable pub begun : W storage min_time_pulse → Option Register → Option Sys
  begun w (some copy) = none
  begun w none = some (record { world = w; round = some w.controller.jet_drop_register })

  unfoldable pub look : ℕ → W storage min_time_pulse → Option Register → Option Sys
  look now w none = none
  look now w (some []) = none
  look now w (some (entry ∷ copy)) = looked copy (erase_entry storage min_time_pulse now entry w)

  unfoldable pub ended : W storage min_time_pulse → Option Register → Option Sys
  ended w none = none
  ended w (some (entry ∷ copy)) = none
  ended w (some []) = some (record { world = count_round storage min_time_pulse w; round = none })

  -- `none` where the event cannot happen, or makes the program panic.
  unfoldable pub step : Event → Sys → Option Sys
  step (processes jd) s = some (record s { world = (process storage min_time_pulse jd s.world).0 })
  step begins s = begun s.world s.round
  step (looks now) s = look now s.world s.round
  step ends s = ended s.world s.round
  step (moves_on now) s =
      some (record s { world = (pulse_sequence_round storage min_time_pulse now s.world).0 })

  unfoldable pub run : List Event → Sys → Option Sys
  run [] s = some s
  run (event ∷ events) s = elim (step event s) [ none ↦ none | some s' ↦ run events s' ]
