-- ===== src/Controller/Sequence.antt =====
-- etl/controller/pulsemaintainer.go: the loop `pulseSequence`, one round of it, which moves the
-- sequential pulse on or asks for the gap behind it; a list of rounds, between which other
-- goroutines change the database; and what `Start` reads in controller.go.
pub mod Chain
pub mod Start
pub mod Progress
use block_explorer.Prelude.{
  ℕ, zero, suc, Bool, true, false, Option, none, some, List, [], ◌∷◌, ◌++◌, Text, ℤ, pos, insert,
  ◌==◌, nat_eq, if◌then◌else◌,
}
use block_explorer.Models.{Pulse, PulseData, JetDrop, pulse_data_eq, empty_pulse, pulse_beq}
use block_explorer.Interfaces.{Storage, DbError, is_failure}
use block_explorer.Controller.Register.{
  Controller, World, W, Call, sequences, reload_data, restart_key, register_jet, Register,
}

module _ (storage : Storage) (min_time_pulse : ℕ) where
  abbrev pub S : Type 0
  S = World storage.State

  -- What is done with the answer of `SequencePulse`; `true` asks for the next round at once.
  unfoldable pub sequenced : Pulse → Option DbError × storage.State → S → S × Bool
  sequenced next (none, db) w = (
    record w {
      controller = record w.controller { sequential_pulse = next };
      db = db;
      calls = w.calls ++ sequences next.pulse_number ∷ [];
    },
    true,
  )
  sequenced next (some e, db) w =
      (record w { db = db; calls = w.calls ++ sequences next.pulse_number ∷ [] }, false)

  -- The gap up to the next saved pulse is loaded.
  unfoldable pub fill_gap : ℕ → Pulse × Option DbError → S → S × Bool
  fill_gap now (to_pulse, err) w =
      if is_failure err
      then (w, false)
      else if pulse_beq to_pulse empty_pulse
      then (w, false)
      else (
        reload_data storage min_time_pulse now w.controller.sequential_pulse.pulse_number
            to_pulse.prev_pulse_number w,
        false,
      )

  unfoldable pub after_next : ℕ → Pulse × Option DbError → S → S × Bool
  after_next now (next, err) w =
      if is_failure err
      then (w, false)
      else if next.is_complete
      then sequenced next (storage.sequence_pulse next.pulse_number w.db) w
      else fill_gap now
          (storage.get_next_saved_pulse w.controller.sequential_pulse
            (w.controller.platform_version == 1) w.db)
          w

  unfoldable pub pulse_sequence_round : ℕ → S → S × Bool
  pulse_sequence_round now w =
      after_next now (storage.get_pulse_by_prev w.controller.sequential_pulse w.db) w

  -- Each round comes with the clock and with what others have made of the database meanwhile.
  unfoldable pub pulse_sequence : List (ℕ × (storage.State → storage.State)) → S → S
  pulse_sequence [] w = w
  pulse_sequence ((now, others) ∷ rounds) w =
      pulse_sequence rounds (pulse_sequence_round now (record w { db = others w.db })).0

  -- controller.go: `setSeqPulse`; an error leaves what the query returned.
  unfoldable pub set_seq_pulse : S → S × Option DbError
  set_seq_pulse w =
      let (pulse, err) = storage.get_sequential_pulse w.db in
      (record w { controller = record w.controller { sequential_pulse = pulse } }, err)

  unfoldable pub register_drops : PulseData → List JetDrop → Register → Register
  register_drops key [] r = r
  register_drops key (jd ∷ drops) r = register_drops key drops (register_jet key jd.jet_id r)

  -- The loop of `setIncompletePulses` over the pulses; an entry begins empty.
  unfoldable pub register_pulses : storage.State → List Pulse → Register → Register × Option DbError
  register_pulses db [] r = (r, none)
  register_pulses db (p ∷ pulses) r =
      let r' = insert (restart_key p) [] r in
      elim (storage.get_jet_drops p db).1 [
        | none ↦
            register_pulses db pulses
              (register_drops (restart_key p) (storage.get_jet_drops p db).0 r')
        | some e ↦ (r', some e)
      ]

  unfoldable pub set_incomplete_pulses : S → S × Option DbError
  set_incomplete_pulses w =
      let (pulses, err) = storage.get_incomplete_pulses w.db in
      elim err [
        | some e ↦ (w, some e)
        | none ↦
            let (r, err') = register_pulses w.db pulses w.controller.jet_drop_register in
            (record w { controller = record w.controller { jet_drop_register = r } }, err')
      ]

  -- `Start`, up to the two goroutines that it leaves running.
  unfoldable pub start : S → S × Option DbError
  start w =
      let (w', err) = set_incomplete_pulses w in
      elim err [ some e ↦ (w', some e) | none ↦ set_seq_pulse w' ]
