-- ===== src/Controller/Register.antt =====
-- etl/controller/controller.go and pulsemaintainer.go: the register of jet drops of pulses that are
-- not complete. The storage is a parameter; what is asked of it and of the extractor is kept as a
-- list of calls. Each lock makes one step of its block.
pub mod Entries
pub mod Erasing
pub mod Calls
pub mod Cleaning
pub mod Members
use block_explorer.Prelude.{
  ℕ, zero, suc, ◌+◌, ◌-◌, Bool, true, false, Option, none, some, List, [], ◌∷◌, ◌++◌, Text, ℤ, pos,
  ltb_ℤ, Map, lookup, insert, delete, ◌==◌, nat_eq, int_eq, if◌then◌else◌,
}
use block_explorer.Models.{PulseData, pulse_data_eq, Pulse, JetDrop, empty_pulse, pulse_beq}
use block_explorer.Interfaces.{Storage, DbError}
use block_explorer.Controller.Completeness.{pulse_is_complete, contains}
use block_explorer.Controller.MissedData.{MissedDataManager, add}

abbrev pub Register : Type 0
Register = Map PulseData (List Text)

pub data Call : Type 0 where
  completes : ℤ → Call
  sequences : ℤ → Call
  loads : ℤ → ℤ → Call

pub record Controller : Type 0 where
  pub jet_drop_register : Register
  pub missed_data_manager : MissedDataManager
  pub sequential_pulse : Pulse
  pub incomplete_pulse_counter : ℕ
  pub platform_version : ℕ

pub record World (State : Type 0) : Type 0 where
  pub controller : Controller
  pub db : State
  pub calls : List Call

-- `m[k] = struct{}{}`
unfoldable pub add_jet : Text → List Text → List Text
add_jet jet_id d = if contains jet_id d then d else d ++ jet_id ∷ []

abbrev pub or_empty : Option (List Text) → List Text
or_empty none = []
or_empty (some d) = d

-- A missing entry is made first, and then the jet id is put into it.
unfoldable pub register_jet : PulseData → Text → Register → Register
register_jet pulse jet_id r = insert pulse (add_jet jet_id (or_empty (lookup pulse r))) r

unfoldable pub set_jet_drop_data : PulseData → Text → Controller → Controller
set_jet_drop_data pulse jet_id c = record c {
  jet_drop_register = register_jet pulse jet_id c.jet_drop_register;
}

unfoldable pub register_all : List (PulseData × Text) → Register → Register
register_all [] r = r
register_all ((pulse, jet_id) ∷ more) r = register_all more (register_jet pulse jet_id r)

-- `for p := range jetDropRegisterCopy`
unfoldable pub clean_loop : ℤ → Register → Register → Register
clean_loop sequential [] r = r
clean_loop sequential ((p, d) ∷ copy) r =
    clean_loop sequential copy (if ltb_ℤ p.pulse_no sequential then delete p r else r)

unfoldable pub clean_jet_drop_register : Controller → Controller
clean_jet_drop_register c = record c {
  jet_drop_register =
      clean_loop c.sequential_pulse.pulse_number c.jet_drop_register c.jet_drop_register;
}

-- The key of a pulse that is read back from the database.
unfoldable pub restart_key : Pulse → PulseData
restart_key p = record {
  pulse_no = p.pulse_number;
  epoch_pulse_no = pos 0;
  pulse_timestamp = pos 0;
  next_pulse_number = p.next_pulse_number;
  prev_pulse_number = p.prev_pulse_number;
}

-- Before the first pulse the range begins below the platform's first pulse number.
abbrev pub start_of : ℕ → ℤ → ℤ
start_of min_time_pulse from_pulse =
    if from_pulse == pos 0 then pos (min_time_pulse - 1) else from_pulse

-- The constants of the platform and the storage behind the interface.
module _ (storage : Storage) (min_time_pulse : ℕ) where
  abbrev pub W : Type 0
  W = World storage.State

  unfoldable pub reload_data : ℕ → ℤ → ℤ → W → W
  reload_data now from_pulse to_pulse w =
      let start = start_of min_time_pulse from_pulse in
      let (mdm, added) = add now start to_pulse w.controller.missed_data_manager in
      let w' = record w { controller = record w.controller { missed_data_manager = mdm } } in
      if added then record w' { calls = w.calls ++ loads start to_pulse ∷ [] } else w'

  -- What is done with the answer of `CompletePulse`.
  unfoldable pub completed : PulseData → Option DbError × storage.State → W → W
  completed p (none, db) w = record w {
    controller = record w.controller {
      jet_drop_register = delete p w.controller.jet_drop_register;
    };
    db = db;
    calls = w.calls ++ completes p.pulse_no ∷ [];
  }
  completed p (some e, db) w = record w { db = db; calls = w.calls ++ completes p.pulse_no ∷ [] }

  -- The body of the loop over the copy of the register. A panic is `none`.
  unfoldable pub erase_entry : ℕ → PulseData × List Text → W → Option W
  erase_entry now (p, d) w = elim (pulse_is_complete d) [
    | none ↦ none
    | some complete ↦
        if complete
        then some (completed p (storage.complete_pulse p.pulse_no w.db) w)
        else if w.controller.platform_version == 1
        then some w
        else some (reload_data now p.prev_pulse_number p.pulse_no w)
  ]

  abbrev pub arrive : List (PulseData × Text) → W → W
  arrive jets w = record w {
    controller = record w.controller {
      jet_drop_register = register_all jets w.controller.jet_drop_register;
    };
  }

  -- `arrivals i` are the jet drops that the processor reports before round `i`, and `clock i` is
  -- what the clock shows then.
  unfoldable pub erase_loop : (ℕ → List (PulseData × Text)) → (ℕ → ℕ) → ℕ → Register → W → Option W
  erase_loop arrivals clock i [] w = some w
  erase_loop arrivals clock i (entry ∷ copy) w =
      elim (erase_entry (clock i) entry (arrive (arrivals i) w)) [
        | none ↦ none
        | some w' ↦ erase_loop arrivals clock (suc i) copy w'
      ]

  -- The counter of the first version of the platform.
  unfoldable pub count_round : W → W
  count_round w =
      if w.controller.platform_version == 1
      then (let c =
            if w.controller.incomplete_pulse_counter == 1000
            then record (clean_jet_drop_register w.controller) { incomplete_pulse_counter = 0 }
            else w.controller in
          record w {
            controller = record c { incomplete_pulse_counter = c.incomplete_pulse_counter + 1 };
          })
      else w

  unfoldable pub erase_jet_drop_register : (ℕ → List (PulseData × Text)) → (ℕ → ℕ) → W → Option W
  erase_jet_drop_register arrivals clock w =
      elim (erase_loop arrivals clock 0 w.controller.jet_drop_register w) [
        | none ↦ none
        | some w' ↦ some (count_round w')
      ]
