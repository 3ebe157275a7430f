-- ===== src/Tests/Fixtures.antt =====
-- A small database: three pulses in a chain, of which the last is not complete, and a switch that
-- makes every write fail.
use block_explorer.Prelude.{
  ◌≡◌, refl, sym, inl, inr, Bool, true, false, Option, none, some, [], ◌∷◌, codes, arith, pos, ◌==◌,
  int_eq, ==_true, Bool-cases, if◌then◌else◌,
}
use block_explorer.Models.{
  PulseData, CanonicalRecord, CanonicalJetDrop, request, JetDrop, Pulse, empty_pulse,
}
use block_explorer.Interfaces.{DbError, record_not_found, failed, Storage, PrevLaws}
use block_explorer.Controller.Register.{Register, Controller, World}

abbrev pub pulse_10 : Pulse
pulse_10 = record empty_pulse { pulse_number = pos 10; is_complete = true; is_sequential = true }

abbrev pub pulse_20 : Pulse
pulse_20 = record empty_pulse {
  pulse_number = pos 20;
  prev_pulse_number = pos 10;
  is_complete = true;
}

abbrev pub pulse_30 : Pulse
pulse_30 = record empty_pulse {
  pulse_number = pos 30;
  prev_pulse_number = pos 20;
  timestamp = pos 7;
}

abbrev pub drop_30 : JetDrop
drop_30 = record {
  pulse_number = pos 30;
  jet_id = codes "01";
  first_prev_hash = [];
  second_prev_hash = [];
  hash = codes "h";
  raw_data = [];
  timestamp = pos 7;
  record_amount = 1;
}

abbrev pub writes : Bool → Option DbError × Bool
writes true = (some failed, true)
writes false = (none, false)

abbrev pub by_prev : Pulse → Pulse × Option DbError
by_prev p =
    if p.pulse_number == pos 10 then (pulse_20, none) else (empty_pulse, some record_not_found)

-- The state says whether the writes fail.
abbrev pub small : Storage
small = record {
  State = Bool;
  save_jet_drop_data = λ drop rows n db. writes db;
  save_pulse = λ p db. writes db;
  complete_pulse = λ n db. writes db;
  sequence_pulse = λ n db. writes db;
  get_incomplete_pulses = λ db. (pulse_30 ∷ [], none);
  get_sequential_pulse = λ db. (pulse_10, none);
  get_pulse_by_prev = λ p db. by_prev p;
  get_next_saved_pulse = λ p completed db. (empty_pulse, none);
  get_jet_drops = λ p db. (drop_30 ∷ [], none);
}

small_found : (p : Pulse) → (by_prev p).1 ≡ none → (by_prev p).0.prev_pulse_number ≡ p.pulse_number
small_found p e = elim (Bool-cases (p.pulse_number == pos 10)) [
  | inl b ↦ rw b (sym (==_true p.pulse_number (pos 10) b))
  | inr b ↦ absurd (ground arith)
]

small_missing : (p : Pulse) → (by_prev p).1 ≡ some record_not_found → (by_prev p).0 ≡ empty_pulse
small_missing p e = elim (Bool-cases (p.pulse_number == pos 10)) [
  | inl b ↦ absurd (ground arith)
  | inr b ↦ rw b refl
]

pub small_laws : PrevLaws small
small_laws = record { found = λ p s e. small_found p e; missing = λ p s e. small_missing p e }

abbrev pub data_30 : PulseData
data_30 = record {
  pulse_no = pos 30;
  epoch_pulse_no = pos 1;
  pulse_timestamp = pos 7;
  next_pulse_number = pos 40;
  prev_pulse_number = pos 20;
}

abbrev pub data_40 : PulseData
data_40 = record data_30 {
  pulse_no = pos 40;
  next_pulse_number = pos 50;
  prev_pulse_number = pos 30;
}

-- Half of the jets of one pulse are there, and all of the other's.
abbrev pub register : Register
register = (data_30, codes "0" ∷ []) ∷ (data_40, codes "0" ∷ codes "1" ∷ []) ∷ []

abbrev pub controller : Controller
controller = record {
  jet_drop_register = register;
  missed_data_manager = record { missed_data_pool = []; ttl = 100; clean_period = 10 };
  sequential_pulse = pulse_10;
  incomplete_pulse_counter = 0;
  platform_version = 2;
}

abbrev pub world : World Bool
world = record { controller = controller; db = false; calls = [] }

abbrev pub broken_world : World Bool
broken_world = record world { db = true }

abbrev pub canonical_record : CanonicalRecord
canonical_record = record {
  record_type = request;
  ref = codes "r";
  object_reference = codes "o";
  prototype_reference = [];
  prev_record_reference = [];
  record_payload = [];
  hash = codes "h";
  raw_data = [];
  order = 0;
}

abbrev pub canonical_drop : CanonicalJetDrop
canonical_drop = record {
  main_section = record {
    start = record {
      pulse_data = data_30;
      jet_drop_prefix = codes "1";
      jet_drop_prefix_length = 1;
    };
    drop_continue = record { prev_drop_hash = [] };
    records = canonical_record ∷ canonical_record ∷ [];
  };
  sections = [];
  raw_data = [];
  hash = codes "d";
}
