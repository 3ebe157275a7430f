-- ===== src/Models.antt =====
-- etl/models/models.go and etl/types/types.go: the rows of the database and the canonical jet drops.
-- A byte slice and a string are their bytes, an int64 is an integer.
pub mod JetDropId
pub mod Siblings
use block_explorer.Prelude.{
  ℕ, ◌≡◌, ◌↔◌, Bool, true, false, ◌&&◌, List, [], ◌∷◌, arith, Text, codes, Option, ℤ, pos, Eq,
  int_beq, int_beq_iff, inl, inr, refl,
}

-- types.RecordType
pub data RecordType : Type 0 where
  state request result : RecordType

-- types.Pulse
pub record PulseData : Type 0 where
  pub pulse_no : ℤ
  pub epoch_pulse_no : ℤ
  pub pulse_timestamp : ℤ
  pub next_pulse_number : ℤ
  pub prev_pulse_number : ℤ

-- types.Record
pub record CanonicalRecord : Type 0 where
  pub record_type : RecordType
  pub ref : Text
  pub object_reference : Text
  pub prototype_reference : Text
  pub prev_record_reference : Text
  pub record_payload : Text
  pub hash : Text
  pub raw_data : Text
  pub order : ℕ

-- types.DropStart, types.DropContinue and types.MainSection
pub record DropStart : Type 0 where
  pub pulse_data : PulseData
  pub jet_drop_prefix : Text
  pub jet_drop_prefix_length : ℕ

pub record DropContinue : Type 0 where
  pub prev_drop_hash : List Text

pub record MainSection : Type 0 where
  pub start : DropStart
  pub drop_continue : DropContinue
  pub records : List CanonicalRecord

-- types.Section
pub data Section : Type 0 where
  main_section : MainSection → Section
  additional_section : List CanonicalRecord → Section

-- types.JetDrop
pub record CanonicalJetDrop : Type 0 where
  pub main_section : MainSection
  pub sections : List Section
  pub raw_data : Text
  pub hash : Text

-- models.RecordTypeFromTypes, with the names of the database's enum.
unfoldable pub record_type_from_types : RecordType → Text
record_type_from_types state = codes "state"
record_type_from_types request = codes "request"
record_type_from_types result = codes "result"

-- models.Record
pub record Record : Type 0 where
  pub reference : Text
  pub record_type : Text
  pub object_reference : Text
  pub prototype_reference : Text
  pub payload : Text
  pub prev_record_reference : Text
  pub hash : Text
  pub raw_data : Text
  pub jet_id : Text
  pub pulse_number : ℤ
  pub order : ℕ
  pub timestamp : ℤ

-- models.JetDrop
pub record JetDrop : Type 0 where
  pub pulse_number : ℤ
  pub jet_id : Text
  pub first_prev_hash : Text
  pub second_prev_hash : Text
  pub hash : Text
  pub raw_data : Text
  pub timestamp : ℤ
  pub record_amount : ℕ

-- models.Pulse
pub record Pulse : Type 0 where
  pub pulse_number : ℤ
  pub prev_pulse_number : ℤ
  pub next_pulse_number : ℤ
  pub is_complete : Bool
  pub is_sequential : Bool
  pub timestamp : ℤ
  pub jet_drop_amount : ℤ
  pub record_amount : ℤ

-- `models.Pulse{}`
abbrev pub empty_pulse : Pulse
empty_pulse = record {
  pulse_number = pos 0;
  prev_pulse_number = pos 0;
  next_pulse_number = pos 0;
  is_complete = false;
  is_sequential = false;
  timestamp = pos 0;
  jet_drop_amount = pos 0;
  record_amount = pos 0;
}

abbrev pub bool_beq : Bool → Bool → Bool
bool_beq true b = b
bool_beq false true = false
bool_beq false false = true

-- Go's `==` on structs.
pub pulse_beq : Pulse → Pulse → Bool
pulse_beq p q =
    int_beq p.pulse_number q.pulse_number
    && int_beq p.prev_pulse_number q.prev_pulse_number
    && int_beq p.next_pulse_number q.next_pulse_number
    && bool_beq p.is_complete q.is_complete
    && bool_beq p.is_sequential q.is_sequential
    && int_beq p.timestamp q.timestamp
    && int_beq p.jet_drop_amount q.jet_drop_amount
    && int_beq p.record_amount q.record_amount

abbrev pub pulse_data_beq : PulseData → PulseData → Bool
pulse_data_beq p q =
    int_beq p.pulse_no q.pulse_no
    && int_beq p.epoch_pulse_no q.epoch_pulse_no
    && int_beq p.pulse_timestamp q.pulse_timestamp
    && int_beq p.next_pulse_number q.next_pulse_number
    && int_beq p.prev_pulse_number q.prev_pulse_number

pub pulse_data_beq_iff : (p q : PulseData) → (pulse_data_beq p q ≡ true) ↔ (p ≡ q)
pulse_data_beq_iff p q = ground arith

instance abbrev pub pulse_data_eq : Eq PulseData
pulse_data_eq = record { same = pulse_data_beq; same_iff = pulse_data_beq_iff }
