-- ===== src/Processor.antt =====
-- etl/processor/processor.go: what `process` saves of a canonical jet drop and reports to the
-- controller, and the workers that hand failed jet drops to each other over an unbuffered channel.
pub mod Rows
pub mod Workers
use block_explorer.Prelude.{
  ℕ, zero, suc, ◌≡◌, Option, none, some, List, [], ◌∷◌, Text, ℤ, pos, length, get_or,
}
use block_explorer.Models.{
  PulseData, CanonicalRecord, MainSection, CanonicalJetDrop, record_type_from_types, Record,
  JetDrop, Pulse, empty_pulse,
}
use block_explorer.Interfaces.{Storage, DbError}
use block_explorer.Controller.Register.{W, set_jet_drop_data}

-- The row of the pulse that a jet drop belongs to.
unfoldable pub pulse_row : PulseData → Pulse
pulse_row pd = record empty_pulse {
  pulse_number = pd.pulse_no;
  prev_pulse_number = pd.prev_pulse_number;
  next_pulse_number = pd.next_pulse_number;
  timestamp = pd.pulse_timestamp;
}

-- A hash that is missing is nil.
unfoldable pub jet_drop_row : CanonicalJetDrop → JetDrop
jet_drop_row jd =
    let ms = jd.main_section in
    let pd = ms.start.pulse_data in
    record {
      pulse_number = pd.pulse_no;
      jet_id = ms.start.jet_drop_prefix;
      first_prev_hash = get_or ms.drop_continue.prev_drop_hash 0 [];
      second_prev_hash = get_or ms.drop_continue.prev_drop_hash 1 [];
      hash = jd.hash;
      raw_data = jd.raw_data;
      timestamp = pd.pulse_timestamp;
      record_amount = length ms.records;
    }

unfoldable pub record_row : JetDrop → ℕ → CanonicalRecord → Record
record_row mjd i r = record {
  reference = r.ref;
  record_type = record_type_from_types r.record_type;
  object_reference = r.object_reference;
  prototype_reference = r.prototype_reference;
  payload = r.record_payload;
  prev_record_reference = r.prev_record_reference;
  hash = r.hash;
  raw_data = r.raw_data;
  jet_id = mjd.jet_id;
  pulse_number = mjd.pulse_number;
  order = i;
  timestamp = mjd.timestamp;
}

-- The loop over the records, which counts from `i`.
unfoldable pub record_rows : JetDrop → ℕ → List CanonicalRecord → List Record
record_rows mjd i [] = []
record_rows mjd i (r ∷ records) = record_row mjd i r ∷ record_rows mjd (suc i) records

-- The two messages of `process`.
pub data ProcessError : Type 0 where
  cannot_save_pulse : DbError → ProcessError
  cannot_save_jet_drop : DbError → ProcessError

module _ (storage : Storage) (min_time_pulse : ℕ) where
  unfoldable pub process :
      CanonicalJetDrop → W storage min_time_pulse → W storage min_time_pulse × Option ProcessError
  process jd w =
      let pd = jd.main_section.start.pulse_data in
      let mjd = jet_drop_row jd in
      let (err, db) = storage.save_pulse (pulse_row pd) w.db in
      elim err [
        | some e ↦ (record w { db = db }, some (cannot_save_pulse e))
        | none ↦
            let (err', db') =
              storage.save_jet_drop_data mjd (record_rows mjd 0 jd.main_section.records)
                (pulse_row pd).pulse_number db in
            elim err' [
              | some e ↦ (record w { db = db' }, some (cannot_save_jet_drop e))
              | none ↦ (
                record w { controller = set_jet_drop_data pd mjd.jet_id w.controller; db = db' },
                none,
              )
            ]
      ]
