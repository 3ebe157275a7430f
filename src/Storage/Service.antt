-- ===== src/Storage/Service.antt =====
-- The storage of etl/storage as the controller and the processor see it: the interface of
-- Interfaces, filled by the reads and the writes over one database.
use block_explorer.Prelude.{◌≡◌, Option, none, some, ℤ}
use block_explorer.Models.{empty_pulse}
use block_explorer.Interfaces.{DbError, record_not_found, failed, Storage, PrevLaws}
use block_explorer.Storage.{Gorm, prev_pulse_number_is, with_condition, all_rows}
use block_explorer.Storage.Queries.{
  get_incomplete_pulses, get_pulse_by_prev, get_sequential_pulse, get_next_saved_pulse,
  get_jet_drops,
}
use block_explorer.Storage.Writes.{
  WriteError, Statements, save_jet_drop_data, save_pulse, complete_pulse, sequence_pulse,
}

-- The clients only ask whether a write gives an error.
abbrev pub seen : {S : Type 0} → Option WriteError × S → Option DbError × S
seen (none, s) = (none, s)
seen (some e, s) = (some failed, s)

unfoldable pub service : (sql : Statements) → (sql.State → Gorm) → Storage
service sql reads = record {
  State = sql.State;
  save_jet_drop_data = λ d records n s. seen (save_jet_drop_data sql d records n s);
  save_pulse = λ p s. seen (save_pulse sql p s);
  complete_pulse = λ n s. seen (complete_pulse sql n s);
  sequence_pulse = λ n s. seen (sequence_pulse sql n s);
  get_incomplete_pulses = λ s. get_incomplete_pulses (reads s);
  get_sequential_pulse = λ s. get_sequential_pulse (reads s);
  get_pulse_by_prev = λ p s. get_pulse_by_prev (reads s) p;
  get_next_saved_pulse = λ p completed_only s. get_next_saved_pulse (reads s) p completed_only;
  get_jet_drops = λ p s. get_jet_drops (reads s) p;
}

-- gorm's `First`: the row that it finds meets the condition, and when it finds none the variable is
-- left as it was, which is empty.
pub record FirstLaws (gorm : Gorm) : Type 0 where
  pub meets :
      (n : ℤ)
      → let answer = gorm.first_pulse (with_condition (prev_pulse_number_is n) all_rows) in
        answer.1 ≡ none → answer.0.prev_pulse_number ≡ n
  pub left_empty :
      (n : ℤ)
      → let answer = gorm.first_pulse (with_condition (prev_pulse_number_is n) all_rows) in
        answer.1 ≡ some record_not_found → answer.0 ≡ empty_pulse

-- Over any database whose `First` keeps to its description, the storage gives the pulse loop of the
-- controller what that relies on.
pub service-PrevLaws :
    (sql : Statements) (reads : sql.State → Gorm)
    → ((s : sql.State) → FirstLaws (reads s))
    → PrevLaws (service sql reads)
unfolding service get_pulse_by_prev
service-PrevLaws sql reads laws = record {
  found = λ p s e. (laws s).meets p.pulse_number e;
  missing = λ p s e. (laws s).left_empty p.pulse_number e;
}
