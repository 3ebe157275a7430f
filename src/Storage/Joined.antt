-- ===== src/Storage/Joined.antt =====
-- etl/storage/storage.go: GetNextCompletePulseFilterByPrototypeReference. The join of the pulses with
-- their records is a parameter, as the other queries' answers are.
use block_explorer.Prelude.{Bool, true, Option, none, some, List, Text, ℤ}
use block_explorer.Models.{Pulse}
use block_explorer.Interfaces.{DbError}

-- The three `Where` calls.
pub record JoinedQuery : Type 0 where
  pub prev_pulse_number : ℤ
  pub is_complete : Bool
  pub prototype_reference_in : List Text

-- `Limit(-1).Find(&pulse)` and `Count(&total)`.
pub record JoinedRows : Type 0 where
  pub find : JoinedQuery → Pulse × Option DbError
  pub count : JoinedQuery → ℤ × Option DbError

unfoldable pub get_next_complete_pulse_filter_by_prototype_reference :
    JoinedRows → ℤ → List Text → Pulse × Option DbError
get_next_complete_pulse_filter_by_prototype_reference db prev_pulse prototypes =
    let q : JoinedQuery = record {
      prev_pulse_number = prev_pulse;
      is_complete = true;
      prototype_reference_in = prototypes;
    } in
    let (pulse, err) = db.find q in
    let (total, err') = db.count q in
    elim err [
      | some e ↦ (pulse, none)
      | none ↦ elim err' [
        | some e ↦ (pulse, none)
        | none ↦ (record pulse { record_amount = total }, none)
      ]
    ]
