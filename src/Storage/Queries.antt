-- ===== src/Storage/Queries.antt =====
-- etl/storage/storage.go: the reads of records and of jet drops, and of single pulses.
use block_explorer.Prelude.{
  ◌++◌, Bool, true, false, Option, none, some, List, [], ◌∷◌, Text, codes, ℤ, pos, ◌==◌, int_eq,
  if◌then◌else◌,
}
use block_explorer.Models.{Record, JetDrop, Pulse, empty_pulse}
use block_explorer.Models.JetDropId.{JetDropId}
use block_explorer.Models.Siblings.{siblings, get_jet_id_parents}
use block_explorer.Interfaces.{DbError}
use block_explorer.Storage.{
  pulse_number_is, pulse_number_gt, prev_pulse_number_is, is_complete, is_sequential, reference_is,
  object_reference_is, type_is, jet_id_is, jet_id_ge, jet_id_in, jet_id_in_or_like, pulse_asc,
  pulse_desc, jet_id_asc, pulse_asc_jet_desc, pulse_desc_jet_asc, Query, Gorm, StorageError,
  wrong_index, database, with_condition, all_rows, filter_by_pulse, filter_by_pulse_number,
  filter_by_timestamp, filter_records_by_index, sort_records_by_direction, unknown,
  update_next_pulse,
}

unfoldable pub from_optional_index : Option Text → Bool → Query → Option Query
from_optional_index none asc q = some q
from_optional_index (some i) asc q = filter_records_by_index i asc q

unfoldable pub with_type : Option Text → Query → Query
with_type none q = q
with_type (some t) q = with_condition (type_is t) q

unfoldable pub from_jet_drop : Option JetDropId → Query → Query
from_jet_drop none q = q
from_jet_drop (some j) q = with_condition (jet_id_ge j.jet_id) q

abbrev pub first_or_empty : List Pulse → Pulse
first_or_empty [] = empty_pulse
first_or_empty (p ∷ _) = p

module _ (gorm : Gorm) where
  -- getRecords
  unfoldable pub page_of_records : Query → ℤ → ℤ → List Record × ℤ × Option StorageError
  page_of_records q limit offset =
      let (records, err) = gorm.find_records q (some limit) (some offset) in
      elim err [
        | some e ↦ ([], pos 0, some (database e))
        | none ↦
            let (total, err') = gorm.count_records q in
            elim err' [ some e ↦ ([], pos 0, some (database e)) | none ↦ (records, total, none) ]
      ]

  abbrev page_from : Option Query → Bool → ℤ → ℤ → List Record × ℤ × Option StorageError
  page_from none asc limit offset = ([], pos 0, some wrong_index)
  page_from (some q) asc limit offset =
      page_of_records (sort_records_by_direction asc q) limit offset

  unfoldable pub get_lifeline :
      Text
      → Option Text
      → Option ℤ
      → Option ℤ
      → Option ℤ
      → Option ℤ
      → ℤ
      → ℤ
      → Bool
      → List Record × ℤ × Option StorageError
  get_lifeline obj_ref from_index lt gt t_lte t_gte limit offset sort_by_index_asc =
      let q =
        with_condition (type_is (codes "state"))
          (with_condition (object_reference_is obj_ref) all_rows) in
      page_from
        (from_optional_index from_index sort_by_index_asc
          (filter_by_timestamp t_lte t_gte (filter_by_pulse lt gt q)))
        sort_by_index_asc limit offset

  unfoldable pub get_records_by_jet_drop :
      JetDropId → Option Text → Option Text → ℤ → ℤ → List Record × ℤ × Option StorageError
  get_records_by_jet_drop id from_index record_type limit offset =
      let q =
        with_condition (jet_id_is id.jet_id)
          (with_condition (pulse_number_is id.pulse_number) all_rows) in
      page_from (from_optional_index from_index true (with_type record_type q)) true limit offset

  unfoldable pub get_record : Text → Record × Option DbError
  get_record ref = gorm.first_record (with_condition (reference_is ref) all_rows)

  unfoldable pub get_incomplete_pulses : List Pulse × Option DbError
  get_incomplete_pulses = gorm.find_pulses (with_condition (is_complete false) all_rows) none none

  unfoldable pub get_pulse_by_prev : Pulse → Pulse × Option DbError
  get_pulse_by_prev p =
      gorm.first_pulse (with_condition (prev_pulse_number_is p.pulse_number) all_rows)

  -- The first of at most one row, or the empty pulse.
  unfoldable pub one_pulse : Query → Pulse × Option DbError
  one_pulse q =
      let (pulses, err) = gorm.find_pulses q (some (pos 1)) none in
      elim err [ some e ↦ (empty_pulse, some e) | none ↦ (first_or_empty pulses, none) ]

  unfoldable pub get_sequential_pulse : Pulse × Option DbError
  get_sequential_pulse =
      one_pulse (record (with_condition (is_sequential true) all_rows) { order = pulse_desc })

  unfoldable pub get_next_saved_pulse : Pulse → Bool → Pulse × Option DbError
  get_next_saved_pulse p completed_only =
      let q = with_condition (pulse_number_gt p.pulse_number) all_rows in
      let q' = if completed_only then with_condition (is_complete true) q else q in
      one_pulse (record q' { order = pulse_asc })

  unfoldable pub get_jet_drops : Pulse → List JetDrop × Option DbError
  get_jet_drops p =
      gorm.find_jet_drops (with_condition (pulse_number_is p.pulse_number) all_rows) none none

  unfoldable pub page_of_jet_drops : Query → ℤ → Option ℤ → List JetDrop × ℤ × Option DbError
  page_of_jet_drops q limit offset =
      let (jet_drops, err) = gorm.find_jet_drops q (some limit) offset in
      elim err [
        | some e ↦ ([], pos 0, some e)
        | none ↦
            let (total, err') = gorm.count_jet_drops q in
            elim err' [ some e ↦ ([], pos 0, some e) | none ↦ (jet_drops, total, none) ]
      ]

  unfoldable pub get_jet_drops_with_params :
      Pulse → Option JetDropId → ℤ → ℤ → List JetDrop × ℤ × Option DbError
  get_jet_drops_with_params p from_jet_drop_id limit offset =
      let q = record (with_condition (pulse_number_is p.pulse_number) all_rows) {
        order = jet_id_asc;
      } in
      page_of_jet_drops (from_jet_drop from_jet_drop_id q) limit (some offset)

  unfoldable pub get_jet_drops_by_jet_id :
      Text
      → Option ℤ
      → Option ℤ
      → Option ℤ
      → Option ℤ
      → ℤ
      → Bool
      → List JetDrop × ℤ × Option DbError
  get_jet_drops_by_jet_id jet_id lte lt gte gt limit sort_by_pn_asc =
      let q =
        with_condition (jet_id_in_or_like (get_jet_id_parents jet_id) (jet_id ++ codes "%"))
          all_rows in
      let filtered = filter_by_pulse_number lte lt gte gt q in
      page_of_jet_drops
        (record filtered {
          order = if sort_by_pn_asc then pulse_asc_jet_desc else pulse_desc_jet_asc;
        })
        limit none

  -- The jet drops of a pulse that are among the siblings of one.
  abbrev among : ℤ → List Text → List JetDrop × Option DbError
  among n jet_ids =
      gorm.find_jet_drops
        (with_condition (jet_id_in jet_ids) (with_condition (pulse_number_is n) all_rows)) none none

  -- A jet drop with those before it and those after it.
  unfoldable pub get_jet_drop_by_id :
      JetDropId → JetDrop × List JetDrop × List JetDrop × Option DbError
  get_jet_drop_by_id id =
      let (jet_drop, err) = gorm.one_jet_drop (
        with_condition (jet_id_is id.jet_id)
          (with_condition (pulse_number_is id.pulse_number) all_rows)) in
      let (found, err') =
        gorm.first_pulse (with_condition (pulse_number_is id.pulse_number) all_rows) in
      let p = update_next_pulse gorm found in
      let jet_ids = siblings jet_drop.jet_id in
      let (next, err_next) =
        if p.next_pulse_number == unknown then ([], none) else among p.next_pulse_number jet_ids in
      let (prev, err_prev) = among p.prev_pulse_number jet_ids in
      elim err [
        | some e ↦ (jet_drop, [], [], some e)
        | none ↦ elim err' [
          | some e ↦ (jet_drop, [], [], some e)
          | none ↦ elim err_next [
            | some e ↦ (jet_drop, [], [], some e)
            | none ↦ elim err_prev [
              | some e ↦ (jet_drop, [], [], some e)
              | none ↦ (jet_drop, prev, next, none)
            ]
          ]
        ]
      ]
