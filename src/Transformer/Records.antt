-- ===== src/Transformer/Records.antt =====
-- etl/transformer/transformer.go: a record of the platform as a canonical one, and the records of a
-- pulse by their jets.
use block_explorer.Prelude.{
  ℕ, Bool, Option, none, some, List, [], ◌∷◌, ◌++◌, Text, Map, lookup, insert, ◌==◌, nat_eq,
  list_eq, if◌then◌else◌,
}
use block_explorer.Models.{CanonicalRecord, RecordType, state, request, result}
use block_explorer.Platform.{
  Jet, Virtual, activate, amend, deactivate, incoming_request, outgoing_request, other,
  PlatformRecord, PlatformPulseData,
}

-- What is asked of the platform's library: the genesis pulse, the reference that a method has in
-- it, the epoch of a pulse, and of a jet's id whether it is valid, its depth and its prefix.
pub record Ids : Type 0 where
  pub min_time_pulse : ℕ
  pub genesis_ref : Text → Text
  pub as_epoch : ℕ → ℕ
  pub is_valid : Text → Bool
  pub depth : Text → ℕ
  pub prefix : Text → Text

-- A canonical record, UnsupportedRecordTypeError, or no raw data.
pub data Transferred : Type 0 where
  canonical : CanonicalRecord → Transferred
  unsupported no_raw_data : Transferred

abbrev pub ByJet : Type 0
ByJet = Map Text (List CanonicalRecord)

abbrev pub or_empty : Option (List CanonicalRecord) → List CanonicalRecord
or_empty none = []
or_empty (some records) = records

module _ (ids : Ids) where
  -- The records of the genesis name their object in a place of their own.
  unfoldable pub in_genesis : PlatformRecord → Text → Text
  in_genesis r reference = if r.pulse == ids.min_time_pulse then reference else r.object_id

  -- What all kinds of records have.
  abbrev pub common : PlatformRecord → Text → RecordType → CanonicalRecord
  common r raw_data record_type = record {
    record_type = record_type;
    ref = r.id;
    object_reference = r.object_id;
    prototype_reference = [];
    prev_record_reference = [];
    record_payload = [];
    hash = r.hash;
    raw_data = raw_data;
    order = r.record_number;
  }

  unfoldable pub by_kind : Virtual → PlatformRecord → Text → Transferred
  by_kind (activate image memory req) r raw_data = canonical (record (common r raw_data state) {
    prototype_reference = image;
    record_payload = memory;
    object_reference = in_genesis r req;
  })
  by_kind (amend image memory prev_state_id req) r raw_data =
      canonical (record (common r raw_data state) {
        prototype_reference = image;
        record_payload = memory;
        prev_record_reference = prev_state_id;
        object_reference = in_genesis r req;
      })
  by_kind (deactivate prev_state_id) r raw_data =
      canonical (record (common r raw_data state) { prev_record_reference = prev_state_id })
  by_kind (Virtual.result payload object) r raw_data =
      canonical (record (common r raw_data result) {
        record_payload = payload;
        object_reference = in_genesis r object;
      })
  by_kind (incoming_request method) r raw_data = canonical (record (common r raw_data request) {
    object_reference = in_genesis r (ids.genesis_ref method);
  })
  by_kind outgoing_request r raw_data = canonical (common r raw_data request)
  by_kind other r raw_data = unsupported

  unfoldable pub transfer_to_canonical_record : PlatformRecord → Transferred
  transfer_to_canonical_record r = elim r.raw_data [
    | none ↦ no_raw_data
    | some raw_data ↦ by_kind r.virtual r raw_data
  ]

  unfoldable pub without_records : List Jet → ByJet → ByJet
  without_records [] res = res
  without_records (jet ∷ jets) res = without_records jets (insert jet.jet_id [] res)

  -- `res[jetID] = append(res[jetID], record)`
  unfoldable pub collect_record : Text → CanonicalRecord → ByJet → ByJet
  collect_record jet_id r res = insert jet_id (or_empty (lookup jet_id res) ++ r ∷ []) res

  -- The loop over the records; an error is `none`.
  unfoldable pub collect_records : List PlatformRecord → ByJet → Option ByJet
  collect_records [] res = some res
  collect_records (r ∷ records) res = elim (transfer_to_canonical_record r) [
    | canonical c ↦ collect_records records (collect_record r.jet_id c res)
    | unsupported ↦ collect_records records res
    | no_raw_data ↦ none
  ]

  unfoldable pub get_records : PlatformPulseData → Option ByJet
  get_records jd = elim jd.records [
    | [] ↦ some (without_records jd.pulse.jets [])
    | r ∷ records ↦ collect_records (r ∷ records) []
  ]
