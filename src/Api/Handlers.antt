-- ===== src/Api/Handlers.antt =====
-- api/handlers.go: the handlers. A response is its status and its body; the storage is an interface
-- that etl/storage fills.
pub mod Names
pub mod Guards
pub mod Search
pub mod Lifelines
pub mod JetDrops
use block_explorer.Prelude.{
  ℕ, ◌≡◌, ◌++◌, Bool, true, false, Option, none, some, List, [], ◌∷◌, Text, codes, ℤ, pos, map,
  if◌then◌else◌,
}
use block_explorer.Go.Decimal.{parse_int}
use block_explorer.Models.{Record, JetDrop, Pulse, empty_pulse}
use block_explorer.Models.JetDropId.{JetDropId, new_jet_drop_id_from_string}
use block_explorer.Interfaces.{DbError, record_not_found, failed}
use block_explorer.Storage.{Gorm, StorageError, get_pulse, get_pulses}
use block_explorer.Storage.Queries.{
  get_jet_drop_by_id, get_records_by_jet_drop, get_jet_drops_with_params, get_record, get_lifeline,
  get_jet_drops_by_jet_id, get_next_saved_pulse, get_jet_drops,
}
use block_explorer.Api.{
  Failure, invalid, invalid_with_cause, invalid_value, failure_if, check_limit_offset,
  check_sort_by, check_pulse_number, check_from_index, check_type,
}
use block_explorer.Api.Mappers.{
  Platform, ApiJetDrop, ApiPulse, ApiRecord, transform_prev_next_resp, record_to_api, pulse_to_api,
  jet_drop_to_api,
}

-- interfaces.StorageAPIFetcher
pub record Fetcher : Type 0 where
  pub jet_drop_by_id : JetDropId → JetDrop × List JetDrop × List JetDrop × Option DbError
  pub records_by_jet_drop :
      JetDropId → Option Text → Option Text → ℤ → ℤ → List Record × ℤ × Option StorageError
  pub jet_drops_with_params : Pulse → Option JetDropId → ℤ → ℤ → List JetDrop × ℤ × Option DbError
  pub pulse : ℤ → Pulse × Option DbError
  pub pulses :
      Option ℤ
      → Option ℤ
      → Option ℤ
      → Option ℤ
      → Option ℤ
      → Option ℤ
      → Option ℤ
      → Bool
      → ℤ
      → ℤ
      → List Pulse × ℤ × Option DbError
  pub record_by_reference : Text → Record × Option DbError
  pub lifeline :
      Text
      → Option Text
      → Option ℤ
      → Option ℤ
      → Option ℤ
      → Option ℤ
      → ℤ
      → ℤ
      → Bool
      → List Record × ℤ × Option StorageError
  pub jet_drops_by_jet_id :
      Text
      → Option ℤ
      → Option ℤ
      → Option ℤ
      → Option ℤ
      → ℤ
      → Bool
      → List JetDrop × ℤ × Option DbError
  pub next_saved_pulse : Pulse → Bool → Pulse × Option DbError
  pub jet_drops : Pulse → List JetDrop × Option DbError

-- The storage of etl/storage.
unfoldable pub storage_fetcher : Gorm → Fetcher
storage_fetcher gorm = record {
  jet_drop_by_id = get_jet_drop_by_id gorm;
  records_by_jet_drop = get_records_by_jet_drop gorm;
  jet_drops_with_params = get_jet_drops_with_params gorm;
  pulse = get_pulse gorm;
  pulses = get_pulses gorm;
  record_by_reference = get_record gorm;
  lifeline = get_lifeline gorm;
  jet_drops_by_jet_id = get_jet_drops_by_jet_id gorm;
  next_saved_pulse = get_next_saved_pulse gorm;
  jet_drops = get_jet_drops gorm;
}

pub data Response (A : Type 0) : Type 0 where
  ok : A → Response A
  bad_request : List Failure → Response A
  not_found : Response A
  internal_server_error : Response A

-- A page and the number of all rows.
pub record Listing (A : Type 0) : Type 0 where
  pub total : ℤ
  pub result : List A

-- `ctx.JSON` after a query that failed.
abbrev pub db_failure : {A : Type 0} → DbError → Response A
db_failure record_not_found = not_found
db_failure failed = internal_server_error

abbrev pub with_failures : {A : Type 0} → List Failure → Response A → Response A
with_failures [] response = response
with_failures (f ∷ failures) response = bad_request (f ∷ failures)

pub record PulsesParams : Type 0 where
  pub limit : Option ℤ
  pub offset : Option ℤ
  pub from_pulse_number : Option ℤ
  pub timestamp_lte : Option ℤ
  pub timestamp_gte : Option ℤ
  pub pulse_number_lte : Option ℤ
  pub pulse_number_lt : Option ℤ
  pub pulse_number_gte : Option ℤ
  pub pulse_number_gt : Option ℤ
  pub sort_by : Option Text

pub record JetDropRecordsParams : Type 0 where
  pub limit : Option ℤ
  pub offset : Option ℤ
  pub from_index : Option Text
  pub record_type : Option Text

-- The words of the API's description for the two directions.
pub record SortWords : Type 0 where
  pub asc : Text
  pub desc : Text

module _ (platform : Platform) (fetcher : Fetcher) where
  unfoldable pub jet_drop_response :
      JetDrop × List JetDrop × List JetDrop × Option DbError → Response ApiJetDrop
  jet_drop_response (jet_drop, prev, next, some e) = db_failure e
  jet_drop_response (jet_drop, prev, next, none) = ok (
      jet_drop_to_api jet_drop (map transform_prev_next_resp prev)
        (map transform_prev_next_resp next))

  -- JetDropByID
  unfoldable pub jet_drop_by_id : Text → Response ApiJetDrop
  jet_drop_by_id jet_drop_id = elim (new_jet_drop_id_from_string jet_drop_id) [
    | none ↦ bad_request (failure_if true invalid_with_cause "jet drop id")
    | some id ↦ jet_drop_response (fetcher.jet_drop_by_id id)
  ]

  unfoldable pub records_response :
      List Record × ℤ × Option StorageError → Response (Listing ApiRecord)
  records_response (records, count, none) =
      ok (record { total = count; result = map (record_to_api platform) records })
  records_response (records, count, some e) = internal_server_error

  -- JetDropRecords
  unfoldable pub jet_drop_records : Text → JetDropRecordsParams → Response (Listing ApiRecord)
  jet_drop_records jet_drop_id params =
      let (limit, offset, failures) = check_limit_offset params.limit params.offset in
      let parsed = new_jet_drop_id_from_string jet_drop_id in
      let others = check_from_index params.from_index ++ check_type params.record_type in
      elim parsed [
        | none ↦ bad_request (failures ++ failure_if true invalid "jet_drop_id" ++ others)
        | some id ↦ with_failures (failures ++ others) (
            records_response
              (fetcher.records_by_jet_drop id params.from_index params.record_type limit offset))
      ]

  -- Pulse
  unfoldable pub pulse : ℤ → Response ApiPulse
  pulse pulse_number =
      let (p, err) = fetcher.pulse pulse_number in
      elim err [ some e ↦ db_failure e | none ↦ ok (pulse_to_api p) ]

  unfoldable pub pulses_response : List Pulse × ℤ × Option DbError → Response (Listing ApiPulse)
  pulses_response (rows, count, none) =
      ok (record { total = count; result = map pulse_to_api rows })
  pulses_response (rows, count, some e) = internal_server_error

  -- Pulses
  abbrev pub pulses_failures : SortWords → PulsesParams → List Failure
  pulses_failures words params =
      let check = check_pulse_number platform.is_valid_as_pulse_number in
      (check_limit_offset params.limit params.offset).2
      ++ check invalid "pulse" params.from_pulse_number
      ++ check invalid_value "pulse_number_gt" params.pulse_number_gt
      ++ check invalid_value "pulse_number_gte" params.pulse_number_gte
      ++ check invalid_value "pulse_number_lt" params.pulse_number_lt
      ++ check invalid_value "pulse_number_lte" params.pulse_number_lte
      ++ (check_sort_by words.asc words.desc params.sort_by).1

  unfoldable pub pulses : SortWords → PulsesParams → Response (Listing ApiPulse)
  pulses words params =
      let (limit, offset, _) = check_limit_offset params.limit params.offset in
      with_failures (pulses_failures words params) (
        pulses_response (
          fetcher.pulses params.from_pulse_number params.timestamp_lte params.timestamp_gte
            params.pulse_number_lte params.pulse_number_lt params.pulse_number_gte
            params.pulse_number_gt (check_sort_by words.asc words.desc params.sort_by).0 limit
            offset))

  abbrev from_id : Option Text → Option JetDropId × List Failure
  from_id none = (none, [])
  from_id (some s) = elim (new_jet_drop_id_from_string s) [
    | none ↦ (none, failure_if true invalid "jet drop id")
    | some id ↦ (some id, [])
  ]

  unfoldable pub jet_drops_response :
      List JetDrop × ℤ × Option DbError → Response (Listing ApiJetDrop)
  jet_drops_response (rows, count, none) =
      ok (record { total = count; result = map (λ d. jet_drop_to_api d [] []) rows })
  jet_drops_response (rows, count, some e) = internal_server_error

  -- JetDropsByPulseNumber
  unfoldable pub jet_drops_by_pulse_number :
      ℤ → Option ℤ → Option ℤ → Option Text → Response (Listing ApiJetDrop)
  jet_drops_by_pulse_number pulse_number limit' offset' from_jet_drop_id =
      let (limit, offset, failures) = check_limit_offset limit' offset' in
      let (id, wrong) = from_id from_jet_drop_id in
      with_failures
        (failures
          ++ check_pulse_number platform.is_valid_as_pulse_number invalid "pulse"
              (some pulse_number)
          ++ wrong)
        (jet_drops_response (
          fetcher.jet_drops_with_params (record empty_pulse { pulse_number = pulse_number }) id
            limit offset))
