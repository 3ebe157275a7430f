-- ===== src/Api/Handlers/Search.antt =====
-- api/handlers.go: Search.
pub mod Answers
use block_explorer.Prelude.{
  Bool, true, false, not, Option, none, some, List, [], ◌∷◌, Text, codes, ℤ, if◌then◌else◌,
}
use block_explorer.Go.Decimal.{parse_int}
use block_explorer.Models.{Record}
use block_explorer.Models.JetDropId.{new_jet_drop_id_from_string}
use block_explorer.Interfaces.{DbError, record_not_found, failed}
use block_explorer.Storage.Index.{record_index}
use block_explorer.Api.{not_valid_pulse_number, record_reference_not_found, is_neither, failure_if}
use block_explorer.Api.References.{References, checked, wrong, check_reference}
use block_explorer.Api.Mappers.{Platform}
use block_explorer.Api.Handlers.{Fetcher, Response, ok, bad_request, internal_server_error}

-- SearchPulse, SearchJetDrop, SearchLifeline and SearchRecord.
pub data Found : Type 0 where
  pulse_number : ℤ → Found
  jet_drop_id : Text → Found
  lifeline : (object_reference : Text) → Found
  record_index_of : (index : Text) → (object_reference : Option Text) → Found

module _ (platform : Platform) (refs : References) (fetcher : Fetcher) where
  unfoldable pub search_response_pulse : ℤ → Response Found
  search_response_pulse n =
      if platform.is_valid_as_pulse_number n
      then ok (pulse_number n)
      else bad_request (failure_if true not_valid_pulse_number "value")

  unfoldable pub record_found : Record × Option DbError → Response Found
  record_found (r, none) =
      ok (record_index_of (record_index r) (platform.reference_string r.object_reference))
  record_found (r, some record_not_found) =
      bad_request (failure_if true record_reference_not_found "value")
  record_found (r, some failed) = internal_server_error

  unfoldable pub search_reference_pulse : refs.Reference → Response Found
  search_reference_pulse ref =
      if refs.is_object_reference ref
      then ok (lifeline (refs.to_string ref))
      else record_found (fetcher.record_by_reference (refs.local_bytes ref))

  unfoldable pub search : Text → Response Found
  search value = elim (parse_int value) [
    | some n ↦ search_response_pulse n
    | none ↦ elim (new_jet_drop_id_from_string value) [
      | some id ↦ ok (jet_drop_id value)
      | none ↦ elim (check_reference refs value) [
        | checked ref ↦ search_reference_pulse ref
        | wrong reason ↦ bad_request (failure_if true is_neither "value")
      ]
    ]
  ]
