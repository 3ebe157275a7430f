-- ===== src/Api.antt =====
-- api/handlers.go: what the handlers check of a request before they ask the storage. A failure is
-- its property and its reason; a reason is named by its message.
pub mod Checks
pub mod References
pub mod Handlers
pub mod Mappers
use block_explorer.Prelude.{
  ℕ, ◌≡◌, ◌++◌, ◌||◌, ◌&&◌, not, Bool, true, false, Option, none, some, List, [], ◌∷◌, Text, codes,
  length, ℤ, pos, String, ltb, leb, leb_ℤ, ltb_ℤ, ◌==◌, int_eq, list_eq, nat_eq, if◌then◌else◌,
}
use block_explorer.Go.Url.{query_unescape}
use block_explorer.Models.JetDropId.{JetDropId, jet_id_regexp, new_jet_drop_id_from_string}
use block_explorer.Storage.{check_index}

-- The messages of the failures.
pub data Reason : Type 0 where
  should_be_in_range should_not_be_negative : Reason
  invalid invalid_with_cause invalid_value : Reason
  should_be_a_type : Reason
  should_be_a_sort : Text → Text → Reason
  empty_reference error_unescaping wrong_format : Reason
  empty_value cannot_unescape does_not_match : Reason
  not_valid_pulse_number record_reference_not_found is_neither : Reason

-- server.CodeValidationFailures
pub record Failure : Type 0 where
  pub failure_reason : Reason
  pub property : Text

abbrev pub failure_if : Bool → Reason → String → List Failure
failure_if true reason property = record { failure_reason = reason; property = codes property } ∷ []
failure_if false reason property = []

abbrev pub or_default : ℤ → Option ℤ → ℤ
or_default d none = d
or_default d (some n) = n

unfoldable pub check_limit_offset : Option ℤ → Option ℤ → ℤ × ℤ × List Failure
check_limit_offset l o =
    let limit = or_default (pos 20) l in
    let offset = or_default (pos 0) o in
    (
      limit,
      offset,
      failure_if (leb_ℤ limit (pos 0) || ltb_ℤ (pos 1000) limit) should_be_in_range "limit"
          ++ failure_if (ltb_ℤ offset (pos 0)) should_not_be_negative "offset",
    )

-- checkSortByPulseParameter and checkSortByPulseNumberParameter, which differ in the two words.
unfoldable pub check_sort_by : Text → Text → Option Text → Bool × List Failure
check_sort_by asc desc none = (false, [])
check_sort_by asc desc (some s) =
    if not (s == asc) && not (s == desc)
    then (false, failure_if true (should_be_a_sort asc desc) "sort_by")
    else (s == asc, [])

-- getPulseNumberValue, of a parameter that may be missing. What a pulse number is, the platform says.
unfoldable pub check_pulse_number : (ℤ → Bool) → Reason → String → Option ℤ → List Failure
check_pulse_number is_valid_as_pulse_number reason property none = []
check_pulse_number is_valid_as_pulse_number reason property (some n) =
    failure_if (not (is_valid_as_pulse_number n)) reason property

unfoldable pub check_from_index : Option Text → List Failure
check_from_index none = []
check_from_index (some i) = elim (check_index i) [
  | none ↦ failure_if true invalid "from_index"
  | some _ ↦ []
]

unfoldable pub check_type : Option Text → List Failure
check_type none = []
check_type (some t) =
    failure_if (not (t == codes "request") && not (t == codes "result") && not (t == codes "state"))
      should_be_a_type "type"
