-- ===== src/Api/Handlers/Lifelines.antt =====
-- api/handlers.go: ObjectLifeline.
use block_explorer.Prelude.{
  ◌++◌, ◌&&◌, Bool, true, false, not, Option, none, some, List, [], Text, ℤ, ◌==◌, list_eq, nat_eq,
}
use block_explorer.Api.{
  Failure, invalid_value, should_be_a_sort, failure_if, check_limit_offset, check_pulse_number,
  check_from_index,
}
use block_explorer.Api.References.{References, checked, wrong, check_reference}
use block_explorer.Api.Mappers.{Platform, ApiRecord}
use block_explorer.Api.Handlers.{
  Fetcher, Response, bad_request, Listing, SortWords, with_failures, records_response,
}

pub record LifelineParams : Type 0 where
  pub limit : Option ℤ
  pub offset : Option ℤ
  pub from_index : Option Text
  pub pulse_number_lt : Option ℤ
  pub pulse_number_gt : Option ℤ
  pub timestamp_lte : Option ℤ
  pub timestamp_gte : Option ℤ
  pub sort_by : Option Text

-- The direction, which a wrong word leaves descending.
unfoldable pub check_sort_by_index : SortWords → Option Text → Bool × List Failure
check_sort_by_index words none = (false, [])
check_sort_by_index words (some s) = (
  s == words.asc,
  failure_if (not (s == words.desc) && not (s == words.asc)) (should_be_a_sort words.desc words.asc)
      "sort_by",
)

module _ (platform : Platform) (refs : References) (fetcher : Fetcher) where
  -- What is checked after the reference.
  unfoldable pub lifeline_failures : SortWords → LifelineParams → List Failure
  lifeline_failures words params =
      let check = check_pulse_number platform.is_valid_as_pulse_number in
      (check_sort_by_index words params.sort_by).1
      ++ check_from_index params.from_index
      ++ check invalid_value "pulse_number_gt" params.pulse_number_gt
      ++ check invalid_value "pulse_number_lt" params.pulse_number_lt

  unfoldable pub object_lifeline : SortWords → Text → LifelineParams → Response (Listing ApiRecord)
  object_lifeline words object_reference params =
      let (limit, offset, failures) = check_limit_offset params.limit params.offset in
      let others = lifeline_failures words params in
      elim (check_reference refs object_reference) [
        | wrong reason ↦
            bad_request (failures ++ failure_if true reason "object_reference" ++ others)
        | checked ref ↦ with_failures (failures ++ others) (
            records_response platform fetcher (
              fetcher.lifeline (refs.local_bytes ref) params.from_index params.pulse_number_lt
                params.pulse_number_gt params.timestamp_lte params.timestamp_gte limit offset
                (check_sort_by_index words params.sort_by).0))
      ]
