-- ===== src/Api/Handlers/Guards.antt =====
-- What a request has passed when a handler answers it from the storage.
use block_explorer.Prelude.{
  ◌≡◌, ◌⊎◌, refl, inl, inr, true, Option, none, some, List, [], ◌∷◌, ◌++◌, String, arith, ℤ,
  Bool-cases,
}
use block_explorer.Api.{
  Failure, Reason, invalid, invalid_value, check_limit_offset, check_pulse_number,
}
use block_explorer.Api.Checks.{IsPage, check_limit_offset_iff, check_sort_by_iff}
use block_explorer.Api.Mappers.{Platform, ApiPulse}
use block_explorer.Api.Handlers.{
  Fetcher, Response, ok, Listing, PulsesParams, SortWords, with_failures, pulses_failures, pulses,
}

with_failures_ok :
    {A : Type 0} (failures : List Failure) (response : Response A) (a : A)
    → with_failures failures response ≡ ok a
    → failures ≡ []
with_failures_ok [] response a e = refl
with_failures_ok (f ∷ failures) response a e = absurd (ground arith)

both_empty : (xs ys : List Failure) → xs ++ ys ≡ [] → (xs ≡ []) × (ys ≡ [])
both_empty [] ys e = (refl, e)
both_empty (x ∷ xs) ys e = absurd (ground arith)

-- The parameter is missing or is a pulse number of the platform.
abbrev pub IsPulseNumber : Platform → Option ℤ → Type 0
IsPulseNumber platform none = Unit
IsPulseNumber platform (some n) = platform.is_valid_as_pulse_number n ≡ true

check_pulse_number-empty :
    (platform : Platform) (reason : Reason) (property : String) (o : Option ℤ)
    → check_pulse_number platform.is_valid_as_pulse_number reason property o ≡ []
    → IsPulseNumber platform o
unfolding check_pulse_number
check_pulse_number-empty platform reason property none e = tt
check_pulse_number-empty platform reason property (some n) e =
    elim (Bool-cases (platform.is_valid_as_pulse_number n)) [
      | inl b ↦ b
      | inr b ↦ absurd (ground arith)
    ]

-- When the request for pulses is answered from the storage, the storage has been asked for a page
-- of 1 to 1000 rows from an offset that is not negative, the five pulse numbers that may be given
-- are pulse numbers, and the sort word is missing or one of the two.
pub pulses-guarded :
    (platform : Platform) (fetcher : Fetcher) (words : SortWords) (params : PulsesParams)
    (listing : Listing ApiPulse)
    → pulses platform fetcher words params ≡ ok listing
    → let (limit, offset, _) = check_limit_offset params.limit params.offset in
      IsPage limit offset
      × IsPulseNumber platform params.from_pulse_number
      × IsPulseNumber platform params.pulse_number_gt
      × IsPulseNumber platform params.pulse_number_gte
      × IsPulseNumber platform params.pulse_number_lt
      × IsPulseNumber platform params.pulse_number_lte
      × ((params.sort_by ≡ none)
          ⊎ (params.sort_by ≡ some words.asc)
          ⊎ (params.sort_by ≡ some words.desc))
unfolding pulses
pulses-guarded platform fetcher words params listing e =
    let all_passed = with_failures_ok (pulses_failures platform fetcher words params) _ listing e in
    let (r1, sort) = both_empty _ _ all_passed in
    let (r2, lte) = both_empty _ _ r1 in
    let (r3, lt) = both_empty _ _ r2 in
    let (r4, gte) = both_empty _ _ r3 in
    let (r5, gt) = both_empty _ _ r4 in
    let (page, first) = both_empty _ _ r5 in
    (
      (check_limit_offset_iff params.limit params.offset).0 page,
      check_pulse_number-empty platform invalid "pulse" params.from_pulse_number first,
      check_pulse_number-empty platform invalid_value "pulse_number_gt" params.pulse_number_gt gt,
      check_pulse_number-empty platform invalid_value "pulse_number_gte" params.pulse_number_gte
          gte,
      check_pulse_number-empty platform invalid_value "pulse_number_lt" params.pulse_number_lt lt,
      check_pulse_number-empty platform invalid_value "pulse_number_lte" params.pulse_number_lte
          lte,
      (check_sort_by_iff words.asc words.desc params.sort_by).0 sort,
    )
