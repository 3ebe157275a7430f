-- ===== src/Api/Handlers/Search/Answers.antt =====
-- What a search finds.
use block_explorer.Prelude.{
  ◌≡◌, refl, subst, inl, inr, true, false, Option, none, some, Text, ℤ, arith, Bool-cases,
  Option-cases,
}
use block_explorer.Go.Decimal.{
  parse_int, format_int, IsInt64, parse_int-format_int, parse_int_colon,
}
use block_explorer.Models.{Record}
use block_explorer.Models.JetDropId.{
  JetDropId, IsValid, to_string, jet_id_to_string, new_jet_drop_id_from_string,
  from_string-to_string, from_string-IsValid,
}
use block_explorer.Interfaces.{DbError, record_not_found, failed}
use block_explorer.Storage.Index.{record_index}
use block_explorer.Api.{failure_if, is_neither}
use block_explorer.Api.References.{References, Checked, checked, wrong, check_reference}
use block_explorer.Api.Mappers.{Platform}
use block_explorer.Api.Handlers.{Fetcher, ok, bad_request}
use block_explorer.Api.Handlers.Search.{
  Found, pulse_number, jet_drop_id, lifeline, record_index_of, search_response_pulse, record_found,
  search_reference_pulse, search,
}

parse_int-to_string : (j : JetDropId) → parse_int (to_string j) ≡ none
unfolding to_string
parse_int-to_string j = parse_int_colon (jet_id_to_string j) (format_int j.pulse_number)

module _ (platform : Platform) (refs : References) (fetcher : Fetcher) where
  -- The name of a jet drop, as the API shows it, is found as this jet drop, and a pulse number in
  -- decimal as this pulse, if the platform takes it for a pulse number.
  pub search-shown :
      (j : JetDropId) (n : ℤ)
      → IsValid j
      → IsInt64 n
      → platform.is_valid_as_pulse_number n ≡ true
      → (search platform refs fetcher (to_string j) ≡ ok (jet_drop_id (to_string j)))
        × (search platform refs fetcher (format_int n) ≡ ok (pulse_number n))
  unfolding search search_response_pulse
  search-shown j n v range valid = (
    rw (parse_int-to_string j, search) (rw (from_string-to_string j v) refl),
    rw (parse_int-format_int n range, search) (rw valid refl),
  )

  -- What is found is what the value says.
  abbrev pub Matches : Text → Found → Type 0
  Matches value (pulse_number n) =
      (parse_int value ≡ some n) × (platform.is_valid_as_pulse_number n ≡ true)
  Matches value (jet_drop_id s) =
      (s ≡ value) × ((j : JetDropId) × IsValid j × (new_jet_drop_id_from_string value ≡ some j))
  Matches value (lifeline o) =
      (ref : refs.Reference) × (check_reference refs value ≡ checked ref)
      × (refs.is_object_reference ref ≡ true)
      × (o ≡ refs.to_string ref)
  Matches value (record_index_of i o) =
      (ref : refs.Reference) × (r : Record) × (check_reference refs value ≡ checked ref)
      × (refs.is_object_reference ref ≡ false)
      × (fetcher.record_by_reference (refs.local_bytes ref) ≡ (r, none))
      × (i ≡ record_index r)

  ok-injective : (a b : Found) → ok a ≡ ok b → a ≡ b
  ok-injective a b e = cc

  record-Matches :
      (value : Text) (ref : refs.Reference) (row : Record × Option DbError) (found : Found)
      → check_reference refs value ≡ checked ref
      → refs.is_object_reference ref ≡ false
      → fetcher.record_by_reference (refs.local_bytes ref) ≡ row
      → record_found platform refs fetcher row ≡ ok found
      → Matches value found
  unfolding record_found
  record-Matches value ref (r, none) found c o known e =
      subst (Matches value) (ok-injective _ found e) (ref, r, c, o, known, refl)
  record-Matches value ref (r, some record_not_found) found c o known e = cc
  record-Matches value ref (r, some failed) found c o known e = cc

  reference-Matches :
      (value : Text) (ref : refs.Reference) (found : Found)
      → check_reference refs value ≡ checked ref
      → search_reference_pulse platform refs fetcher ref ≡ ok found
      → Matches value found
  unfolding search_reference_pulse
  reference-Matches value ref found c e = elim (Bool-cases (refs.is_object_reference ref)) [
    | inl o ↦
        subst (Matches value) (ok-injective _ found (rw (o, search_reference_pulse) at e))
          (ref, c, o, refl)
    | inr o ↦
        record-Matches value ref (fetcher.record_by_reference (refs.local_bytes ref)) found c o refl
          (rw (o, search_reference_pulse) at e)
  ]

  other-Matches :
      (value : Text) (found : Found) (c : Checked refs.Reference)
      → check_reference refs value ≡ c
      → (elim c [
        | checked ref ↦ search_reference_pulse platform refs fetcher ref
        | wrong reason ↦ bad_request (failure_if true is_neither "value")
      ])
        ≡ ok found
      → Matches value found
  other-Matches value found (checked ref) c e = reference-Matches value ref found c e
  other-Matches value found (wrong reason) c e = cc

  -- A search that finds something finds what the value says: the pulse of a number that the platform
  -- takes for a pulse's, the jet drop of a name, the lifeline of a reference to an object, or the
  -- stored record of another reference.
  pub search-Matches :
      (value : Text) (found : Found)
      → search platform refs fetcher value ≡ ok found
      → Matches value found
  unfolding search search_response_pulse
  search-Matches value found e = elim (Option-cases (parse_int value)) [
    | inr (n, p) ↦ elim (Bool-cases (platform.is_valid_as_pulse_number n)) [
      | inl v ↦ subst (Matches value) (ok-injective _ found (rw v at (rw (p, search) at e))) (p, v)
      | inr v ↦ absurd (ground arith)
    ]
    | inl p ↦ elim (Option-cases (new_jet_drop_id_from_string value)) [
      | inr (j, q) ↦
          subst (Matches value) (ok-injective _ found (rw q at (rw (p, search) at e)))
            (refl, (j, from_string-IsValid value j q, q))
      | inl q ↦
          other-Matches value found (check_reference refs value) refl
            (rw q at (rw (p, search) at e))
    ]
  ]
