-- ===== src/Api/Handlers/JetDrops.antt =====
-- api/handlers.go: JetDropsByJetID, with the jet drops before and after those of its page.
pub mod Links
pub mod Hidden
use block_explorer.Prelude.{
  ◌++◌, ◌&&◌, Bool, true, false, not, Option, none, some, List, [], ◌∷◌, Text, codes, ℤ, pos, map,
  any, ltb_ℤ, Map, lookup, insert, ◌==◌, list_eq, nat_eq, int_eq, if◌then◌else◌,
}
use block_explorer.Go.Base64.{encode_to_string}
use block_explorer.Models.{JetDrop, Pulse, empty_pulse, pulse_beq}
use block_explorer.Interfaces.{DbError, record_not_found, failed}
use block_explorer.Api.{
  Failure, invalid_value, check_limit_offset, check_sort_by, check_pulse_number,
}
use block_explorer.Api.References.{check_jet_id}
use block_explorer.Api.Mappers.{
  Platform, ApiJetDrop, ApiNextPrevJetDrop, transform_prev_next_resp, jet_drop_to_api,
}
use block_explorer.Api.Handlers.{
  Fetcher, Response, ok, internal_server_error, Listing, SortWords, with_failures,
}

pub record JetDropsParams : Type 0 where
  pub limit : Option ℤ
  pub pulse_number_lte : Option ℤ
  pub pulse_number_lt : Option ℤ
  pub pulse_number_gte : Option ℤ
  pub pulse_number_gt : Option ℤ
  pub sort_by : Option Text

abbrev pub ByHash : Type 0
ByHash = Map Text ApiNextPrevJetDrop

abbrev pub ByPrevHash : Type 0
ByPrevHash = Map Text (List ApiNextPrevJetDrop)

unfoldable pub by_hash : List JetDrop → ByHash → ByHash
by_hash [] m = m
by_hash (d ∷ drops) m =
    by_hash drops (insert (encode_to_string d.hash) (transform_prev_next_resp d) m)

-- `add(jetDrop.FirstPrevHash)`
unfoldable pub add_next : JetDrop → ByPrevHash → ByPrevHash
add_next d m =
    let key = encode_to_string d.first_prev_hash in
    let shown = transform_prev_next_resp d in
    elim (lookup key m) [
      | none ↦ insert key (shown ∷ []) m
      | some saved ↦
          if any (λ s. s.jet_drop_id == shown.jet_drop_id) saved
          then m
          else insert key (saved ++ shown ∷ []) m
    ]

unfoldable pub by_prev_hash : List JetDrop → ByPrevHash → ByPrevHash
by_prev_hash [] m = m
by_prev_hash (d ∷ drops) m = by_prev_hash drops (add_next d m)

abbrev pub to_list : Option ApiNextPrevJetDrop → List ApiNextPrevJetDrop
to_list none = []
to_list (some d) = d ∷ []

abbrev pub or_no_drops : Option (List ApiNextPrevJetDrop) → List ApiNextPrevJetDrop
or_no_drops none = []
or_no_drops (some drops) = drops

unfoldable pub prev_of : ByHash → JetDrop → List ApiNextPrevJetDrop
prev_of m d =
    to_list (lookup (encode_to_string d.first_prev_hash) m)
    ++ to_list (lookup (encode_to_string d.second_prev_hash) m)

unfoldable pub next_of : ByPrevHash → JetDrop → List ApiNextPrevJetDrop
next_of m d = or_no_drops (lookup (encode_to_string d.hash) m)

-- The page's jet drops, with the links among all that are given.
unfoldable pub linked_drops : List JetDrop → List JetDrop → List ApiJetDrop
linked_drops all_drops drops =
    let hashes = by_hash all_drops [] in
    let prev_hashes = by_prev_hash all_drops [] in
    map (λ d. jet_drop_to_api d (prev_of hashes d) (next_of prev_hashes d)) drops

abbrev last_or : JetDrop → List JetDrop → JetDrop
last_or d [] = d
last_or d (e ∷ drops) = last_or e drops

-- findEdgePNInJetDrops
unfoldable pub find_edge_pn_in_jet_drops : List JetDrop → Bool → ℤ × ℤ
find_edge_pn_in_jet_drops [] sort_by_asc = (pos 0, pos 0)
find_edge_pn_in_jet_drops (d ∷ drops) sort_by_asc =
    if sort_by_asc
    then (d.pulse_number, (last_or d drops).pulse_number)
    else ((last_or d drops).pulse_number, d.pulse_number)

module _ (platform : Platform) (fetcher : Fetcher) where
  abbrev drops_at : ℤ → List JetDrop × Option DbError
  drops_at n = fetcher.jet_drops (record empty_pulse { pulse_number = n })

  -- The jet drops of the pulse before the oldest, if that pulse is found and has one before it.
  unfoldable pub before_oldest : Pulse × Option DbError → List JetDrop × Option DbError
  before_oldest (p, some e) = ([], none)
  before_oldest (p, none) =
      if ltb_ℤ (pos 0) p.prev_pulse_number then drops_at p.prev_pulse_number else ([], none)

  unfoldable pub after_newest : Pulse × Option DbError → List JetDrop × Option DbError
  after_newest (p, some e) = ([], none)
  after_newest (p, none) = if pulse_beq p empty_pulse then ([], none) else drops_at p.pulse_number

  -- An error is `none`.
  unfoldable pub get_enriching_jet_drops : ℤ → ℤ → Option (List JetDrop)
  get_enriching_jet_drops oldest_pulse newest_pulse =
      let (before, err) = before_oldest (fetcher.pulse oldest_pulse) in
      let (after, err') =
        after_newest
          (fetcher.next_saved_pulse (record empty_pulse { pulse_number = newest_pulse }) false) in
      elim err [
        | some e ↦ none
        | none ↦ elim err' [ some e ↦ none | none ↦ some (before ++ after) ]
      ]

  unfoldable pub enriched : List JetDrop → ℤ → Bool → Response (Listing ApiJetDrop)
  enriched drops total sort_by_asc =
      let (oldest, newest) = find_edge_pn_in_jet_drops drops sort_by_asc in
      elim (get_enriching_jet_drops oldest newest) [
        | none ↦ internal_server_error
        | some enriching ↦
            ok (record { total = total; result = linked_drops (enriching ++ drops) drops })
      ]

  -- An empty page is shown whatever the error.
  unfoldable pub page_response :
      List JetDrop × ℤ × Option DbError → Bool → Response (Listing ApiJetDrop)
  page_response ([], total, err) sort_by_asc = ok (record { total = pos 0; result = [] })
  page_response (d ∷ drops, total, some record_not_found) sort_by_asc =
      ok (record { total = pos 0; result = [] })
  page_response (d ∷ drops, total, some failed) sort_by_asc = internal_server_error
  page_response (d ∷ drops, total, none) sort_by_asc = enriched (d ∷ drops) total sort_by_asc

  abbrev pub page_limit : Option ℤ → ℤ
  page_limit none = pos 1000
  page_limit (some n) = n

  unfoldable pub jet_drops_failures : SortWords → Text → JetDropsParams → List Failure
  jet_drops_failures words jet_id params =
      let check = check_pulse_number platform.is_valid_as_pulse_number in
      (check_limit_offset params.limit none).2
      ++ (check_jet_id jet_id).1
      ++ (check_sort_by words.asc words.desc params.sort_by).1
      ++ check invalid_value "pulse_number_gt" params.pulse_number_gt
      ++ check invalid_value "pulse_number_gte" params.pulse_number_gte
      ++ check invalid_value "pulse_number_lt" params.pulse_number_lt
      ++ check invalid_value "pulse_number_lte" params.pulse_number_lte

  unfoldable pub jet_drops_by_jet_id :
      SortWords → Text → JetDropsParams → Response (Listing ApiJetDrop)
  jet_drops_by_jet_id words jet_id params =
      let sort_by_asc = (check_sort_by words.asc words.desc params.sort_by).0 in
      with_failures (jet_drops_failures words jet_id params) (
        page_response
          (fetcher.jet_drops_by_jet_id (check_jet_id jet_id).0 params.pulse_number_lte
            params.pulse_number_lt params.pulse_number_gte params.pulse_number_gt
            (page_limit params.limit) sort_by_asc)
          sort_by_asc)
