-- ===== src/Tests/Search.antt =====
-- Searches and the pages of a jet, over a storage that answers one row and over one that is down.
use block_explorer.Prelude.{
  ◌≡◌, refl, Bool, true, false, none, some, [], ◌∷◌, In, Text, codes, arith, pos,
}
use block_explorer.Go.Base64.{encode_to_string}
use block_explorer.Go.Decimal.{format_int, parse_int, parse_uint, scan, is_digit, with_sign}
use block_explorer.Go.Spaces.{after_space, before_space, trim, trim_space}
use block_explorer.Go.Strings.{split}
use block_explorer.Go.Url.{query_unescape}
use block_explorer.Models.{JetDrop}
use block_explorer.Models.JetDropId.{
  JetDropId, to_string, jet_id_regexp, new_jet_drop_id_from_string,
}
use block_explorer.Interfaces.{failed}
use block_explorer.Storage.{Gorm}
use block_explorer.Api.{check_limit_offset, check_sort_by, check_pulse_number}
use block_explorer.Api.References.{References, check_reference, check_jet_id}
use block_explorer.Api.Mappers.{ApiNextPrevJetDrop, transform_prev_next_resp}
use block_explorer.Api.Handlers.{ok, storage_fetcher}
use block_explorer.Api.Handlers.Search.{
  pulse_number, jet_drop_id, lifeline, search_reference_pulse, search,
}
use block_explorer.Api.Handlers.Search.Answers.{search-shown, Matches, search-Matches}
use block_explorer.Api.Handlers.JetDrops.{
  JetDropsParams, by_prev_hash, next_of, jet_drops_failures, jet_drops_by_jet_id,
}
use block_explorer.Api.Handlers.JetDrops.Links.{next_of_lem}
use block_explorer.Api.Handlers.JetDrops.Hidden.{db_failure_hidden}
use block_explorer.Tests.Fixtures.{drop_30, pulse_30}
use block_explorer.Tests.Api.{platform, fetcher, words, drop_30-IsValid, row}

-- Every text is a reference, of an object if it is longer than one byte.
abbrev longer : Text → Bool
longer (a ∷ b ∷ s) = true
longer _ = false

abbrev refs : References
refs = record {
  Reference = Text;
  new_reference_from_string = λ s. some s;
  is_object_reference = longer;
  to_string = λ s. s;
  local_bytes = λ s. s;
}

abbrev name_30 : JetDropId
name_30 = record { jet_id = codes "01"; pulse_number = pos 30 }

search-shown_example :
    (search platform refs fetcher (to_string name_30) ≡ ok (jet_drop_id (to_string name_30)))
    × (search platform refs fetcher (format_int (pos 30)) ≡ ok (pulse_number (pos 30)))
search-shown_example =
    search-shown platform refs fetcher name_30 (pos 30) drop_30-IsValid (omega arith) refl

-- A blank around a reference is taken off.
found_lifeline : search platform refs fetcher (codes " object") ≡ ok (lifeline (codes "object"))
unfolding search search_reference_pulse check_reference trim_space trim after_space before_space
    query_unescape parse_int parse_uint scan is_digit with_sign new_jet_drop_id_from_string split
    jet_id_regexp
found_lifeline = refl

search-Matches_example : Matches platform refs fetcher (codes " object") (lifeline (codes "object"))
search-Matches_example =
    search-Matches platform refs fetcher (codes " object") (lifeline (codes "object"))
      found_lifeline

-- The jet drop after drop_30 has its hash as the first previous one.
abbrev drop_40 : JetDrop
drop_40 = record drop_30 { pulse_number = pos 40; first_prev_hash = codes "h"; hash = codes "i" }

next_of_lem_example :
    ((n : ApiNextPrevJetDrop)
      → In n (next_of (by_prev_hash (drop_30 ∷ drop_40 ∷ []) []) drop_30)
      → (e : JetDrop) × In e (drop_30 ∷ drop_40 ∷ [])
        × (encode_to_string e.first_prev_hash ≡ encode_to_string drop_30.hash)
        × (n ≡ transform_prev_next_resp e))
    × ((e : JetDrop)
        → In e (drop_30 ∷ drop_40 ∷ [])
        → encode_to_string e.first_prev_hash ≡ encode_to_string drop_30.hash
        → (n : ApiNextPrevJetDrop) × In n
            (next_of (by_prev_hash (drop_30 ∷ drop_40 ∷ []) []) drop_30)
          × (n.jet_drop_id ≡ (transform_prev_next_resp e).jet_drop_id))
next_of_lem_example = next_of_lem (drop_30 ∷ drop_40 ∷ []) drop_30

abbrev down : Gorm
down = record {
  find_pulses = λ q l o. ([], some failed);
  find_records = λ q l o. ([], some failed);
  find_jet_drops = λ q l o. ([], some failed);
  first_pulse = λ q. (pulse_30, some failed);
  first_record = λ q. (row, some failed);
  one_jet_drop = λ q. (drop_30, some failed);
  count_pulses = λ q. (pos 0, some failed);
  count_records = λ q. (pos 0, some failed);
  count_jet_drops = λ q. (pos 0, some failed);
}

abbrev whole_jet : JetDropsParams
whole_jet = record {
  limit = none;
  pulse_number_lte = none;
  pulse_number_lt = none;
  pulse_number_gte = none;
  pulse_number_gt = none;
  sort_by = none;
}

nothing_wrong : jet_drops_failures platform (storage_fetcher down) words (codes "01") whole_jet ≡ []
unfolding jet_drops_failures check_limit_offset check_sort_by check_pulse_number check_jet_id
    trim_space trim after_space before_space query_unescape jet_id_regexp
nothing_wrong = refl

db_failure_hidden_example :
    jet_drops_by_jet_id platform (storage_fetcher down) words (codes "01") whole_jet
    ≡ ok (record { total = pos 0; result = [] })
db_failure_hidden_example =
    db_failure_hidden platform down words (codes "01") whole_jet (λ q l o. refl) nothing_wrong
