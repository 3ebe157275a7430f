-- ===== src/Tests/Api.antt =====
-- Requests to the API over a storage that answers one row.
use block_explorer.Prelude.{◌≡◌, refl, true, none, some, [], ◌∷◌, codes, arith, pos}
use block_explorer.Models.{Record}
use block_explorer.Models.JetDropId.{IsValid}
use block_explorer.Api.{check_limit_offset, check_sort_by, check_pulse_number}
use block_explorer.Api.Mappers.{Platform, jet_drop_to_api, pulse_to_api}
use block_explorer.Api.Handlers.{
  Fetcher, ok, SortWords, PulsesParams, jet_drop_by_id, jet_drop_response, pulses, pulses_response,
}
use block_explorer.Api.Handlers.Names.{jet_drop_by_id-shown}
use block_explorer.Tests.Fixtures.{drop_30, pulse_30}

abbrev pub row : Record
row = record {
  reference = codes "r";
  record_type = codes "state";
  object_reference = [];
  prototype_reference = [];
  payload = [];
  prev_record_reference = [];
  hash = [];
  raw_data = [];
  jet_id = codes "01";
  pulse_number = pos 30;
  order = 12;
  timestamp = pos 3;
}

abbrev pub platform : Platform
platform = record {
  id_string = λ id. some id;
  reference_string = λ id. some id;
  is_valid_as_pulse_number = λ n. true;
}

abbrev pub fetcher : Fetcher
fetcher = record {
  jet_drop_by_id = λ id. (drop_30, [], [], none);
  records_by_jet_drop = λ id i t l o. (row ∷ [], pos 1, none);
  jet_drops_with_params = λ p id l o. (drop_30 ∷ [], pos 1, none);
  pulse = λ n. (pulse_30, none);
  pulses = λ f tl tg le lt ge gt asc l o. (pulse_30 ∷ [], pos 1, none);
  record_by_reference = λ r. (row, none);
  lifeline = λ r i lt gt le ge l o asc. (row ∷ [], pos 1, none);
  jet_drops_by_jet_id = λ id le lt ge gt l asc. (drop_30 ∷ [], pos 1, none);
  next_saved_pulse = λ p c. (pulse_30, none);
  jet_drops = λ p. (drop_30 ∷ [], none);
}

pub drop_30-IsValid : IsValid (record { jet_id = codes "01"; pulse_number = pos 30 })
drop_30-IsValid = record { bits = refl; short = omega arith; in_range = omega arith }

jet_drop_by_id-shown_example :
    jet_drop_by_id platform fetcher (jet_drop_to_api drop_30 [] []).jet_drop_id
    ≡ jet_drop_response platform fetcher (drop_30, [], [], none)
jet_drop_by_id-shown_example = jet_drop_by_id-shown platform fetcher drop_30 [] [] drop_30-IsValid

abbrev pub words : SortWords
words = record { asc = codes "up"; desc = codes "down" }

abbrev params : PulsesParams
params = record {
  limit = some (pos 5);
  offset = none;
  from_pulse_number = some (pos 40);
  timestamp_lte = none;
  timestamp_gte = none;
  pulse_number_lte = none;
  pulse_number_lt = none;
  pulse_number_gte = none;
  pulse_number_gt = some (pos 3);
  sort_by = none;
}

pulses_answered :
    pulses platform fetcher words params
    ≡ ok (record { total = pos 1; result = pulse_to_api pulse_30 ∷ [] })
unfolding pulses pulses_response check_limit_offset check_sort_by check_pulse_number
pulses_answered = refl
