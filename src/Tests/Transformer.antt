-- ===== src/Tests/Transformer.antt =====
-- Two states of one object, the later one first, a request between them and a state of another
-- object.
use block_explorer.Prelude.{
  ℕ, ◌≤◌, true, false, none, inl, inr, sym, Map, arith, all, pos, if◌then◌else◌, ◌≡◌, refl, some,
  List, [], ◌∷◌, ◌++◌, Text, codes, In, length,
}
use block_explorer.Models.{CanonicalRecord, CanonicalJetDrop, state, request}
use block_explorer.Models.JetDropId.{new_jet_drop_id_from_string, to_string}
use block_explorer.Platform.{Jet, PlatformRecord, outgoing_request, PlatformPulseData}
use block_explorer.Converter.{bit_string, bit_strings, jet_id_to_string, nanos_to_seconds}
use block_explorer.Transformer.Records.{
  Ids, by_kind, transfer_to_canonical_record, collect_record, collect_records, get_records,
}
use block_explorer.Transformer.Drops.{
  get_pulse_data, jet_name, get_jet_drop, add_jets, jet_drops, transform,
}
use block_explorer.Transformer.Drops.ByJets.{has_raw_data, sorted_drops, transform-sorted_drops}
use block_explorer.Transformer.Drops.Names.{IsOf, name_of, transform-IsOf, from_string-transformed}
use block_explorer.Transformer.MainNet.{
  MainNetTransformer, stops, receives, run_pulse, need_stop, step, run, all_sent, run_chan,
}
use block_explorer.Transformer.{
  Runtime, IsRange, NoRepeat, keys, put, add_record, init_records_maps_by_obj, find_head, follow,
  order_object, order_objects, sort_records,
}
use block_explorer.Transformer.Runs.{joined, others, AreRuns, sort_records-Runs}
use block_explorer.Tests.Fixtures.{canonical_record}

-- Ranges that meet the second entry of a map before the first.
abbrev pub swapped : {V : Type 0} → Map Text V → Map Text V
swapped [] = []
swapped ((k, v) ∷ []) = (k, v) ∷ []
swapped ((k, v) ∷ (j, w) ∷ m) = (j, w) ∷ (k, v) ∷ m

swapped-met : {V : Type 0} (m : Map Text V) (x : Text × V) → In x (swapped m) → In x m
swapped-met [] x i = i
swapped-met ((k, v) ∷ []) x i = i
swapped-met ((k, v) ∷ (j, w) ∷ m) x (inl e) = inr (inl e)
swapped-met ((k, v) ∷ (j, w) ∷ m) x (inr (inl e)) = inl e
swapped-met ((k, v) ∷ (j, w) ∷ m) x (inr (inr i)) = inr (inr i)

swapped-all_met : {V : Type 0} (m : Map Text V) (i : Text) → In i (keys m) → In i (keys (swapped m))
swapped-all_met [] i h = h
swapped-all_met ((k, v) ∷ []) i h = h
swapped-all_met ((k, v) ∷ (j, w) ∷ m) i (inl e) = inr (inl e)
swapped-all_met ((k, v) ∷ (j, w) ∷ m) i (inr (inl e)) = inl e
swapped-all_met ((k, v) ∷ (j, w) ∷ m) i (inr (inr h)) = inr (inr h)

swapped-NoRepeat : {V : Type 0} (m : Map Text V) → NoRepeat (keys m) → NoRepeat (keys (swapped m))
swapped-NoRepeat [] h = h
swapped-NoRepeat ((k, v) ∷ []) h = h
swapped-NoRepeat ((k, v) ∷ (j, w) ∷ m) (n, (o, h)) =
    ((λ i. elim i [ inl e ↦ n (inl (sym e)) | inr i ↦ o i ]), ((λ i. n (inr i)), h))

pub swapped-IsRange : {V : Type 0} → IsRange {V = V} swapped
swapped-IsRange = record {
  met = swapped-met;
  all_met = swapped-all_met;
  met_once = swapped-NoRepeat;
}

abbrev pub same_name : Runtime
same_name = record {
  restore_insolar_id = λ id. id;
  range_objects = swapped;
  range_records = swapped;
  range_objects-IsRange = swapped-IsRange;
  range_records-IsRange = swapped-IsRange;
}

abbrev first_state : CanonicalRecord
first_state = record canonical_record { record_type = state; ref = codes "a" }

abbrev second_state : CanonicalRecord
second_state = record canonical_record {
  record_type = state;
  ref = codes "b";
  prev_record_reference = codes "a";
}

abbrev other_object : CanonicalRecord
other_object = record canonical_record {
  record_type = state;
  ref = codes "c";
  object_reference = codes "other";
}

abbrev mixed : List CanonicalRecord
mixed = second_state ∷ canonical_record ∷ first_state ∷ other_object ∷ []

abbrev in_order : List CanonicalRecord
in_order = canonical_record ∷ other_object ∷ first_state ∷ second_state ∷ []

sort_mixed : sort_records same_name mixed ≡ some in_order
unfolding put add_record init_records_maps_by_obj find_head follow order_object order_objects
    sort_records
sort_mixed = refl

sort_records-Runs_example :
    (length in_order ≡ length mixed)
    × ((runs : Map Text (List CanonicalRecord)) × (in_order ≡ others mixed ++ joined runs)
        × AreRuns same_name mixed runs)
sort_records-Runs_example = sort_records-Runs same_name mixed in_order sort_mixed

-- A pulse of two jets, the second of which has a request.
abbrev pub ids : Ids
ids = record {
  min_time_pulse = 65537;
  genesis_ref = λ id. id;
  as_epoch = λ p. 0;
  is_valid = λ jet_id. true;
  depth = λ jet_id. 1;
  prefix = λ id. id;
}

ids_short : (jet_id : Text) → ids.depth jet_id ≤ 216
ids_short jet_id = omega arith

abbrev request_record : PlatformRecord
request_record = record {
  should_iterate_from = none;
  pulse = 70000;
  jet_id = 128 ∷ [];
  id = codes "id";
  hash = codes "h";
  object_id = codes "o";
  raw_data = some (codes "raw");
  record_number = 1;
  virtual = outgoing_request;
}

abbrev jet_of : ℕ → Jet
jet_of first = record { jet_id = first ∷ []; hash = codes "j"; prev_drop_hashes = [] }

abbrev pub two_jets : PlatformPulseData
two_jets = record {
  pulse = record {
    pulse_number = 70000;
    prev_pulse_number = 69990;
    next_pulse_number = 70010;
    pulse_timestamp = pos 5_000_000_000;
    jets = jet_of 0 ∷ jet_of 128 ∷ [];
  };
  records = request_record ∷ [];
}

abbrev pub drop_of : Text → List CanonicalRecord → CanonicalJetDrop
drop_of name records = record {
  main_section = record {
    start = record {
      pulse_data = record {
        pulse_no = pos 70000;
        epoch_pulse_no = pos 0;
        pulse_timestamp = pos 5;
        next_pulse_number = pos 70010;
        prev_pulse_number = pos 69990;
      };
      jet_drop_prefix = name;
      jet_drop_prefix_length = 1;
    };
    drop_continue = record { prev_drop_hash = [] };
    records = records;
  };
  sections = [];
  raw_data = [];
  hash = codes "j";
}

abbrev pub the_request : CanonicalRecord
the_request = record {
  record_type = request;
  ref = codes "id";
  object_reference = codes "o";
  prototype_reference = [];
  prev_record_reference = [];
  record_payload = [];
  hash = codes "h";
  raw_data = codes "raw";
  order = 1;
}

abbrev pub two_drops : List CanonicalJetDrop
two_drops = drop_of (codes "0") [] ∷ drop_of (codes "1") (the_request ∷ []) ∷ []

pub transform_two : transform same_name ids two_jets ≡ some two_drops
unfolding transform get_records collect_records collect_record transfer_to_canonical_record by_kind
    add_jets jet_drops get_jet_drop get_pulse_data nanos_to_seconds jet_name jet_id_to_string
    bit_strings bit_string put add_record init_records_maps_by_obj find_head follow order_object
    order_objects sort_records
transform_two = refl

transform-sorted_drops_example : transform same_name ids two_jets ≡ (
    if all has_raw_data two_jets.records
    then some (sorted_drops ids same_name two_jets.pulse.jets two_jets)
    else none)
transform-sorted_drops_example = transform-sorted_drops ids same_name two_jets

transform-IsOf_example : IsOf same_name ids two_jets (drop_of (codes "1") (the_request ∷ []))
transform-IsOf_example =
    transform-IsOf same_name ids two_jets two_drops (drop_of (codes "1") (the_request ∷ []))
      transform_two (inr (inl refl))

from_string-transformed_example :
    new_jet_drop_id_from_string (to_string (name_of (drop_of (codes "0") [])))
    ≡ some (name_of (drop_of (codes "0") []))
from_string-transformed_example =
    from_string-transformed same_name ids two_jets two_drops (drop_of (codes "0") []) ids_short
      (omega arith) transform_two (inl refl)

abbrev started : MainNetTransformer
started = record { running = true; stop_signal = false; transformer_chan = [] }

abbrev ended : MainNetTransformer
ended = record { running = false; stop_signal = false; transformer_chan = two_drops }

run_two : run same_name ids (stops ∷ receives two_jets ∷ []) started ≡ some ended
unfolding run step need_stop run_pulse transform get_records collect_records collect_record
    transfer_to_canonical_record by_kind add_jets jet_drops get_jet_drop get_pulse_data
    nanos_to_seconds jet_name jet_id_to_string bit_strings bit_string put add_record
    init_records_maps_by_obj find_head follow order_object order_objects sort_records
run_two = refl

run_chan_example : two_drops ≡ [] ++ all_sent same_name ids (stops ∷ receives two_jets ∷ [])
run_chan_example = run_chan same_name ids (stops ∷ receives two_jets ∷ []) started ended run_two
