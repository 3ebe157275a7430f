-- ===== src/Api/Handlers/Names.antt =====
-- The names that the API shows are names that the API takes.
use block_explorer.Prelude.{
  true, ◌≡◌, refl, ap, ◌∙◌, none, some, List, [], ◌∷◌, Text, ℤ, pos, all, arith,
}
use block_explorer.Go.Decimal.{IsInt64}
use block_explorer.Models.{Record, JetDrop}
use block_explorer.Models.JetDropId.{
  JetDropId, new_jet_drop_id, to_string, IsValid, new_jet_drop_id_from_string,
  from_string-to_string, is_bit,
}
use block_explorer.Storage.Index.{check_index-record_index}
use block_explorer.Api.{check_limit_offset, check_from_index, check_type}
use block_explorer.Api.Mappers.{Platform, ApiNextPrevJetDrop, record_to_api, jet_drop_to_api}
use block_explorer.Api.Handlers.{
  Fetcher, JetDropRecordsParams, jet_drop_by_id, jet_drop_records, records_response,
  jet_drop_response,
}

new_jet_drop_id_bits :
    (s : Text) (n : ℤ)
    → all is_bit s ≡ true
    → new_jet_drop_id s n ≡ record { jet_id = s; pulse_number = n }
unfolding new_jet_drop_id
new_jet_drop_id_bits [] n b = refl
new_jet_drop_id_bits (c ∷ s) n b = ap (λ t. record { jet_id = t; pulse_number = n }) (ground arith)

abbrev pub id_of : JetDrop → JetDropId
id_of d = record { jet_id = d.jet_id; pulse_number = d.pulse_number }

shown_id :
    (s : Text) (n : ℤ)
    → IsValid (record { jet_id = s; pulse_number = n })
    → new_jet_drop_id_from_string (to_string (new_jet_drop_id s n))
      ≡ some (record { jet_id = s; pulse_number = n })
shown_id s n v =
    ap (λ j. new_jet_drop_id_from_string (to_string j)) (new_jet_drop_id_bits s n v.bits)
    ∙ from_string-to_string (record { jet_id = s; pulse_number = n }) v

-- The name that the API shows for a jet drop is taken by the request for a jet drop by its name,
-- which answers with what the storage has for that jet drop.
pub jet_drop_by_id-shown :
    (platform : Platform) (fetcher : Fetcher) (d : JetDrop) (prev next : List ApiNextPrevJetDrop)
    → IsValid (id_of d)
    → jet_drop_by_id platform fetcher (jet_drop_to_api d prev next).jet_drop_id
      ≡ jet_drop_response platform fetcher (fetcher.jet_drop_by_id (id_of d))
unfolding jet_drop_by_id jet_drop_to_api
jet_drop_by_id-shown platform fetcher d prev next v =
    rw (shown_id d.jet_id d.pulse_number v, jet_drop_by_id) refl

-- A request for the records of a jet drop from one on, without a type, a limit and an offset.
abbrev pub from_record : Text → JetDropRecordsParams
from_record index = record {
  limit = none;
  offset = none;
  from_index = some index;
  record_type = none;
}

-- The jet drop and the index that the API shows for a record are taken by the request for records
-- from there on, which answers with what the storage has from there on.
pub jet_drop_records-shown :
    (platform : Platform) (fetcher : Fetcher) (r : Record)
    → IsValid (record { jet_id = r.jet_id; pulse_number = r.pulse_number })
    → IsInt64 (pos r.order)
    → let shown = record_to_api platform r in
      jet_drop_records platform fetcher shown.jet_drop_id (from_record shown.index)
      ≡ records_response platform fetcher (
          fetcher.records_by_jet_drop
            (record { jet_id = r.jet_id; pulse_number = r.pulse_number })
            (some shown.index)
            none
            (pos 20)
            (pos 0))
unfolding jet_drop_records check_limit_offset check_from_index check_type record_to_api
jet_drop_records-shown platform fetcher r v o =
    rw (shown_id r.jet_id r.pulse_number v, jet_drop_records)
      (rw (check_index-record_index r v.in_range o, check_from_index) refl)
