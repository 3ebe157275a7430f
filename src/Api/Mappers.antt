-- ===== src/Api/Mappers.antt =====
-- api/mappers.go: rows as the API shows them. The names of the platform's ids are a parameter.
use block_explorer.Prelude.{
  ℕ, Bool, Option, none, some, List, Text, ℤ, all, ◌==◌, int_eq, nat_eq, if◌then◌else◌,
}
use block_explorer.Go.Base64.{encode_to_string}
use block_explorer.Models.{Record, JetDrop, Pulse}
use block_explorer.Models.JetDropId.{new_jet_drop_id, to_string, jet_id_to_string}
use block_explorer.Storage.{unknown}
use block_explorer.Storage.Index.{record_index}

-- server.NextPrevJetDrop
pub record ApiNextPrevJetDrop : Type 0 where
  pub jet_id : Text
  pub jet_drop_id : Text
  pub pulse_number : ℤ

-- server.JetDrop
pub record ApiJetDrop : Type 0 where
  pub hash : Text
  pub jet_drop_id : Text
  pub jet_id : Text
  pub next_jet_drop_id : List ApiNextPrevJetDrop
  pub prev_jet_drop_id : List ApiNextPrevJetDrop
  pub pulse_number : ℤ
  pub record_amount : ℕ
  pub timestamp : ℤ

-- server.Pulse
pub record ApiPulse : Type 0 where
  pub is_complete : Bool
  pub jet_drop_amount : ℤ
  pub pulse_number : ℤ
  pub record_amount : ℤ
  pub timestamp : ℤ
  pub prev_pulse_number : Option ℤ
  pub next_pulse_number : Option ℤ

-- server.Record
pub record ApiRecord : Type 0 where
  pub hash : Text
  pub jet_drop_id : Text
  pub jet_id : Text
  pub index : Text
  pub payload : Text
  pub pulse_number : ℤ
  pub timestamp : ℤ
  pub record_type : Text
  pub object_reference : Option Text
  pub prev_record_reference : Option Text
  pub prototype_reference : Option Text
  pub reference : Option Text

-- insolar: `NewIDFromBytes(b).String()` and `NewReference(id).String()`, where the bytes are an id.
pub record Platform : Type 0 where
  pub id_string : Text → Option Text
  pub reference_string : Text → Option Text
  pub is_valid_as_pulse_number : ℤ → Bool

-- instrumentation.IsEmpty
unfoldable pub is_empty : Text → Bool
is_empty b = all (λ c. c == 0) b

abbrev if_not_empty : (Text → Option Text) → Text → Option Text
if_not_empty f b = if is_empty b then none else f b

unfoldable pub transform_prev_next_resp : JetDrop → ApiNextPrevJetDrop
transform_prev_next_resp d =
    let jd = new_jet_drop_id d.jet_id d.pulse_number in
    record {
      jet_id = jet_id_to_string jd;
      jet_drop_id = to_string jd;
      pulse_number = d.pulse_number;
    }

unfoldable pub record_to_api : Platform → Record → ApiRecord
record_to_api platform r =
    let jd = new_jet_drop_id r.jet_id r.pulse_number in
    record {
      hash = encode_to_string r.hash;
      jet_drop_id = to_string jd;
      jet_id = jet_id_to_string jd;
      index = record_index r;
      payload = encode_to_string r.payload;
      pulse_number = r.pulse_number;
      timestamp = r.timestamp;
      record_type = r.record_type;
      object_reference = if_not_empty platform.reference_string r.object_reference;
      prev_record_reference = if_not_empty platform.id_string r.prev_record_reference;
      prototype_reference = if_not_empty platform.id_string r.prototype_reference;
      reference = platform.id_string r.reference;
    }

abbrev known : ℤ → Option ℤ
known n = if n == unknown then none else some n

unfoldable pub pulse_to_api : Pulse → ApiPulse
pulse_to_api p = record {
  is_complete = p.is_complete;
  jet_drop_amount = p.jet_drop_amount;
  pulse_number = p.pulse_number;
  record_amount = p.record_amount;
  timestamp = p.timestamp;
  prev_pulse_number = known p.prev_pulse_number;
  next_pulse_number = known p.next_pulse_number;
}

unfoldable pub jet_drop_to_api :
    JetDrop → List ApiNextPrevJetDrop → List ApiNextPrevJetDrop → ApiJetDrop
jet_drop_to_api d prev next =
    let jd = new_jet_drop_id d.jet_id d.pulse_number in
    record {
      hash = encode_to_string d.hash;
      jet_drop_id = to_string jd;
      jet_id = jet_id_to_string jd;
      next_jet_drop_id = next;
      prev_jet_drop_id = prev;
      pulse_number = d.pulse_number;
      record_amount = d.record_amount;
      timestamp = d.timestamp;
    }
