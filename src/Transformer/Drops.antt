-- ===== src/Transformer/Drops.antt =====
-- etl/transformer/transformer.go: the canonical jet drops of a pulse.
pub mod ByJets
pub mod Names
use block_explorer.Prelude.{
  ℕ, Option, none, some, List, [], ◌∷◌, Text, ℤ, pos, length, lookup, insert, list_eq, nat_eq,
  if◌then◌else◌,
}
use block_explorer.Models.{CanonicalRecord, CanonicalJetDrop, PulseData}
use block_explorer.Platform.{Jet, FullPulse, PlatformPulseData}
use block_explorer.Converter.{jet_id_to_string, nanos_to_seconds}
use block_explorer.Transformer.{Runtime, sort_records}
use block_explorer.Transformer.Records.{Ids, ByJet, or_empty, get_records}

module _ (go : Runtime) (ids : Ids) where
  unfoldable pub get_pulse_data : FullPulse → PulseData
  get_pulse_data pn = record {
    pulse_no = pos pn.pulse_number;
    epoch_pulse_no = pos (ids.as_epoch pn.pulse_number);
    pulse_timestamp = nanos_to_seconds pn.pulse_timestamp;
    next_pulse_number = pos pn.next_pulse_number;
    prev_pulse_number = pos pn.prev_pulse_number;
  }

  unfoldable pub jet_name : Text → Text
  jet_name jet_id =
      if ids.is_valid jet_id then jet_id_to_string (ids.depth jet_id) (ids.prefix jet_id) else []

  -- A jet drop whose records cannot be sorted is left out.
  unfoldable pub get_jet_drop : Jet → List CanonicalRecord → PulseData → Option CanonicalJetDrop
  get_jet_drop jet records pulse_data = elim (sort_records go records) [
    | none ↦ none
    | some sorted ↦ some (record {
      main_section = record {
        start = record {
          pulse_data = pulse_data;
          jet_drop_prefix = jet_name jet.jet_id;
          jet_drop_prefix_length = length (jet_name jet.jet_id);
        };
        drop_continue = record { prev_drop_hash = jet.prev_drop_hashes };
        records = sorted;
      };
      sections = [];
      raw_data = [];
      hash = jet.hash;
    })
  ]

  -- The jets without records.
  unfoldable pub add_jets : List Jet → ByJet → ByJet
  add_jets [] m = m
  add_jets (jet ∷ jets) m = elim (lookup jet.jet_id m) [
    | none ↦ add_jets jets (insert jet.jet_id [] m)
    | some records ↦ add_jets jets m
  ]

  unfoldable pub jet_drops : List Jet → ByJet → PulseData → List CanonicalJetDrop
  jet_drops [] m pulse_data = []
  jet_drops (jet ∷ jets) m pulse_data =
      let rest = jet_drops jets m pulse_data in
      elim (get_jet_drop jet (or_empty (lookup jet.jet_id m)) pulse_data) [
        | none ↦ rest
        | some drop ↦ drop ∷ rest
      ]

  -- An error is `none`.
  unfoldable pub transform : PlatformPulseData → Option (List CanonicalJetDrop)
  transform jd = elim (get_records ids jd) [
    | none ↦ none
    | some m ↦ some (jet_drops jd.pulse.jets (add_jets jd.pulse.jets m) (get_pulse_data jd.pulse))
  ]
