-- ===== src/Platform.antt =====
-- What the program reads of the platform's messages, and etl/types/types.go's PlatformPulseData, in
-- which the extractor hands them on. The messages themselves are the platform's.
use block_explorer.Prelude.{ℕ, Option, List, Text, ℤ}

-- exporter.JetDropContinue
pub record Jet : Type 0 where
  pub jet_id : Text
  pub hash : Text
  pub prev_drop_hashes : List Text

-- exporter.FullPulse
pub record FullPulse : Type 0 where
  pub pulse_number : ℕ
  pub prev_pulse_number : ℕ
  pub next_pulse_number : ℕ
  pub pulse_timestamp : ℤ
  pub jets : List Jet

-- The union `Record.Virtual`, as far as it is told apart; ids and references are their bytes.
pub data Virtual : Type 0 where
  activate : (image memory request : Text) → Virtual
  amend : (image memory prev_state_id request : Text) → Virtual
  deactivate : (prev_state_id : Text) → Virtual
  result : (payload object : Text) → Virtual
  incoming_request : (method : Text) → Virtual
  outgoing_request other : Virtual

-- exporter.Record; `raw_data` is what `Marshal` gives, unless it fails.
pub record PlatformRecord : Type 0 where
  pub should_iterate_from : Option ℕ
  pub pulse : ℕ
  pub jet_id : Text
  pub id : Text
  pub hash : Text
  pub object_id : Text
  pub raw_data : Option Text
  pub record_number : ℕ
  pub virtual : Virtual

-- types.PlatformPulseData
pub record PlatformPulseData : Type 0 where
  pub pulse : FullPulse
  pub records : List PlatformRecord
