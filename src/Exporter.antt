-- ===== src/Exporter.antt =====
-- etl/exporter: the stream of complete pulses (pulse_exporter_server.go), the server's `Start` and
-- `Stop` (server.go), and the stream of records, which is empty (record_exporter_server.go).
pub mod Linked
pub mod Lifetime
use block_explorer.Prelude.{
  ℕ, ◌+◌, Bool, true, false, Option, none, some, List, [], ◌∷◌, Text, ℤ, leb_ℤ, if◌then◌else◌,
}
use block_explorer.Models.{Pulse}
use block_explorer.Interfaces.{DbError}

-- GetNextPulseResponse
pub record NextPulse : Type 0 where
  pub pulse_number : ℤ
  pub prev_pulse_number : ℤ
  pub record_amount : ℤ

-- What a round of the loop meets: the repository at that time and what `Send` returns.
pub record Round : Type 0 where
  pub repository : ℤ → List Text → Pulse × Option DbError
  pub send : NextPulse → Option Text

abbrev pub response_of : Pulse → NextPulse
response_of p = record {
  pulse_number = p.pulse_number;
  prev_pulse_number = p.prev_pulse_number;
  record_amount = p.record_amount;
}

-- What is sent within the given rounds, and the error that ends the stream.
unfoldable pub get_next_pulse : List Round → ℤ → List Text → List NextPulse × Option Text
get_next_pulse [] current_pn protos = ([], none)
get_next_pulse (round ∷ rounds) current_pn protos =
    let (received, err) = round.repository current_pn protos in
    let again = get_next_pulse rounds current_pn protos in
    let next = get_next_pulse rounds received.pulse_number protos in
    elim err [
      | some e ↦ again
      | none ↦
          if leb_ℤ received.pulse_number current_pn
          then again
          else elim (round.send (response_of received)) [
            | some e ↦ ([], some e)
            | none ↦ (response_of received ∷ next.0, next.1)
          ]
    ]

-- RecordServer.GetRecords
unfoldable pub get_records : List Text × Option Text
get_records = ([], none)

-- The server with the listeners that were opened and the contexts that were cancelled.
pub record Server : Type 0 where
  pub has_grpc_server : Bool
  pub has_started : Bool
  pub listeners : ℕ
  pub cancelled : ℕ

unfoldable pub new_server : Bool → Server
new_server has_grpc_server = record {
  has_grpc_server = has_grpc_server;
  has_started = false;
  listeners = 0;
  cancelled = 0;
}

pub data StartError : Type 0 where
  grpc_server_is_required failed_to_start : StartError

-- `net.Listen` succeeds or not.
unfoldable pub start : Bool → Server → Server × Option StartError
start listens s =
    if s.has_grpc_server
    then if s.has_started
      then (s, none)
      else if listens
      then (record s { listeners = s.listeners + 1 }, none)
      else (s, some failed_to_start)
    else (s, some grpc_server_is_required)

unfoldable pub stop : Server → Server
stop s = if s.has_started then record s { cancelled = s.cancelled + 1 } else s

pub data Call : Type 0 where
  starts : Bool → Call
  stops : Call

unfoldable pub call : Call → Server → Server
call (starts listens) s = (start listens s).0
call stops s = stop s

unfoldable pub calls : List Call → Server → Server
calls [] s = s
calls (c ∷ cs) s = calls cs (call c s)
