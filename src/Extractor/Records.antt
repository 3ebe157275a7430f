-- ===== src/Extractor/Records.antt =====
-- etl/extractor/platform_impl.go: `retrieveRecords`. The platform's client is a parameter: what it
-- answers to the n-th call of `Export`, and what is then received from the stream.
pub mod Whole
pub mod Ending
use block_explorer.Prelude.{
  ℕ, zero, suc, ◌+◌, ◌%◌, ◌^◌, Bool, true, false, not, ◌||◌, Option, none, some, List, [], ◌∷◌,
  ◌++◌, Text, length, ◌==◌, nat_eq, if◌then◌else◌,
}
use block_explorer.Go.Strings.{contains}
use block_explorer.Platform.{FullPulse, PlatformRecord, PlatformPulseData}
use block_explorer.Extractor.{
  Messages, PlatformExtractor, is_version_error, is_rate_limit_error, free_unless,
}

-- exporter.GetRecords
pub record GetRecords : Type 0 where
  pub pulse_number : ℕ
  pub record_number : ℕ
  pub count : ℕ

-- Before each receive the context may be cancelled; after the last one the stream ends (io.EOF).
pub data Received : Type 0 where
  packet : PlatformRecord → Received
  failed : Text → Received
  cancelled : Received

-- `Export`, before which the context may be cancelled too.
pub data Answer : Type 0 where
  opened : List Received → Answer
  refused : Text → Answer
  called_off : Answer

abbrev pub Client : Type 0
Client = ℕ → GetRecords → Answer

-- A portion ends: another stream is opened, the pulse is whole, or the retrieval is given up.
pub data Portion : Type 0 where
  reopen : List PlatformRecord → Portion
  whole : List PlatformRecord → ℕ → Portion
  abandon : Portion

-- The retrieval ends with a whole pulse or without it, after a version error or not; or it has not
-- ended within the given number of portions.
pub data Retrieval : Type 0 where
  retrieved : List PlatformRecord → ℕ → Retrieval
  given_up : Bool → Retrieval
  pending : List PlatformRecord → Retrieval

abbrev pub iterate_from : PlatformRecord → ℕ
iterate_from r = elim r.should_iterate_from [ none ↦ r.pulse | some n ↦ n ]

abbrev pub is_some : Option ℕ → Bool
is_some none = false
is_some (some n) = true

-- `resp.ShouldIterateFrom != nil || resp.Record.ID.Pulse() != pu.PulseNumber`
unfoldable pub is_next_pulse_packet : ℕ → PlatformRecord → Bool
is_next_pulse_packet pulse_number r = is_some r.should_iterate_from || not (r.pulse == pulse_number)

abbrev pub request : ℕ → ℕ → List PlatformRecord → GetRecords
request batch_size pulse_number records = record {
  pulse_number = pulse_number;
  record_number = length records % 2 ^ 32;
  count = batch_size;
}

module _ (texts : Messages) where
  -- An error of `Recv`.
  unfoldable pub receive_failed : Text → List PlatformRecord → Portion
  receive_failed err records =
      if is_rate_limit_error texts err
      then reopen records
      else if contains err texts.not_final_pulse_data || contains err texts.not_found
      then reopen records
      else abandon

  -- The loop per record.
  unfoldable pub receive : ℕ → List Received → List PlatformRecord → Portion
  receive pulse_number [] records = reopen records
  receive pulse_number (cancelled ∷ stream) records = abandon
  receive pulse_number (failed err ∷ stream) records = receive_failed err records
  receive pulse_number (packet r ∷ stream) records =
      let rest = receive pulse_number stream (records ++ r ∷ []) in
      if is_next_pulse_packet pulse_number r then whole records (iterate_from r) else rest

  -- The loop per portion, for at most `rounds` calls from the n-th on; other errors than that of the
  -- version are followed by a pause and another call.
  unfoldable pub portions : Client → ℕ → ℕ → ℕ → ℕ → List PlatformRecord → Retrieval
  portions client batch_size pulse_number zero n records = pending records
  portions client batch_size pulse_number (suc rounds) n records =
      elim (client n (request batch_size pulse_number records)) [
        | called_off ↦ given_up false
        | refused err ↦
            let again = portions client batch_size pulse_number rounds (n + 1) records in
            if is_version_error texts err then given_up true else again
        | opened stream ↦ elim (receive pulse_number stream records) [
          | abandon ↦ given_up false
          | whole all next ↦ retrieved all next
          | reopen more ↦ portions client batch_size pulse_number rounds (n + 1) more
        ]
      ]

  abbrev pub send : FullPulse → List PlatformRecord → PlatformExtractor → PlatformExtractor
  send pu records e = record e {
    main_pulse_data_chan = e.main_pulse_data_chan ++ record { pulse = pu; records = records } ∷ [];
  }

  -- What the end of the loop leaves, and the pulse to go on from.
  unfoldable pub conclude :
      FullPulse → Bool → Retrieval → PlatformExtractor → Option (PlatformExtractor × Option ℕ)
  conclude pu main_thread (retrieved records next) e =
      some (free_unless main_thread (send pu records e), some next)
  conclude pu main_thread (given_up shutdown) e = some (
    free_unless main_thread (if shutdown then record e { shutdowns = e.shutdowns + 1 } else e),
    none,
  )
  conclude pu main_thread (pending records) e = none

  -- A retrieval that has not ended is `none`.
  unfoldable pub retrieve_records :
      Client
      → ℕ
      → FullPulse
      → Bool
      → Bool
      → PlatformExtractor
      → Option (PlatformExtractor × Option ℕ)
  retrieve_records client rounds pu main_thread skip_request e =
      if skip_request
      then some (free_unless main_thread (send pu [] e), none)
      else conclude pu main_thread (portions client e.batch_size pu.pulse_number rounds 0 []) e
