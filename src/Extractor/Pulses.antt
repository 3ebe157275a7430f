-- ===== src/Extractor/Pulses.antt =====
-- etl/extractor/platform_impl.go: `retrievePulses` as a machine, and the extractor with all its
-- goroutines. A step that cannot happen is `none`.
pub mod Holding
pub mod Answers
pub mod Balance
pub mod Counting
pub mod Sending
pub mod Serial
pub mod Served
use block_explorer.Prelude.{
  ℕ, ◌+◌, Bool, true, false, not, ◌&&◌, Option, none, some, List, [], ◌∷◌, ◌++◌, Text, ℤ, get_elem?,
  set, leb, ◌==◌, nat_eq, if◌then◌else◌,
}
use block_explorer.Platform.{FullPulse}
use block_explorer.Extractor.{
  Messages, Phase, top, waiting, overdrawn, asking, returned, broken, Thread, Task, retrieving,
  done, PlatformExtractor, is_version_error, take_worker, take_back, free_unless, to_pulse_number,
  load_jet_drops, start, stop,
}
use block_explorer.Extractor.Records.{Client, retrieve_records}

-- What a round of the loop meets: whether the context is cancelled, an attempt to take a worker, which
-- ends with the counter taken back if it is beyond the maximum, and the answer of
-- `GetNextFinalizedPulse`, with the client of the records and a bound on the calls if they are
-- retrieved in the same goroutine.
pub data Input : Type 0 where
  look : Bool → Input
  attempt undo : Input
  next_pulse : FullPulse → Client → ℕ → Input
  no_pulse : Text → Input

pub data Event : Type 0 where
  starts stops : Event
  loads : ℤ → ℤ → Event
  proceeds : ℕ → Input → Event
  retrieves : ℕ → Client → ℕ → Event

abbrev pub Both : Type 0
Both = Thread × PlatformExtractor

-- `nextNotEmptyPulseNumber == nil || pu.PulseNumber >= *nextNotEmptyPulseNumber`
abbrev pub may_have_records : Option ℕ → ℕ → Bool
may_have_records none pulse_number = true
may_have_records (some next) pulse_number = leb next pulse_number

module _ (texts : Messages) where
  -- With at most three workers the pulses of a range are retrieved one by one.
  unfoldable pub in_turn : FullPulse → Client → ℕ → Thread → PlatformExtractor → Option Both
  in_turn pu client rounds t e =
      if may_have_records t.next_not_empty_pulse_number pu.pulse_number
      then elim (retrieve_records texts client rounds pu t.main_thread false e) [
        | none ↦ none
        | some (e', next) ↦ some (record t { next_not_empty_pulse_number = next }, e')
      ]
      else elim (retrieve_records texts client rounds pu t.main_thread true e) [
        | none ↦ none
        | some (e', next) ↦ some (t, e')
      ]

  unfoldable pub hand_on : FullPulse → Client → ℕ → Thread → PlatformExtractor → Option Both
  hand_on pu client rounds t e =
      if not t.main_thread && leb e.max_workers 3
      then in_turn pu client rounds t e
      else some (t, record e { tasks = e.tasks ++ retrieving pu t.main_thread ∷ [] })

  -- The end of a round.
  unfoldable pub go_on : Thread → Thread
  go_on t =
      if t.main_thread
      then record t { phase = top }
      else if leb (to_pulse_number t.until) t.pu.pulse_number
      then record t { phase = returned }
      else record t { phase = top }

  unfoldable pub answered : FullPulse → Client → ℕ → Thread → PlatformExtractor → Option Both
  answered pu client rounds t e =
      if pu.pulse_number == t.pu.pulse_number
      then some (record t { pu = pu; phase = top }, free_unless t.main_thread e)
      else elim (hand_on pu client rounds (record t { pu = pu }) e) [
        | none ↦ none
        | some (t', e') ↦ some (go_on t', e')
      ]

  -- After all errors but that of the version the pulse is asked for again: they differ in the pause.
  -- The `break` leaves the loop.
  unfoldable pub not_answered : Text → Thread → PlatformExtractor → Both
  not_answered err t e =
      if is_version_error texts err
      then (record t { phase = broken }, record e { shutdowns = e.shutdowns + 1 })
      else (record t { phase = top }, free_unless t.main_thread e)

  unfoldable pub looked : Bool → Thread → Thread
  looked cancelled t =
      if cancelled
      then record t { phase = returned }
      else if t.main_thread
      then record t { phase = asking }
      else record t { phase = waiting }

  unfoldable pub attempted : Thread → PlatformExtractor → Both
  attempted t e =
      let (e', taken) = take_worker e in
      (if taken then record t { phase = asking } else record t { phase = overdrawn }, e')

  unfoldable pub thread_step : Input → Thread → PlatformExtractor → Option Both
  thread_step (look cancelled) t e = elim t.phase [ top ↦ some (looked cancelled t, e) | _ ↦ none ]
  thread_step attempt t e = elim t.phase [ waiting ↦ some (attempted t e) | _ ↦ none ]
  thread_step undo t e = elim t.phase [
    | overdrawn ↦ some (record t { phase = waiting }, take_back e)
    | _ ↦ none
  ]
  thread_step (next_pulse pu client rounds) t e = elim t.phase [
    | asking ↦ answered pu client rounds t e
    | _ ↦ none
  ]
  thread_step (no_pulse err) t e = elim t.phase [ asking ↦ some (not_answered err t e) | _ ↦ none ]

  unfoldable pub proceed_step : ℕ → Input → PlatformExtractor → Option PlatformExtractor
  proceed_step i input e = elim (get_elem? e.threads i) [
    | none ↦ none
    | some t ↦ elim (thread_step input t e) [
      | none ↦ none
      | some (t', e') ↦ some (record e' { threads = set e'.threads i t' })
    ]
  ]

  unfoldable pub retrieve_step : ℕ → Client → ℕ → PlatformExtractor → Option PlatformExtractor
  retrieve_step i client rounds e = elim (get_elem? e.tasks i) [
    | some (retrieving pu main_thread) ↦
        elim (retrieve_records texts client rounds pu main_thread false e) [
          | none ↦ none
          | some (e', next) ↦ some (record e' { tasks = set e'.tasks i done })
        ]
    | _ ↦ none
  ]

  unfoldable pub step : Event → PlatformExtractor → Option PlatformExtractor
  step starts e = some (start e)
  step stops e = some (stop e)
  step (loads from until) e = some (load_jet_drops from until e)
  step (proceeds i input) e = proceed_step i input e
  step (retrieves i client rounds) e = retrieve_step i client rounds e

  unfoldable pub run : List Event → PlatformExtractor → Option PlatformExtractor
  run [] e = some e
  run (event ∷ events) e = elim (step event e) [ none ↦ none | some e' ↦ run events e' ]
