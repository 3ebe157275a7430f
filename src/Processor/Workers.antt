-- ===== src/Processor/Workers.antt =====
-- etl/processor/processor.go: the goroutines of `Start`, `Stop` and the channel between them. The
-- channel has no buffer, so a send and its receive are one event. The feeding goroutine keeps the
-- mutex while it sends. An event that cannot happen is `none`.
pub mod Busy
pub mod Handing
pub mod Keeping
pub mod Jam
use block_explorer.Prelude.{
  ℕ, zero, suc, ltb, ◌≡◌, Bool, true, false, Option, none, some, List, [], ◌∷◌, get_elem?, set,
  if◌then◌else◌,
}
use block_explorer.Models.{CanonicalJetDrop}
use block_explorer.Interfaces.{Storage}
use block_explorer.Controller.Register.{W}
use block_explorer.Processor.{ProcessError, process}

-- A worker waits for a task, works on one, sends a failed one or has returned.
pub data Worker : Type 0 where
  idle : Worker
  working : CanonicalJetDrop → Worker
  resending : CanonicalJetDrop → Worker
  returned : Worker

-- One jet drop arrives, or the channel of jet drops is closed; `Stop`; the feeding goroutine hands
-- its task to a worker; a worker ends its task, passes its failed task to another, returns, or sends
-- on the closed channel.
pub data Event : Type 0 where
  feed : CanonicalJetDrop → Event
  drain : Event
  stop : Event
  hand : ℕ → Event
  finish : ℕ → Event
  pass : ℕ → ℕ → Event
  quit : ℕ → Event
  crash : ℕ → Event

-- NewProcessor: at least one worker.
unfoldable pub worker_count : ℕ → ℕ
worker_count workers = if ltb workers 1 then 1 else workers

unfoldable pub idle_workers : ℕ → List Worker
idle_workers zero = []
idle_workers (suc n) = idle ∷ idle_workers n

module _ (storage : Storage) (min_time_pulse : ℕ) where
  -- The channel of tasks is open as long as the processor is active.
  pub record Pool : Type 0 where
    pub world : W storage min_time_pulse
    pub workers : List Worker
    pub feeding : Option CanonicalJetDrop
    pub active : Bool
    pub drained : Bool
    pub panicked : Bool

  -- NewProcessor and then `Start`.
  unfoldable pub new_pool : ℕ → W storage min_time_pulse → Pool
  new_pool workers w = record {
    world = w;
    workers = idle_workers (worker_count workers);
    feeding = none;
    active = true;
    drained = false;
    panicked = false;
  }

  -- What a worker does with the result of `process`.
  unfoldable pub after : CanonicalJetDrop → Option ProcessError → Worker
  after jd none = idle
  after jd (some e) = resending jd

  unfoldable pub feed_step : CanonicalJetDrop → Pool → Option Pool
  feed_step jd p = elim p.feeding [
    | some t ↦ none
    | none ↦
        if p.drained
        then none
        else if p.active
        then some (record p { feeding = some jd })
        else some p
  ]

  unfoldable pub close_step : Bool → Pool → Option Pool
  close_step drained p = elim p.feeding [
    | some t ↦ none
    | none ↦ some (record p { active = false; drained = drained })
  ]

  unfoldable pub hand_step : ℕ → Pool → Option Pool
  hand_step i p = elim p.feeding [
    | none ↦ none
    | some t ↦ elim (get_elem? p.workers i) [
      | some idle ↦ some (record p { feeding = none; workers = set p.workers i (working t) })
      | _ ↦ none
    ]
  ]

  unfoldable pub finish_step : ℕ → Pool → Option Pool
  finish_step i p = elim (get_elem? p.workers i) [
    | some (working t) ↦
        let (w, err) = process storage min_time_pulse t p.world in
        some (record p { world = w; workers = set p.workers i (after t err) })
    | _ ↦ none
  ]

  unfoldable pub pass_step : ℕ → ℕ → Pool → Option Pool
  pass_step i j p = elim (get_elem? p.workers i) [
    | some (resending t) ↦ elim (get_elem? p.workers j) [
      | some idle ↦
          if p.active
          then some (record p { workers = set (set p.workers i idle) j (working t) })
          else none
      | _ ↦ none
    ]
    | _ ↦ none
  ]

  -- A receive from the closed channel gives no task.
  unfoldable pub quit_step : ℕ → Pool → Option Pool
  quit_step i p = elim (get_elem? p.workers i) [
    | some idle ↦ if p.active then none else some (record p { workers = set p.workers i returned })
    | _ ↦ none
  ]

  unfoldable pub crash_step : ℕ → Pool → Option Pool
  crash_step i p = elim (get_elem? p.workers i) [
    | some (resending t) ↦ if p.active then none else some (record p { panicked = true })
    | _ ↦ none
  ]

  unfoldable pub event_step : Event → Pool → Option Pool
  event_step (feed jd) p = feed_step jd p
  event_step drain p = if p.drained then none else close_step true p
  event_step stop p = close_step p.drained p
  event_step (hand i) p = hand_step i p
  event_step (finish i) p = finish_step i p
  event_step (pass i j) p = pass_step i j p
  event_step (quit i) p = quit_step i p
  event_step (crash i) p = crash_step i p

  -- Nothing happens after a panic.
  unfoldable pub step : Event → Pool → Option Pool
  step e p = if p.panicked then none else event_step e p

  unfoldable pub run : List Event → Pool → Option Pool
  run [] p = some p
  run (e ∷ events) p = elim (step e p) [ none ↦ none | some p' ↦ run events p' ]
