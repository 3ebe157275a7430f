-- ===== src/Processor/Workers/Jam.antt =====
-- A pool whose workers all send a failed task has nobody to receive.
use block_explorer.Prelude.{
  ℕ, zero, suc, ◌≡◌, ap, ◌⊎◌, inl, inr, refl, ◌∙◌, true, false, none, some, List, [], ◌∷◌, arith,
  All, get_elem?, Bool-cases, if_false,
}
use block_explorer.Models.{CanonicalJetDrop}
use block_explorer.Interfaces.{Storage, DbError}
use block_explorer.Controller.Register.{W}
use block_explorer.Processor.{process, pulse_row}
use block_explorer.Processor.Workers.{
  Worker, idle, working, resending, returned, Event, feed, drain, stop, hand, finish, pass, quit,
  crash, Pool, after, step, event_step, feed_step, close_step, hand_step, finish_step, pass_step,
  quit_step, crash_step, run, new_pool, worker_count, idle_workers,
}

unfoldable pub Resends : Worker → Type 0
Resends (resending t) = Unit
Resends _ = ⊥

-- No worker of the list can receive or work.
All-Resends :
    (ws : List Worker) (i : ℕ)
    → All Resends ws
    → (get_elem? ws i ≡ none) ⊎ ((t : CanonicalJetDrop) × (get_elem? ws i ≡ some (resending t)))
unfolding Resends
All-Resends [] i h = inl refl
All-Resends (resending t ∷ ws) zero h = inr (t, refl)
All-Resends (w ∷ ws) (suc i) h = All-Resends ws i h.1
All-Resends (idle ∷ ws) zero h = absurd h.0
All-Resends (working t ∷ ws) zero h = absurd h.0
All-Resends (returned ∷ ws) zero h = absurd h.0

module _ (storage : Storage) (min_time_pulse : ℕ) where
  abbrev P : Type 0
  P = Pool storage min_time_pulse

  stuck-event :
      (e : Event) (p : P) (t : CanonicalJetDrop)
      → All Resends p.workers
      → p.feeding ≡ some t
      → p.active ≡ true
      → event_step storage min_time_pulse e p ≡ none
  unfolding event_step feed_step close_step hand_step finish_step pass_step quit_step crash_step
  stuck-event (feed jd) p t h f a = rw f refl
  stuck-event drain p t h f a = ground arith
  stuck-event stop p t h f a = rw f refl
  stuck-event (hand i) p t h f a = elim (All-Resends p.workers i h) [
    | inl g ↦ rw (f, g, hand_step) refl
    | inr (u, g) ↦ rw (f, g, hand_step) refl
  ]
  stuck-event (finish i) p t h f a = elim (All-Resends p.workers i h) [
    | inl g ↦ rw (g, finish_step) refl
    | inr (u, g) ↦ rw (g, finish_step) refl
  ]
  stuck-event (pass i j) p t h f a = elim (All-Resends p.workers i h) [
    | inl g ↦ rw (g, pass_step) refl
    | inr (u, g) ↦ elim (All-Resends p.workers j h) [
      | inl k ↦ rw (g, k, pass_step) refl
      | inr (v, k) ↦ rw (g, k, pass_step) refl
    ]
  ]
  stuck-event (quit i) p t h f a = elim (All-Resends p.workers i h) [
    | inl g ↦ rw (g, quit_step) refl
    | inr (u, g) ↦ rw (g, quit_step) refl
  ]
  stuck-event (crash i) p t h f a = elim (All-Resends p.workers i h) [
    | inl g ↦ rw (g, crash_step) refl
    | inr (u, g) ↦ rw (g, a, crash_step) refl
  ]

-- While the feeding goroutine sends a task and every worker sends a failed one, no event can happen,
-- not even `Stop`: the processor stands still for ever.
pub jammed :
    (storage : Storage) (min_time_pulse : ℕ) (e : Event) (p : Pool storage min_time_pulse)
    (t : CanonicalJetDrop)
    → All Resends p.workers
    → p.feeding ≡ some t
    → p.active ≡ true
    → step storage min_time_pulse e p ≡ none
unfolding step
jammed storage min_time_pulse e p t h f a = elim (Bool-cases p.panicked) [
  | inl b ↦ rw b refl
  | inr b ↦
      if_false none (event_step storage min_time_pulse e p) b
      ∙ stuck-event storage min_time_pulse e p t h f a
]

-- With one worker a single error of the database is enough: the worker sends the failed task to
-- itself, and when the next jet drop comes nothing can happen any more.
pub one_worker_jams :
    (storage : Storage) (min_time_pulse : ℕ) (w : W storage min_time_pulse)
    (first second : CanonicalJetDrop) (e : DbError)
    → (storage.save_pulse (pulse_row first.main_section.start.pulse_data) w.db).0 ≡ some e
    → (p : Pool storage min_time_pulse) × (run storage min_time_pulse
          (feed first ∷ hand 0 ∷ finish 0 ∷ feed second ∷ [])
          (new_pool storage min_time_pulse 1 w)
        ≡ some p)
      × ((event : Event) → step storage min_time_pulse event p ≡ none)
unfolding run step event_step feed_step hand_step finish_step process after new_pool worker_count
    idle_workers Resends
one_worker_jams storage min_time_pulse w first second e h =
    let p : Pool storage min_time_pulse = record {
      world = (process storage min_time_pulse first w).0;
      workers = resending first ∷ [];
      feeding = some second;
      active = true;
      drained = false;
      panicked = false;
    } in
    (
      p,
      rw (h, process, after) refl,
      λ event. jammed storage min_time_pulse event p second (tt, tt) refl refl,
    )

worker_count-suc : (n : ℕ) → (k : ℕ) × (worker_count n ≡ suc k)
unfolding worker_count
worker_count-suc zero = (0, refl)
worker_count-suc (suc k) = (k, ground arith)

-- With any number of workers, an error of the database and then `Stop` can end the process: the worker
-- with the failed task sends on the channel that `Stop` has closed, and panics. Nothing can happen after
-- that, though the jet drop has not been reported.
pub stop_panics :
    (storage : Storage) (min_time_pulse n : ℕ) (w : W storage min_time_pulse)
    (jd : CanonicalJetDrop) (e : DbError)
    → (storage.save_pulse (pulse_row jd.main_section.start.pulse_data) w.db).0 ≡ some e
    → (p : Pool storage min_time_pulse) × (run storage min_time_pulse
          (feed jd ∷ hand 0 ∷ finish 0 ∷ stop ∷ crash 0 ∷ [])
          (new_pool storage min_time_pulse n w)
        ≡ some p)
      × (p.world.controller ≡ w.controller)
      × ((event : Event) → step storage min_time_pulse event p ≡ none)
unfolding run step event_step feed_step hand_step finish_step close_step crash_step process after
    new_pool idle_workers
stop_panics storage min_time_pulse n w jd e h =
    let (k, some_worker) = worker_count-suc n in
    let handed : Pool storage min_time_pulse = record {
      world = w;
      workers = working jd ∷ idle_workers k;
      feeding = none;
      active = true;
      drained = false;
      panicked = false;
    } in
    let failed : Pool storage min_time_pulse = record handed {
      world = (process storage min_time_pulse jd w).0;
      workers = resending jd ∷ idle_workers k;
    } in
    let p : Pool storage min_time_pulse = record failed { active = false; panicked = true } in
    let fails : step storage min_time_pulse (finish 0) handed ≡ some failed =
      rw (h, process, after) refl in
    let ends : run storage min_time_pulse (finish 0 ∷ stop ∷ crash 0 ∷ []) handed ≡ some p =
      ap (λ o. elim o [ none ↦ none | some q ↦ run storage min_time_pulse (stop ∷ crash 0 ∷ []) q ])
        fails in
    (p, rw (some_worker, new_pool) ends, rw (h, process) refl, λ event. refl)
