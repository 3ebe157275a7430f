-- ===== src/Processor/Workers/Keeping.antt =====
-- No task is lost between the goroutines of the processor.
use block_explorer.Prelude.{
  ℕ, ◌≡◌, ◌⊎◌, inl, inr, sym, ◌∙◌, true, false, Option, none, some, arith, get_elem?, set,
  Option-cases, Bool-cases, if_false, subst,
}
use block_explorer.Models.{CanonicalJetDrop}
use block_explorer.Interfaces.{Storage}
use block_explorer.Controller.Register.{W}
use block_explorer.Controller.Register.Entries.{Has}
use block_explorer.Processor.{ProcessError, process}
use block_explorer.Processor.Rows.{process-Processed}
use block_explorer.Processor.Workers.Handing.{
  Holds, Reported, Kept, feed_keeps, close_keeps, hand_keeps, quit_keeps, pass_keeps, crash_panics,
}
use block_explorer.Processor.Workers.Busy.{Busy, SomeBusy, SomeBusy-set, set-SomeBusy, true-false}
use block_explorer.Processor.Workers.{
  idle, working, resending, returned, Event, feed, drain, stop, hand, finish, pass, quit, crash,
  Pool, after, step, event_step, close_step, finish_step,
}

module _ (storage : Storage) (min_time_pulse : ℕ) where
  after-Busy :
      (jd t : CanonicalJetDrop) (err : Option ProcessError) (x : ProcessError)
      → err ≡ some x
      → jd ≡ t
      → Busy jd (after storage min_time_pulse t err)
  unfolding after Busy
  after-Busy jd t none x e own = absurd (ground arith)
  after-Busy jd t (some y) x e own = own

  ended :
      (jd t : CanonicalJetDrop) (i : ℕ) (p p' : Pool storage min_time_pulse)
      → get_elem? p.workers i ≡ some (working t)
      → p'.world ≡ (process storage min_time_pulse t p.world).0
      → set p.workers i
          (after storage min_time_pulse t (process storage min_time_pulse t p.world).1)
        ≡ p'.workers
      → jd ≡ t
      → Kept storage min_time_pulse jd p'
  ended jd t i p p' g world ws own =
      let err = (process storage min_time_pulse t p.world).1 in
      let again : (x : ProcessError) → err ≡ some x → Kept storage min_time_pulse jd p' = λ x e.
        inl (
          inr (
            subst (SomeBusy jd) ws (
              set-SomeBusy jd p.workers i (working t) (after storage min_time_pulse t err) g
                (after-Busy jd t err x e own)))) in
      elim (process-Processed storage min_time_pulse t p.world) [
        | inl (x, _, e, _, _) ↦ again _ e
        | inr (inl (x, _, _, e, _, _)) ↦ again _ e
        | inr (inr (_, _, _, _, has)) ↦ inr (
            subst
              (λ (o : W storage min_time_pulse).
                Has jd.main_section.start.pulse_data jd.main_section.start.jet_drop_prefix
                  o.controller.jet_drop_register)
              (sym world)
              (subst
                (λ (j : CanonicalJetDrop).
                  Has j.main_section.start.pulse_data j.main_section.start.jet_drop_prefix
                    (process storage min_time_pulse t p.world).0.controller.jet_drop_register)
                (sym own) has))
      ]

  finish_keeps :
      (jd : CanonicalJetDrop) (i : ℕ) (p p' : Pool storage min_time_pulse)
      → finish_step storage min_time_pulse i p ≡ some p'
      → Holds storage min_time_pulse jd p
      → Kept storage min_time_pulse jd p'
  unfolding finish_step Busy
  finish_keeps jd i p p' e h = elim (Option-cases (get_elem? p.workers i)) [
    | inl g ↦ absurd (ground arith)
    | inr (working t, g) ↦
        let err = (process storage min_time_pulse t p.world).1 in
        let ws : set p.workers i (after storage min_time_pulse t err) ≡ p'.workers = ground arith in
        let world : p'.world ≡ (process storage min_time_pulse t p.world).0 = ground arith in
        elim h [
          | inl own ↦ inl (inl (let same : p'.feeding ≡ p.feeding = ground arith in same ∙ own))
          | inr busy ↦
              elim (SomeBusy-set jd p.workers i (working t) (after storage min_time_pulse t err) g
                busy) [
                  | inl k ↦ inl (inr (subst (SomeBusy jd) ws k))
                  | inr own ↦ ended jd t i p p' g world ws own
                ]
        ]
    | inr (idle, g) ↦ absurd (ground arith)
    | inr (resending _, g) ↦ absurd (ground arith)
    | inr (returned, g) ↦ absurd (ground arith)
  ]

  event_keeps :
      (jd : CanonicalJetDrop) (e : Event) (p p' : Pool storage min_time_pulse)
      → event_step storage min_time_pulse e p ≡ some p'
      → p'.panicked ≡ false
      → Holds storage min_time_pulse jd p
      → Kept storage min_time_pulse jd p'
  unfolding event_step
  event_keeps jd (feed t) p p' s calm h = feed_keeps storage min_time_pulse jd t p p' s h
  event_keeps jd drain p p' s calm h = elim (Bool-cases p.drained) [
    | inl b ↦ absurd (ground arith)
    | inr b ↦
        close_keeps storage min_time_pulse jd true p p'
          (sym (if_false none (close_step storage min_time_pulse true p) b) ∙ s) h
  ]
  event_keeps jd stop p p' s calm h = close_keeps storage min_time_pulse jd p.drained p p' s h
  event_keeps jd (hand i) p p' s calm h = hand_keeps storage min_time_pulse jd i p p' s h
  event_keeps jd (finish i) p p' s calm h = finish_keeps jd i p p' s h
  event_keeps jd (pass i j) p p' s calm h = pass_keeps storage min_time_pulse jd i j p p' s h
  event_keeps jd (quit i) p p' s calm h = quit_keeps storage min_time_pulse jd i p p' s h
  event_keeps jd (crash i) p p' s calm h =
      absurd (true-false (sym (crash_panics storage min_time_pulse i p p' s) ∙ calm))

-- Every event but a panic keeps a task that the processor has taken: afterwards the feeding
-- goroutine or a worker has it, or its jet drop has been reported to the controller.
pub step_keeps :
    (storage : Storage) (min_time_pulse : ℕ) (jd : CanonicalJetDrop) (e : Event)
    (p p' : Pool storage min_time_pulse)
    → step storage min_time_pulse e p ≡ some p'
    → p'.panicked ≡ false
    → Holds storage min_time_pulse jd p
    → Holds storage min_time_pulse jd p' ⊎ Reported storage min_time_pulse jd p'
unfolding step
step_keeps storage min_time_pulse jd e p p' s calm h = elim (Bool-cases p.panicked) [
  | inl b ↦ absurd (ground arith)
  | inr b ↦
      event_keeps storage min_time_pulse jd e p p'
        (sym (if_false none (event_step storage min_time_pulse e p) b) ∙ s) calm h
]
