-- ===== src/Processor/Workers/Handing.antt =====
-- What the events that do not process a task do with the tasks.
use block_explorer.Prelude.{
  ℕ, ◌≡◌, ◌⊎◌, inl, inr, sym, ◌∙◌, Bool, true, some, arith, get_elem?, set, Option-cases, subst,
}
use block_explorer.Models.{CanonicalJetDrop}
use block_explorer.Interfaces.{Storage}
use block_explorer.Controller.Register.Entries.{Has}
use block_explorer.Controller.Register.Erasing.{some-inj}
use block_explorer.Processor.Workers.Busy.{
  Busy, SomeBusy, SomeBusy-set, set-SomeBusy, get_elem?-set_idle,
}
use block_explorer.Processor.Workers.{
  idle, working, resending, returned, Pool, feed_step, close_step, hand_step, pass_step, quit_step,
  crash_step,
}

module _ (storage : Storage) (min_time_pulse : ℕ) where
  abbrev pub P : Type 0
  P = Pool storage min_time_pulse

  -- The processor has the task: the feeding goroutine or a worker has it.
  abbrev pub Holds : CanonicalJetDrop → P → Type 0
  Holds jd p = (p.feeding ≡ some jd) ⊎ SomeBusy jd p.workers

  abbrev pub Reported : CanonicalJetDrop → P → Type 0
  Reported jd p =
      Has jd.main_section.start.pulse_data jd.main_section.start.jet_drop_prefix
        p.world.controller.jet_drop_register

  -- The task is still there, or it is in the register.
  abbrev pub Kept : CanonicalJetDrop → P → Type 0
  Kept jd p = Holds jd p ⊎ Reported jd p

  pub feed_keeps :
      (jd t : CanonicalJetDrop) (p p' : P)
      → feed_step storage min_time_pulse t p ≡ some p'
      → Holds jd p
      → Kept jd p'
  unfolding feed_step
  feed_keeps jd t p p' e (inl h) = absurd (ground arith)
  feed_keeps jd t p p' e (inr h) = elim (Option-cases p.feeding) [
    | inr (u, f) ↦ absurd (ground arith)
    | inl f ↦ inl (inr (subst (SomeBusy jd) (ground arith) h))
  ]

  pub close_keeps :
      (jd : CanonicalJetDrop) (d : Bool) (p p' : P)
      → close_step storage min_time_pulse d p ≡ some p'
      → Holds jd p
      → Kept jd p'
  unfolding close_step
  close_keeps jd d p p' e (inl h) = absurd (ground arith)
  close_keeps jd d p p' e (inr h) = elim (Option-cases p.feeding) [
    | inr (u, f) ↦ absurd (ground arith)
    | inl f ↦ inl (inr (subst (SomeBusy jd) (ground arith) h))
  ]

  pub hand_keeps :
      (jd : CanonicalJetDrop) (i : ℕ) (p p' : P)
      → hand_step storage min_time_pulse i p ≡ some p'
      → Holds jd p
      → Kept jd p'
  unfolding hand_step Busy
  hand_keeps jd i p p' e h = elim (Option-cases p.feeding) [
    | inl f ↦ absurd (ground arith)
    | inr (t, f) ↦ elim (Option-cases (get_elem? p.workers i)) [
      | inl g ↦ absurd (ground arith)
      | inr (idle, g) ↦
          let ws : set p.workers i (working t) ≡ p'.workers = ground arith in
          inl (
            inr (
              subst (SomeBusy jd) ws (elim h [
                | inl own ↦ set-SomeBusy jd p.workers i idle (working t) g (some-inj (sym own ∙ f))
                | inr busy ↦ elim (SomeBusy-set jd p.workers i idle (working t) g busy) [
                  | inl k ↦ k
                  | inr k ↦ absurd k
                ]
              ])))
      | inr (working _, g) ↦ absurd (ground arith)
      | inr (resending _, g) ↦ absurd (ground arith)
      | inr (returned, g) ↦ absurd (ground arith)
    ]
  ]

  pub quit_keeps :
      (jd : CanonicalJetDrop) (i : ℕ) (p p' : P)
      → quit_step storage min_time_pulse i p ≡ some p'
      → Holds jd p
      → Kept jd p'
  unfolding quit_step Busy
  quit_keeps jd i p p' e h = elim (Option-cases (get_elem? p.workers i)) [
    | inl g ↦ absurd (ground arith)
    | inr (idle, g) ↦
        let ws : set p.workers i returned ≡ p'.workers = ground arith in
        elim h [
          | inl own ↦ inl (inl (let same : p'.feeding ≡ p.feeding = ground arith in same ∙ own))
          | inr busy ↦ elim (SomeBusy-set jd p.workers i idle returned g busy) [
            | inl k ↦ inl (inr (subst (SomeBusy jd) ws k))
            | inr k ↦ absurd k
          ]
        ]
    | inr (working _, g) ↦ absurd (ground arith)
    | inr (resending _, g) ↦ absurd (ground arith)
    | inr (returned, g) ↦ absurd (ground arith)
  ]

  pub pass_keeps :
      (jd : CanonicalJetDrop) (i j : ℕ) (p p' : P)
      → pass_step storage min_time_pulse i j p ≡ some p'
      → Holds jd p
      → Kept jd p'
  unfolding pass_step Busy
  pass_keeps jd i j p p' e h = elim (Option-cases (get_elem? p.workers i)) [
    | inl g ↦ absurd (ground arith)
    | inr (resending t, g) ↦ elim (Option-cases (get_elem? p.workers j)) [
      | inl k ↦ absurd (ground arith)
      | inr (idle, k) ↦
          let ws : set (set p.workers i idle) j (working t) ≡ p'.workers = ground arith in
          let free = get_elem?-set_idle p.workers i j k in
          elim h [
            | inl own ↦ inl (inl (let same : p'.feeding ≡ p.feeding = ground arith in same ∙ own))
            | inr busy ↦ inl (
                inr (
                  subst (SomeBusy jd) ws
                    (elim (SomeBusy-set jd p.workers i (resending t) idle g busy) [
                      | inr own ↦ set-SomeBusy jd (set p.workers i idle) j idle (working t) free own
                      | inl more ↦
                          elim (SomeBusy-set jd (set p.workers i idle) j idle (working t) free
                            more) [ inl m ↦ m | inr m ↦ absurd m ]
                    ])))
          ]
      | inr (working _, k) ↦ absurd (ground arith)
      | inr (resending _, k) ↦ absurd (ground arith)
      | inr (returned, k) ↦ absurd (ground arith)
    ]
    | inr (idle, g) ↦ absurd (ground arith)
    | inr (working _, g) ↦ absurd (ground arith)
    | inr (returned, g) ↦ absurd (ground arith)
  ]

  pub crash_panics :
      (i : ℕ) (p p' : P) → crash_step storage min_time_pulse i p ≡ some p' → p'.panicked ≡ true
  unfolding crash_step
  crash_panics i p p' e = elim (Option-cases (get_elem? p.workers i)) [
    | inl g ↦ absurd (ground arith)
    | inr (resending t, g) ↦ ground arith
    | inr (idle, g) ↦ absurd (ground arith)
    | inr (working _, g) ↦ absurd (ground arith)
    | inr (returned, g) ↦ absurd (ground arith)
  ]
