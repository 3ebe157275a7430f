-- ===== src/Extractor/Pulses/Balance.antt =====
-- What a step of `retrievePulses` does to the counter of workers.
use mathlib.Core.Option.{some-injective}
use block_explorer.Prelude.{
  ◌+◌, ◌≤◌, ◌≡◌, refl, subst, inl, inr, Bool, true, false, Option, none, some, arith, ltb, nat_eq,
  Bool-cases, if_elim, Text,
}
use block_explorer.Extractor.{
  Messages, Phase, top, waiting, overdrawn, asking, returned, broken, Thread, PlatformExtractor,
  is_version_error, take_worker, take_back,
}
use block_explorer.Extractor.Pulses.{
  Both, Input, look, attempt, undo, next_pulse, no_pulse, answered, not_answered, looked, attempted,
  thread_step,
}
use block_explorer.Extractor.Pulses.Holding.{thread_counts, thread_holds, Waits}
use block_explorer.Extractor.Pulses.Answers.{Balanced, freed-Balanced, answered-Balanced, if_same}

pub only_top :
    (p : Phase) (x : Option Both) (y : Both)
    → (elim p [ top ↦ x | _ ↦ none ]) ≡ some y
    → (p ≡ top) × (x ≡ some y)
only_top top x y h = (refl, h)
only_top waiting x y h = cc
only_top asking x y h = cc
only_top overdrawn x y h = cc
only_top returned x y h = cc
only_top broken x y h = cc

pub only_waiting :
    (p : Phase) (x : Option Both) (y : Both)
    → (elim p [ waiting ↦ x | _ ↦ none ]) ≡ some y
    → (p ≡ waiting) × (x ≡ some y)
only_waiting top x y h = cc
only_waiting waiting x y h = (refl, h)
only_waiting asking x y h = cc
only_waiting overdrawn x y h = cc
only_waiting returned x y h = cc
only_waiting broken x y h = cc

pub only_overdrawn :
    (p : Phase) (x : Option Both) (y : Both)
    → (elim p [ overdrawn ↦ x | _ ↦ none ]) ≡ some y
    → (p ≡ overdrawn) × (x ≡ some y)
only_overdrawn top x y h = cc
only_overdrawn waiting x y h = cc
only_overdrawn overdrawn x y h = (refl, h)
only_overdrawn asking x y h = cc
only_overdrawn returned x y h = cc
only_overdrawn broken x y h = cc

pub only_asking :
    (p : Phase) (x : Option Both) (y : Both)
    → (elim p [ asking ↦ x | _ ↦ none ]) ≡ some y
    → (p ≡ asking) × (x ≡ some y)
only_asking top x y h = cc
only_asking waiting x y h = cc
only_asking asking x y h = (refl, h)
only_asking overdrawn x y h = cc
only_asking returned x y h = cc
only_asking broken x y h = cc

module _ (texts : Messages) where
  not_answered-Balanced :
      (err : Text) (t : Thread) (e : PlatformExtractor)
      → t.phase ≡ asking
      → thread_counts t ≤ e.workers
      → Balanced texts t (not_answered texts err t e).0 e (not_answered texts err t e).1
  unfolding not_answered
  not_answered-Balanced err t e a l = elim (Bool-cases (is_version_error texts err)) [
    | inl v ↦ rw v (
        let same : thread_holds t ≡ thread_holds (record t { phase = broken }) = rw a refl in
        let counts : thread_counts t ≡ thread_counts (record t { phase = broken }) = rw a refl in
        record {
          balance = omega arith;
          below = λ others w b. omega arith;
          threads = refl;
          waits = λ w. absurd (ground arith);
        })
    | inr v ↦ rw v (freed-Balanced texts t (record t { phase = top }) e _ a l refl refl)
  ]

  attempted-Balanced :
      (t : Thread) (e : PlatformExtractor)
      → t.phase ≡ waiting
      → t.main_thread ≡ false
      → Balanced texts t (attempted texts t e).0 e (attempted texts t e).1
  unfolding attempted take_worker
  attempted-Balanced t e a m =
      let held : thread_holds t ≡ 0 = rw a (rw m refl) in
      let counts : thread_counts t ≡ 0 = rw a (rw m refl) in
      elim (Bool-cases (ltb e.max_workers (e.workers + 1))) [
        | inl b ↦
            let holds' : thread_holds (record t { phase = overdrawn }) ≡ 0 = rw m refl in
            let counts' : thread_counts (record t { phase = overdrawn }) ≡ 1 = rw m refl in
            rw b (record {
              balance = omega arith;
              below = λ others w k. omega arith;
              threads = refl;
              waits = λ w. m;
            })
        | inr b ↦
            let room : e.workers + 1 ≤ e.max_workers = ground arith in
            let holds' : thread_holds (record t { phase = asking }) ≡ 1 = rw m refl in
            let counts' : thread_counts (record t { phase = asking }) ≡ 1 = rw m refl in
            rw b (record {
              balance = omega arith;
              below = λ others w k. omega arith;
              threads = refl;
              waits = λ w. m;
            })
      ]

  undone-Balanced :
      (t : Thread) (e : PlatformExtractor)
      → t.phase ≡ overdrawn
      → t.main_thread ≡ false
      → thread_counts t ≤ e.workers
      → Balanced texts t (record t { phase = waiting }) e (take_back e)
  unfolding take_back
  undone-Balanced t e a m l =
      let held : thread_holds t ≡ 0 = rw a (rw m refl) in
      let counts : thread_counts t ≡ 1 = rw a (rw m refl) in
      let holds' : thread_holds (record t { phase = waiting }) ≡ 0 = rw m refl in
      let counts' : thread_counts (record t { phase = waiting }) ≡ 0 = rw m refl in
      record {
        balance = omega arith;
        below = λ others w k. omega arith;
        threads = refl;
        waits = λ w. m;
      }

  looked-Balanced :
      (cancelled : Bool) (t : Thread) (e : PlatformExtractor)
      → t.phase ≡ top
      → Balanced texts t (looked texts cancelled t) e e
  unfolding looked
  looked-Balanced true t e a =
      let held : thread_holds t ≡ 0 = rw a (if_same texts t.main_thread) in
      let counts : thread_counts t ≡ 0 = rw a (if_same texts t.main_thread) in
      let holds : thread_holds (record t { phase = returned }) ≡ 0 = if_same texts t.main_thread in
      let counts' : thread_counts (record t { phase = returned }) ≡ 0 =
        if_same texts t.main_thread in
      record {
        balance = omega arith;
        below = λ others w b. omega arith;
        threads = refl;
        waits = λ w. absurd (ground arith);
      }
  looked-Balanced false t e a =
      if_elim (λ u. Balanced texts t u e e) t.main_thread (record t { phase = asking })
        (record t { phase = waiting })
        (λ m.
          let held : thread_holds t ≡ 0 = rw m refl in
          let counts : thread_counts t ≡ 0 = rw m refl in
          let holds : thread_holds (record t { phase = asking }) ≡ 0 = rw m refl in
          let counts' : thread_counts (record t { phase = asking }) ≡ 0 = rw m refl in
          record {
            balance = omega arith;
            below = λ others w b. omega arith;
            threads = refl;
            waits = λ w. absurd (ground arith);
          })
        (λ m.
          let held : thread_holds t ≡ 0 = rw a (if_same texts t.main_thread) in
          let counts : thread_counts t ≡ 0 = rw a (if_same texts t.main_thread) in
          let holds : thread_holds (record t { phase = waiting }) ≡ 0 =
            if_same texts t.main_thread in
          let counts' : thread_counts (record t { phase = waiting }) ≡ 0 =
            if_same texts t.main_thread in
          record {
            balance = omega arith;
            below = λ others w b. omega arith;
            threads = refl;
            waits = λ w. m;
          })

  pub thread_step-Balanced :
      (input : Input) (t t' : Thread) (e e' : PlatformExtractor)
      → Waits t
      → thread_counts t ≤ e.workers
      → thread_step texts input t e ≡ some (t', e')
      → Balanced texts t t' e e'
  unfolding thread_step
  thread_step-Balanced (look cancelled) t t' e e' w l h =
      let (a, same) = only_top t.phase (some (looked texts cancelled t, e)) (t', e') h in
      subst (λ (x : Both). Balanced texts t x.0 e x.1) (some-injective _ _ same)
        (looked-Balanced cancelled t e a)
  thread_step-Balanced attempt t t' e e' w l h =
      let (a, same) = only_waiting t.phase (some (attempted texts t e)) (t', e') h in
      subst (λ (x : Both). Balanced texts t x.0 e x.1) (some-injective _ _ same)
        (attempted-Balanced t e a (w (rw a refl)))
  thread_step-Balanced undo t t' e e' w l h =
      let (a, same) =
        only_overdrawn t.phase (some (record t { phase = waiting }, take_back e)) (t', e') h in
      subst (λ (x : Both). Balanced texts t x.0 e x.1) (some-injective _ _ same)
        (undone-Balanced t e a (w (rw a refl)) l)
  thread_step-Balanced (next_pulse pu client rounds) t t' e e' w l h =
      let (a, same) = only_asking t.phase (answered texts pu client rounds t e) (t', e') h in
      answered-Balanced texts pu client rounds t t' e e' a l same
  thread_step-Balanced (no_pulse err) t t' e e' w l h =
      let (a, same) = only_asking t.phase (some (not_answered texts err t e)) (t', e') h in
      subst (λ (x : Both). Balanced texts t x.0 e x.1) (some-injective _ _ same)
        (not_answered-Balanced err t e a l)
