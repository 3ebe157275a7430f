-- ===== src/Extractor/Pulses/Answers.antt =====
-- What the answer of the platform to `retrievePulses` does to the counter of workers.
use block_explorer.Prelude.{
  ℕ, zero, ◌+◌, ◌-◌, ◌≤◌, ◌≡◌, refl, ap, ◌∙◌, subst, inl, inr, Bool, true, false, not, ◌&&◌, some,
  [], ◌∷◌, ◌++◌, arith, leb, if◌then◌else◌, ◌==◌, nat_eq, Bool-cases, Option-cases,
}
use block_explorer.Platform.{FullPulse}
use block_explorer.Extractor.{
  Messages, top, asking, Thread, retrieving, PlatformExtractor, free_unless, to_pulse_number,
}
use block_explorer.Extractor.Records.{Client, retrieve_records}
use block_explorer.Extractor.Pulses.{may_have_records, in_turn, hand_on, go_on, answered}
use block_explorer.Extractor.Pulses.Holding.{
  total, total-append, thread_counts, thread_holds, task_holds, for_worker, Waits, Frees,
  free_unless-Frees, retrieve_records-Frees,
}

module _ (texts : Messages) where
  -- A thread's step: what the counter gains, the thread and the new tasks count; and with what the
  -- `others` hold, the maximum is kept.
  pub record Balanced (t t' : Thread) (e e' : PlatformExtractor) : Type 0 where
    pub balance :
        e'.workers + thread_counts t + total task_holds e.tasks
        ≡ e.workers + thread_counts t' + total task_holds e'.tasks
    pub below :
        (others : ℕ)
        → others + thread_counts t + total task_holds e.tasks ≤ e.workers
        → others + thread_holds t + total task_holds e.tasks ≤ e.max_workers
        → others + thread_holds t' + total task_holds e'.tasks ≤ e'.max_workers
    pub threads : e'.threads ≡ e.threads
    pub waits : Waits t'

  pub if_same : (b : Bool) → (if b then zero else zero) ≡ zero
  if_same true = refl
  if_same false = refl

  go_on-Waits : (t : Thread) → Waits (go_on texts t)
  unfolding go_on
  go_on-Waits t w = elim (Bool-cases t.main_thread) [
    | inl m ↦ absurd (ground arith)
    | inr m ↦ elim (Bool-cases (leb (to_pulse_number t.until) t.pu.pulse_number)) [
      | inl b ↦ absurd (ground arith)
      | inr b ↦ absurd (ground arith)
    ]
  ]

  go_on-counts : (t : Thread) → thread_counts (go_on texts t) ≡ 0
  unfolding go_on
  go_on-counts t = ground arith

  go_on-holds : (t : Thread) → thread_holds (go_on texts t) ≡ 0
  unfolding go_on
  go_on-holds t = ground arith

  pub in_turn-Frees :
      (pu : FullPulse) (client : Client) (rounds : ℕ) (t t' : Thread) (e e' : PlatformExtractor)
      → in_turn texts pu client rounds t e ≡ some (t', e')
      → Frees t.main_thread e e'
  unfolding in_turn
  in_turn-Frees pu client rounds t t' e e' h =
      elim (Bool-cases (may_have_records t.next_not_empty_pulse_number pu.pulse_number)) [
        | inl b ↦
            elim (Option-cases (retrieve_records texts client rounds pu t.main_thread false e)) [
              | inl f ↦ absurd (ground arith)
              | inr ((e'', next), f) ↦
                  let same : e'' ≡ e' = ground arith in
                  retrieve_records-Frees texts client rounds pu t.main_thread false e e' next
                    (f ∙ ap (λ x. some (x, next)) same)
            ]
        | inr b ↦
            elim (Option-cases (retrieve_records texts client rounds pu t.main_thread true e)) [
              | inl f ↦ absurd (ground arith)
              | inr ((e'', next), f) ↦
                  let same : e'' ≡ e' = ground arith in
                  retrieve_records-Frees texts client rounds pu t.main_thread true e e' next
                    (f ∙ ap (λ x. some (x, next)) same)
            ]
      ]

  holds-asking :
      (pu : FullPulse) (t : Thread)
      → t.phase ≡ asking
      → (thread_holds t ≡ task_holds (retrieving pu t.main_thread))
        × (thread_counts t ≡ task_holds (retrieving pu t.main_thread))
  holds-asking pu t a = (rw a refl, rw a refl)

  hand_on-Balanced :
      (pu : FullPulse) (client : Client) (rounds : ℕ) (t t' : Thread) (e e' : PlatformExtractor)
      → t.phase ≡ asking
      → thread_counts t ≤ e.workers
      → hand_on texts pu client rounds t e ≡ some (t', e')
      → Balanced t (go_on texts t') e e'
  unfolding hand_on
  hand_on-Balanced pu client rounds t t' e e' a l h =
      let free = go_on-holds t' in
      let none_counted = go_on-counts t' in
      elim (Bool-cases (not t.main_thread && leb e.max_workers 3)) [
        | inl b ↦
            let f = in_turn-Frees pu client rounds t t' e e' (rw (b, hand_on) at h) in
            let range : t.main_thread ≡ false = ground arith in
            let own : thread_holds t ≡ 1 = rw range (rw a refl) in
            let counts : thread_counts t ≡ 1 = rw range (rw a refl) in
            let freed : e'.workers ≡ e.workers - 1 = rw range at f.workers in
            let kept = ap (total task_holds) f.tasks in
            let most = f.max_workers in
            record {
              balance = omega arith;
              below = λ others w b. omega arith;
              threads = f.threads;
              waits = go_on-Waits t';
            }
        | inr b ↦
            let (one, one_counted) = holds-asking pu t a in
            let more = total-append task_holds e.tasks (retrieving pu t.main_thread) in
            let given = rw (b, hand_on) at h in
            let tasks : e.tasks ++ retrieving pu t.main_thread ∷ [] ≡ e'.tasks = ground arith in
            let workers : e.workers ≡ e'.workers = ground arith in
            let most : e.max_workers ≡ e'.max_workers = ground arith in
            let counted = ap (total task_holds) tasks in
            record {
              balance = omega arith;
              below = λ others w b. omega arith;
              threads = ground arith;
              waits = go_on-Waits t';
            }
      ]

  -- A thread at the head of its loop again, its worker freed.
  pub freed-Balanced :
      (t t' : Thread) (e e' : PlatformExtractor)
      → t.phase ≡ asking
      → thread_counts t ≤ e.workers
      → t'.phase ≡ top
      → free_unless t.main_thread e ≡ e'
      → Balanced t t' e e'
  freed-Balanced t t' e e' a l b same =
      let f = subst (Frees t.main_thread e) same (free_unless-Frees t.main_thread e) in
      let none_held : thread_holds t' ≡ 0 = rw b (if_same t'.main_thread) in
      let none_counted : thread_counts t' ≡ 0 = rw b (if_same t'.main_thread) in
      let no_wait : for_worker t'.phase ≡ false = rw b refl in
      let kept = ap (total task_holds) f.tasks in
      let most = f.max_workers in
      elim (Bool-cases t.main_thread) [
        | inl m ↦
            let held : thread_holds t ≡ 0 = rw m refl in
            let counts : thread_counts t ≡ 0 = rw m refl in
            let freed : e'.workers ≡ e.workers = rw m at f.workers in
            record {
              balance = omega arith;
              below = λ others w b. omega arith;
              threads = f.threads;
              waits = λ w. absurd (ground arith);
            }
        | inr m ↦
            let held : thread_holds t ≡ 1 = rw m (rw a refl) in
            let counts : thread_counts t ≡ 1 = rw m (rw a refl) in
            let freed : e'.workers ≡ e.workers - 1 = rw m at f.workers in
            record {
              balance = omega arith;
              below = λ others w b. omega arith;
              threads = f.threads;
              waits = λ w. absurd (ground arith);
            }
      ]

  pub answered-Balanced :
      (pu : FullPulse) (client : Client) (rounds : ℕ) (t t' : Thread) (e e' : PlatformExtractor)
      → t.phase ≡ asking
      → thread_counts t ≤ e.workers
      → answered texts pu client rounds t e ≡ some (t', e')
      → Balanced t t' e e'
  unfolding answered
  answered-Balanced pu client rounds t t' e e' a l h =
      elim (Bool-cases (pu.pulse_number == t.pu.pulse_number)) [
        | inl b ↦ freed-Balanced t t' e e' a l (ground arith) (ground arith)
        | inr b ↦ elim (Option-cases (hand_on texts pu client rounds (record t { pu = pu }) e)) [
          | inl f ↦ absurd (ground arith)
          | inr ((t'', e''), f) ↦
              let same : e'' ≡ e' = ground arith in
              let ends : go_on texts t'' ≡ t' = ground arith in
              let at : hand_on texts pu client rounds (record t { pu = pu }) e ≡ some (t'', e') =
                f ∙ ap (λ x. some (t'', x)) same in
              let moved =
                hand_on-Balanced pu client rounds (record t { pu = pu }) t'' e e' a l at in
              subst (λ x. Balanced t x e e') ends
                (record {
                  balance = moved.balance;
                  below = moved.below;
                  threads = moved.threads;
                  waits = moved.waits;
                })
        ]
      ]
