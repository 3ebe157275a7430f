-- ===== src/Extractor/Pulses/Served.antt =====
-- Every pulse that the extractor sends has all its records, when the platform serves its ledger.
use mathlib.Core.Option.{some-injective}
use block_explorer.Prelude.{
  ℕ, ◌+◌, ◌≡◌, refl, sym, ap, subst, inl, inr, Bool, false, not, ◌&&◌, some, [], ◌∷◌, ℤ, Text,
  arith, get_elem?, set, ltb, leb, All, All-set, All-append, Bool-cases, Option-cases, if_elim,
  ◌==◌, nat_eq,
}
use block_explorer.Platform.{FullPulse}
use block_explorer.Extractor.{
  Messages, waiting, Thread, retrieving, done, PlatformExtractor, is_version_error, take_worker,
  take_back, new_thread, load_jet_drops, start, stop,
}
use block_explorer.Extractor.Records.{Client, retrieve_records}
use block_explorer.Extractor.Records.Whole.{Ledger, IsFaithful}
use block_explorer.Extractor.Pulses.{
  Both, Input, look, attempt, undo, next_pulse, no_pulse, Event, starts, stops, loads, proceeds,
  retrieves, hand_on, answered, not_answered, looked, attempted, thread_step, proceed_step,
  retrieve_step, step,
}
use block_explorer.Extractor.Pulses.Holding.{All-get, free_unless-Frees, retrieve_records-Frees}
use block_explorer.Extractor.Pulses.Answers.{in_turn-Frees}
use block_explorer.Extractor.Pulses.Balance.{only_top, only_waiting, only_overdrawn, only_asking}
use block_explorer.Extractor.Pulses.Sending.{Skips, Sent, Sends, free-Sent, retrieve-Sent}
use block_explorer.Extractor.Pulses.Serial.{IsSound, Serving, answered-Sends}

module _ (ledger : Ledger) (texts : Messages) where
  attempted-Sent :
      (t : Thread) (e : PlatformExtractor)
      → Sent ledger e
      → Skips ledger t
      → Sent ledger (attempted texts t e).1 × Skips ledger (attempted texts t e).0
  unfolding attempted take_worker
  attempted-Sent t e s k =
      (s, if_elim (Skips ledger) (not (ltb e.max_workers (e.workers + 1))) _ _ (λ b. k) (λ b. k))

  not_answered-Sent :
      (err : Text) (t : Thread) (e : PlatformExtractor)
      → Sent ledger e
      → Skips ledger t
      → Sent ledger (not_answered texts err t e).1 × Skips ledger (not_answered texts err t e).0
  unfolding not_answered
  not_answered-Sent err t e s k =
      if_elim (λ (x : Both). Sent ledger x.1 × Skips ledger x.0) (is_version_error texts err) _ _
        (λ b. (s, k)) (λ b. (free-Sent ledger t.main_thread e s, k))

  looked-Skips :
      (cancelled : Bool) (t : Thread) → Skips ledger t → Skips ledger (looked texts cancelled t)
  unfolding looked
  looked-Skips cancelled t k =
      if_elim (Skips ledger) cancelled _ _ (λ b. k)
        (λ b. if_elim (Skips ledger) t.main_thread _ _ (λ m. k) (λ m. k))

  thread_step-Sends :
      (input : Input) (t t' : Thread) (e e' : PlatformExtractor)
      → IsSound ledger texts t.pu.pulse_number input
      → Skips ledger t
      → thread_step texts input t e ≡ some (t', e')
      → Sent ledger e
      → Sent ledger e' × Skips ledger t'
  unfolding thread_step take_back
  thread_step-Sends (look cancelled) t t' e e' i k h s =
      let (a, same) = only_top t.phase (some (looked texts cancelled t, e)) (t', e') h in
      subst (λ (x : Both). Sent ledger x.1 × Skips ledger x.0) (some-injective _ _ same)
        (s, looked-Skips cancelled t k)
  thread_step-Sends attempt t t' e e' i k h s =
      let (a, same) = only_waiting t.phase (some (attempted texts t e)) (t', e') h in
      subst (λ (x : Both). Sent ledger x.1 × Skips ledger x.0) (some-injective _ _ same)
        (attempted-Sent t e s k)
  thread_step-Sends undo t t' e e' i k h s =
      let (a, same) =
        only_overdrawn t.phase (some (record t { phase = waiting }, take_back e)) (t', e') h in
      subst (λ (x : Both). Sent ledger x.1 × Skips ledger x.0) (some-injective _ _ same) (s, k)
  thread_step-Sends (next_pulse pu client rounds) t t' e e' (later, f) k h s =
      let (a, same) = only_asking t.phase (answered texts pu client rounds t e) (t', e') h in
      answered-Sends ledger texts pu client rounds t t' e e' f later k same s
  thread_step-Sends (no_pulse err) t t' e e' i k h s =
      let (a, same) = only_asking t.phase (some (not_answered texts err t e)) (t', e') h in
      subst (λ (x : Both). Sent ledger x.1 × Skips ledger x.0) (some-injective _ _ same)
        (not_answered-Sent err t e s k)

  hand_on_threads :
      (pu : FullPulse) (client : Client) (rounds : ℕ) (t t' : Thread) (e e' : PlatformExtractor)
      → hand_on texts pu client rounds t e ≡ some (t', e')
      → e'.threads ≡ e.threads
  unfolding hand_on
  hand_on_threads pu client rounds t t' e e' h =
      elim (Bool-cases (not t.main_thread && leb e.max_workers 3)) [
        | inl b ↦
            let f = in_turn-Frees texts pu client rounds t t' e e' (rw (b, hand_on) at h) in
            f.threads
        | inr b ↦
            let same = some-injective _ _ (rw (b, hand_on) at h) in
            sym (ap (λ (x : Both). x.1.threads) same)
      ]

  threads_kept :
      (input : Input) (t t' : Thread) (e e' : PlatformExtractor)
      → thread_step texts input t e ≡ some (t', e')
      → e'.threads ≡ e.threads
  unfolding thread_step attempted take_worker take_back not_answered answered
  threads_kept (look cancelled) t t' e e' h =
      let (a, same) = only_top t.phase (some (looked texts cancelled t, e)) (t', e') h in
      sym (ap (λ (x : Both). x.1.threads) (some-injective _ _ same))
  threads_kept attempt t t' e e' h =
      let (a, same) = only_waiting t.phase (some (attempted texts t e)) (t', e') h in
      sym (ap (λ (x : Both). x.1.threads) (some-injective _ _ same))
  threads_kept undo t t' e e' h =
      let (a, same) =
        only_overdrawn t.phase (some (record t { phase = waiting }, take_back e)) (t', e') h in
      sym (ap (λ (x : Both). x.1.threads) (some-injective _ _ same))
  threads_kept (no_pulse err) t t' e e' h =
      let (a, same) = only_asking t.phase (some (not_answered texts err t e)) (t', e') h in
      let freed = free_unless-Frees t.main_thread e in
      subst (λ (x : Both). x.1.threads ≡ e.threads) (some-injective _ _ same)
        (if_elim (λ (x : Both). x.1.threads ≡ e.threads) (is_version_error texts err) _ _
          (λ b. refl) (λ b. freed.threads))
  threads_kept (next_pulse pu client rounds) t t' e e' h =
      let (a, same) = only_asking t.phase (answered texts pu client rounds t e) (t', e') h in
      let freed = free_unless-Frees t.main_thread e in
      elim (Bool-cases (pu.pulse_number == t.pu.pulse_number)) [
        | inl b ↦
            let at = some-injective _ _ (rw (b, answered) at same) in
            subst (λ (x : Both). x.1.threads ≡ e.threads) at freed.threads
        | inr b ↦ elim (Option-cases (hand_on texts pu client rounds (record t { pu = pu }) e)) [
          | inl g ↦ absurd (ground arith)
          | inr ((t'', e''), g) ↦
              let kept = hand_on_threads pu client rounds (record t { pu = pu }) t'' e e'' g in
              let same_e : e'' ≡ e' = ground arith in
              subst (λ (x : PlatformExtractor). x.threads ≡ e.threads) same_e kept
        ]
      ]

  proceed-Sends :
      (i : ℕ) (input : Input) (e e' : PlatformExtractor)
      → ((t : Thread)
          → get_elem? e.threads i ≡ some t
          → IsSound ledger texts t.pu.pulse_number input)
      → proceed_step texts i input e ≡ some e'
      → Sends ledger e
      → Sends ledger e'
  unfolding proceed_step
  proceed-Sends i input e e' sound h s = elim (Option-cases (get_elem? e.threads i)) [
    | inl f ↦ absurd (ground arith)
    | inr (t, f) ↦ elim (Option-cases (thread_step texts input t e)) [
      | inl g ↦ absurd (ground arith)
      | inr ((t', e''), g) ↦
          let (sent, skips) =
            thread_step-Sends input t t' e e'' (sound t f)
              (All-get (Skips ledger) e.threads i t s.skips f) g s.sent in
          let same : record e'' { threads = set e''.threads i t' } ≡ e' = ground arith in
          subst (Sends ledger) same (record {
            sent = sent;
            skips =
                subst (λ ts. All (Skips ledger) (set ts i t'))
                  (sym (threads_kept input t t' e e'' g))
                  (All-set (Skips ledger) e.threads i t' s.skips skips);
          })
    ]
  ]

  retrieve-Sends :
      (i : ℕ) (client : Client) (rounds : ℕ) (e e' : PlatformExtractor)
      → IsFaithful ledger client
      → retrieve_step texts i client rounds e ≡ some e'
      → Sends ledger e
      → Sends ledger e'
  unfolding retrieve_step
  retrieve-Sends i client rounds e e' faithful h s = elim (Option-cases (get_elem? e.tasks i)) [
    | inl f ↦ absurd (ground arith)
    | inr (done, f) ↦ absurd (ground arith)
    | inr (retrieving pu main_thread, f) ↦
        elim (Option-cases (retrieve_records texts client rounds pu main_thread false e)) [
          | inl g ↦ absurd (ground arith)
          | inr ((e'', next), g) ↦
              let (sent, between) =
                retrieve-Sent ledger texts client faithful rounds pu main_thread e e'' next g
                  s.sent in
              let kept =
                retrieve_records-Frees texts client rounds pu main_thread false e e'' next g in
              let same : record e'' { tasks = set e''.tasks i done } ≡ e' = ground arith in
              subst (Sends ledger) same (record {
                sent = sent;
                skips = subst (All (Skips ledger)) (sym kept.threads) s.skips;
              })
        ]
  ]

  new_thread-Skips : (from until : ℤ) → Skips ledger (new_thread from until)
  unfolding new_thread
  new_thread-Skips from until n is = absurd (ground arith)

  load-Sends :
      (from until : ℤ) (e : PlatformExtractor)
      → Sends ledger e
      → Sends ledger (load_jet_drops from until e)
  unfolding load_jet_drops
  load-Sends from until e s = record {
    sent = s.sent;
    skips =
        All-append (Skips ledger) e.threads (new_thread from until ∷ []) s.skips
          (new_thread-Skips from until, tt);
  }

  -- When the platform serves its ledger, names no pulse before the one that it is asked for the next
  -- one of, and says where the next pulse with records is, all that the extractor sends to its channel
  -- is a pulse with all of its records in their order: over several streams, and also the pulses
  -- that a thread passes over without asking for their records.
  pub step-Sends :
      (event : Event) (e e' : PlatformExtractor)
      → Serving ledger texts e event
      → step texts event e ≡ some e'
      → Sends ledger e
      → Sends ledger e'
  unfolding step start stop load_jet_drops
  step-Sends starts e e' v h s =
      let more = load-Sends (ℤ.pos 0) (ℤ.pos 0) e s in
      subst (Sends ledger) (some-injective _ _ h) (
        if_elim (Sends ledger) e.has_started _ _ (λ b. s)
          (λ b. record { sent = more.sent; skips = more.skips }))
  step-Sends stops e e' v h s = subst (Sends ledger) (some-injective _ _ h) (
      if_elim (Sends ledger) e.has_started _ _ (λ b. record { sent = s.sent; skips = s.skips })
        (λ b. s))
  step-Sends (loads from until) e e' v h s =
      subst (Sends ledger) (some-injective _ _ h) (load-Sends from until e s)
  step-Sends (proceeds i input) e e' v h s = proceed-Sends i input e e' v h s
  step-Sends (retrieves i client rounds) e e' v h s = retrieve-Sends i client rounds e e' v h s
