-- ===== src/Extractor/Pulses/Counting.antt =====
-- The workers of the extractor are counted right by all its goroutines together.
use mathlib.Core.Option.{some-injective}
use block_explorer.Prelude.{
  ℕ, ◌-◌, ◌≡◌, sym, ap, subst, inl, inr, false, some, [], ◌∷◌, ℤ, arith, get_elem?, set, All,
  All-set, All-append, Option-cases, if_elim,
}
use block_explorer.Extractor.{
  Messages, retrieving, done, PlatformExtractor, new_thread, load_jet_drops, start, stop,
}
use block_explorer.Extractor.Records.{Client, retrieve_records}
use block_explorer.Extractor.Pulses.{
  Input, Event, starts, stops, loads, proceeds, retrieves, thread_step, proceed_step, retrieve_step,
  step,
}
use block_explorer.Extractor.Pulses.Holding.{
  total, total-append, total-set, total-get, thread_counts, thread_holds, rest_holds-le, task_holds,
  Waits, All-get, IsCounted, retrieve_records-Frees,
}
use block_explorer.Extractor.Pulses.Balance.{thread_step-Balanced}

new_thread-holds : (from until : ℤ) → thread_holds (new_thread from until) ≡ 0
unfolding new_thread
new_thread-holds from until = ground arith

new_thread-counts : (from until : ℤ) → thread_counts (new_thread from until) ≡ 0
unfolding new_thread
new_thread-counts from until = ground arith

new_thread-Waits : (from until : ℤ) → Waits (new_thread from until)
unfolding new_thread
new_thread-Waits from until w = absurd (ground arith)

load-IsCounted :
    (from until : ℤ) (e : PlatformExtractor) → IsCounted e → IsCounted (load_jet_drops from until e)
unfolding load_jet_drops
load-IsCounted from until e c =
    let more = total-append thread_holds e.threads (new_thread from until) in
    let free = new_thread-holds from until in
    let more_counted = total-append thread_counts e.threads (new_thread from until) in
    let none_counted = new_thread-counts from until in
    let bounded = c.bounded in
    let exact = c.exact in
    record {
      exact = omega arith;
      bounded = omega arith;
      waits =
          All-append Waits e.threads (new_thread from until ∷ []) c.waits
            (new_thread-Waits from until, tt);
    }

start-IsCounted : (e : PlatformExtractor) → IsCounted e → IsCounted (start e)
unfolding start load_jet_drops
start-IsCounted e c =
    let more = load-IsCounted (ℤ.pos 0) (ℤ.pos 0) e c in
    if_elim IsCounted e.has_started _ _ (λ b. c)
      (λ b. record { exact = more.exact; bounded = more.bounded; waits = more.waits })

stop-IsCounted : (e : PlatformExtractor) → IsCounted e → IsCounted (stop e)
unfolding stop
stop-IsCounted e c =
    if_elim IsCounted e.has_started _ _
      (λ b. record { exact = c.exact; bounded = c.bounded; waits = c.waits }) (λ b. c)

module _ (texts : Messages) where
  proceed-IsCounted :
      (i : ℕ) (input : Input) (e e' : PlatformExtractor)
      → proceed_step texts i input e ≡ some e'
      → IsCounted e
      → IsCounted e'
  unfolding proceed_step
  proceed-IsCounted i input e e' h c = elim (Option-cases (get_elem? e.threads i)) [
    | inl f ↦ absurd (ground arith)
    | inr (t, f) ↦ elim (Option-cases (thread_step texts input t e)) [
      | inl g ↦ absurd (ground arith)
      | inr ((t', e''), g) ↦
          let exact = c.exact in
          let bounded = c.bounded in
          let here = total-get thread_counts e.threads i t f in
          let held = total-get thread_holds e.threads i t f in
          let rest = rest_holds-le e.threads i t f in
          let b =
            thread_step-Balanced texts input t t' e e'' (All-get Waits e.threads i t c.waits f)
              (omega arith) g in
          let balance = b.balance in
          let moved = total-set thread_counts e.threads i t t' f in
          let works = total-set thread_holds e.threads i t t' f in
          let below =
            b.below (total thread_holds e.threads - thread_holds t) (omega arith) (omega arith) in
          let threads = b.threads in
          let same : record e'' { threads = set e''.threads i t' } ≡ e' = ground arith in
          let kept = ap (λ ts. total thread_counts (set ts i t')) threads in
          let works_kept = ap (λ ts. total thread_holds (set ts i t')) threads in
          subst IsCounted same (record {
            exact = omega arith;
            bounded = omega arith;
            waits =
                subst (λ ts. All Waits (set ts i t')) (sym threads)
                  (All-set Waits e.threads i t' c.waits b.waits);
          })
    ]
  ]

  retrieve-IsCounted :
      (i : ℕ) (client : Client) (rounds : ℕ) (e e' : PlatformExtractor)
      → retrieve_step texts i client rounds e ≡ some e'
      → IsCounted e
      → IsCounted e'
  unfolding retrieve_step
  retrieve-IsCounted i client rounds e e' h c = elim (Option-cases (get_elem? e.tasks i)) [
    | inl f ↦ absurd (ground arith)
    | inr (done, f) ↦ absurd (ground arith)
    | inr (retrieving pu main_thread, f) ↦
        elim (Option-cases (retrieve_records texts client rounds pu main_thread false e)) [
          | inl g ↦ absurd (ground arith)
          | inr ((e'', next), g) ↦
              let exact = c.exact in
              let here = total-get task_holds e.tasks i (retrieving pu main_thread) f in
              let b =
                retrieve_records-Frees texts client rounds pu main_thread false e e'' next g in
              let freed = b.workers in
              let most = b.max_workers in
              let bounded = c.bounded in
              let moved = total-set task_holds e.tasks i (retrieving pu main_thread) done f in
              let same : record e'' { tasks = set e''.tasks i done } ≡ e' = ground arith in
              let kept = ap (λ ts. total task_holds (set ts i done)) b.tasks in
              let others = ap (total thread_counts) b.threads in
              let working = ap (total thread_holds) b.threads in
              subst IsCounted same (record {
                exact = ground arith;
                bounded = ground arith;
                waits = subst (All Waits) (sym b.threads) c.waits;
              })
        ]
  ]

  -- Whatever the goroutines of the extractor do, the counter of workers stays the number of those
  -- that hold one, which are the range threads that ask for a pulse or have met a version error and
  -- the retrievals for ranges that have not ended, and of the range threads that have counted
  -- themselves beyond the maximum and not yet taken that back; those that hold a worker stay within
  -- the maximum.
  pub step-IsCounted :
      (event : Event) (e e' : PlatformExtractor)
      → step texts event e ≡ some e'
      → IsCounted e
      → IsCounted e'
  unfolding step
  step-IsCounted starts e e' h c = subst IsCounted (some-injective _ _ h) (start-IsCounted e c)
  step-IsCounted stops e e' h c = subst IsCounted (some-injective _ _ h) (stop-IsCounted e c)
  step-IsCounted (loads from until) e e' h c =
      subst IsCounted (some-injective _ _ h) (load-IsCounted from until e c)
  step-IsCounted (proceeds i input) e e' h c = proceed-IsCounted i input e e' h c
  step-IsCounted (retrieves i client rounds) e e' h c = retrieve-IsCounted i client rounds e e' h c
