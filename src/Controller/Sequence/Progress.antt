-- ===== src/Controller/Sequence/Progress.antt =====
-- The sequential pulse does not stop before a complete pulse.
use block_explorer.Prelude.{
  ℕ, suc, ◌+◌, ◌<◌, ◌≡◌, refl, sym, ap, ◌∙◌, true, none, List, [], ◌∷◌, arith, All, length, ℤ,
  subst, if_elim,
}
use block_explorer.Models.{Pulse}
use block_explorer.Interfaces.{Storage, DbError, is_failure}
use block_explorer.Prelude.{Option, some, Bool}
use block_explorer.Controller.Sequence.{
  S, sequenced, after_next, pulse_sequence_round, pulse_sequence,
}

-- The storage leads along the numbers of a chain of pulses as long as it is as it should be: behind a
-- pulse of each number it finds the one of the next number, complete, whatever else the row holds, and
-- marking that one gives no error and leaves the storage as it should be.
pub record Leads (storage : Storage) (IsFine : storage.State → Type 0) (chain : ℕ → ℤ) (k : ℕ)
    : Type 0 where
  pub next :
      (i : ℕ) (p : Pulse) (db : storage.State)
      → i < k
      → IsFine db
      → p.pulse_number ≡ chain i
      → let answer = storage.get_pulse_by_prev p db in
        (answer.1 ≡ none) × (answer.0.pulse_number ≡ chain (suc i)) × (answer.0.is_complete ≡ true)
  pub marked :
      (i : ℕ) (db : storage.State)
      → i < k
      → IsFine db
      → (storage.sequence_pulse (chain (suc i)) db).0 ≡ none
  pub still_fine :
      (i : ℕ) (db : storage.State)
      → i < k
      → IsFine db
      → IsFine (storage.sequence_pulse (chain (suc i)) db).1

module _ (storage : Storage) (min_time_pulse : ℕ) where
  -- The pulse is the sequential one, and the database is what marking it has left.
  abbrev Reached : Pulse → storage.State → S storage min_time_pulse → Type 0
  Reached q db w = (w.controller.sequential_pulse ≡ q) × (w.db ≡ db)

  sequenced-Reached :
      (q : Pulse) (answer : Option DbError × storage.State) (w : S storage min_time_pulse)
      → answer.0 ≡ none
      → Reached q answer.1 (sequenced storage min_time_pulse q answer w).0
  unfolding sequenced
  sequenced-Reached q (none, db) w e = (refl, refl)
  sequenced-Reached q (some x, db) w e = absurd (ground arith)

  round-Reached :
      (now : ℕ) (w : S storage min_time_pulse) (q : Pulse)
      → storage.get_pulse_by_prev w.controller.sequential_pulse w.db ≡ (q, none)
      → q.is_complete ≡ true
      → (storage.sequence_pulse q.pulse_number w.db).0 ≡ none
      → Reached q
          (storage.sequence_pulse q.pulse_number w.db).1
          (pulse_sequence_round storage min_time_pulse now w).0
  unfolding pulse_sequence_round after_next is_failure
  round-Reached now w q found complete marked =
      subst
        (λ (answer : Pulse × Option DbError).
          Reached q (storage.sequence_pulse q.pulse_number w.db).1
            (after_next storage min_time_pulse now answer w).0)
        (sym found)
        (if_elim
          (λ (o : S storage min_time_pulse × Bool).
            Reached q (storage.sequence_pulse q.pulse_number w.db).1 o.0)
          q.is_complete _ _
          (λ b. sequenced-Reached q (storage.sequence_pulse q.pulse_number w.db) w marked)
          (λ b. absurd (ground arith)))

  -- Where the storage finds behind a pulse of each number of a chain a complete one of the next number,
  -- and marks it without an error, each round moves the sequential pulse one number along the chain,
  -- whatever others do to the database between the rounds as long as this stays so: after as many
  -- rounds as there are numbers left, the sequential pulse has the last one.
  pub pulse_sequence_advances :
      (IsFine : storage.State → Type 0) (chain : ℕ → ℤ) (k : ℕ)
      → Leads storage IsFine chain k
      → (rounds : List (ℕ × (storage.State → storage.State))) (i : ℕ) (w : S storage min_time_pulse)
      → All
          (λ (r : ℕ × (storage.State → storage.State)).
            (db : storage.State) → IsFine db → IsFine (r.1 db))
          rounds
      → i + length rounds ≡ k
      → w.controller.sequential_pulse.pulse_number ≡ chain i
      → IsFine w.db
      → (pulse_sequence storage min_time_pulse rounds w).controller.sequential_pulse.pulse_number
        ≡ chain k
  unfolding pulse_sequence
  pulse_sequence_advances IsFine chain k leads [] i w kind enough at_i fine =
      at_i ∙ ap chain (let same : i ≡ k = omega arith in same)
  pulse_sequence_advances IsFine chain k leads ((now, others) ∷ rounds) i w kind enough at_i fine =
      let before : i < k = omega arith in
      let db = others w.db in
      let fine' = kind.0 w.db fine in
      let q = (storage.get_pulse_by_prev w.controller.sequential_pulse db).0 in
      let (no_error, number, complete) =
        leads.next i w.controller.sequential_pulse db before fine' at_i in
      let found : storage.get_pulse_by_prev w.controller.sequential_pulse db ≡ (q, none) =
        ap (λ e. (q, e)) no_error in
      let marked : (storage.sequence_pulse q.pulse_number db).0 ≡ none =
        subst (λ n. (storage.sequence_pulse n db).0 ≡ none) (sym number)
          (leads.marked i db before fine') in
      let still : IsFine (storage.sequence_pulse q.pulse_number db).1 =
        subst (λ n. IsFine (storage.sequence_pulse n db).1) (sym number)
          (leads.still_fine i db before fine') in
      let (reached, left) = round-Reached now (record w { db = db }) q found complete marked in
      pulse_sequence_advances IsFine chain k leads rounds (suc i)
        (pulse_sequence_round storage min_time_pulse now (record w { db = db })).0 kind.1
        (omega arith) (ap (λ (p : Pulse). p.pulse_number) reached ∙ number)
        (subst IsFine (sym left) still)
