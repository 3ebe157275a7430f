-- ===== src/Controller/Sequence/Chain.antt =====
-- The sequential pulse moves along the chain of pulses, one link at a time.
use mathlib.Core.List.{append-nil}
use block_explorer.Prelude.{
  All, In, In-append_left, In-append_right, ℕ, ◌≡◌, refl, sym, ap, ◌∙◌, ◌⊎◌, inl, inr, Bool, true,
  false, Option, none, some, List, [], ◌∷◌, ◌++◌, arith, ℤ, Bool-cases, if_true, if_false, ◌==◌,
  nat_eq, subst,
}
use block_explorer.Models.{Pulse, empty_pulse, pulse_beq}
use block_explorer.Interfaces.{Storage, PrevLaws, DbError, record_not_found, failed, is_failure}
use block_explorer.Controller.Register.{Call, sequences, loads, reload_data, start_of}
use block_explorer.Controller.Register.Erasing.{reload_data-db, reload_data-sequential}
use block_explorer.Controller.Register.Calls.{reload_data-calls}
use block_explorer.Controller.Sequence.{
  S, sequenced, fill_gap, after_next, pulse_sequence_round, pulse_sequence,
}

-- The pulse behind another one, complete and so ready to be its successor.
abbrev pub IsNext : Pulse → Pulse → Type 0
IsNext p q = (q.prev_pulse_number ≡ p.pulse_number) × (q.is_complete ≡ true)

-- A chain of such pulses, with the numbers that it sequences.
pub data Linked (p : Pulse) : Pulse → List ℤ → Type 0 where
  here : Linked p p []
  link :
      {q r : Pulse} {numbers : List ℤ}
      → Linked p q numbers
      → IsNext q r
      → Linked p r (numbers ++ r.pulse_number ∷ [])

-- What the loop relies on of `SequencePulse`: a pulse that is marked without an error has its mark, and
-- no mark is taken away.
pub record MarkLaws (storage : Storage) (IsMarked : ℤ → storage.State → Type 0) : Type 0 where
  pub marked :
      (n : ℤ) (db : storage.State)
      → (storage.sequence_pulse n db).0 ≡ none
      → IsMarked n (storage.sequence_pulse n db).1
  pub kept :
      (n m : ℤ) (db : storage.State) → IsMarked m db → IsMarked m (storage.sequence_pulse n db).1

module _ (storage : Storage) (min_time_pulse : ℕ) (laws : PrevLaws storage)
    (IsMarked : ℤ → storage.State → Type 0) (marks : MarkLaws storage IsMarked) where
  abbrev P : S storage min_time_pulse → Pulse
  P w = w.controller.sequential_pulse

  abbrev KeepsMarks : storage.State → storage.State → Type 0
  KeepsMarks db db' = (m : ℤ) → IsMarked m db → IsMarked m db'

  -- What a round does to the sequential pulse, to the calls and to the marks.
  abbrev Moves : S storage min_time_pulse → S storage min_time_pulse → Type 0
  Moves w out =
      ((P out ≡ P w)
        ⊎ (IsNext (P w) (P out)
            × In (sequences (P out).pulse_number) out.calls
            × IsMarked (P out).pulse_number out.db))
      × ((more : List Call) × (out.calls ≡ w.calls ++ more))
      × KeepsMarks w.db out.db

  stays : (w : S storage min_time_pulse) → Moves w w
  stays w = (inl refl, ([], sym (append-nil w.calls)), λ m h. h)

  reload_data-Moves :
      (now : ℕ) (f t : ℤ) (w : S storage min_time_pulse)
      → Moves w (reload_data storage min_time_pulse now f t w)
  reload_data-Moves now f t w =
      let same = reload_data-sequential storage min_time_pulse now f t w in
      let db : KeepsMarks w.db (reload_data storage min_time_pulse now f t w).db =
        λ m h. subst (IsMarked m) (sym (reload_data-db storage min_time_pulse now f t w)) h in
      elim (reload_data-calls storage min_time_pulse now f t w) [
        | inl e ↦ (inl same, ([], e ∙ sym (append-nil w.calls)), db)
        | inr e ↦ (inl same, (loads (start_of min_time_pulse f) t ∷ [], e), db)
      ]

  fill_gap-Moves :
      (now : ℕ) (q : Pulse) (err : Option DbError) (w : S storage min_time_pulse)
      → Moves w (fill_gap storage min_time_pulse now (q, err) w).0
  unfolding fill_gap
  fill_gap-Moves now q err w = elim (Bool-cases (is_failure err)) [
    | inl e ↦ rw e (stays w)
    | inr e ↦ elim (Bool-cases (pulse_beq q empty_pulse)) [
      | inl f ↦ rw e (rw f (stays w))
      | inr f ↦ rw e (rw f (reload_data-Moves now _ _ w))
    ]
  ]

  sequenced-Moves :
      (q : Pulse) (answer : Option DbError × storage.State) (w : S storage min_time_pulse)
      → IsNext (P w) q
      → (answer.0 ≡ none → IsMarked q.pulse_number answer.1)
      → KeepsMarks w.db answer.1
      → Moves w (sequenced storage min_time_pulse q answer w).0
  unfolding sequenced
  sequenced-Moves q (none, db) w h marked kept = (
    inr (h, In-append_right _ w.calls (sequences q.pulse_number ∷ []) (inl refl), marked refl),
    (sequences q.pulse_number ∷ [], refl),
    kept,
  )
  sequenced-Moves q (some e, db) w h marked kept =
      (inl refl, (sequences q.pulse_number ∷ [], refl), kept)

  answer-IsNext :
      (w : S storage min_time_pulse)
      → let answer = storage.get_pulse_by_prev (P w) w.db in
        is_failure answer.1 ≡ false → answer.0.is_complete ≡ true → IsNext (P w) answer.0
  unfolding is_failure
  answer-IsNext w e c = go (storage.get_pulse_by_prev (P w) w.db).1 refl
    where
      go :
          (err : Option DbError)
          → (storage.get_pulse_by_prev (P w) w.db).1 ≡ err
          → IsNext (P w) (storage.get_pulse_by_prev (P w) w.db).0
      go none g = (laws.found (P w) w.db g, c)
      go (some record_not_found) g =
          absurd (ground (arith, ap (λ p. p.is_complete) (laws.missing (P w) w.db g)))
      go (some failed) g = absurd (ground arith)

  -- One round of the loop.
  pub round-Moves :
      (now : ℕ) (w : S storage min_time_pulse)
      → Moves w (pulse_sequence_round storage min_time_pulse now w).0
  unfolding pulse_sequence_round after_next
  round-Moves now w =
      let answer = storage.get_pulse_by_prev (P w) w.db in
      elim (Bool-cases (is_failure answer.1)) [
        | inl e ↦
            subst (λ (o : S storage min_time_pulse × Bool). Moves w o.0)
              (sym (if_true (w, false) _ e)) (stays w)
        | inr e ↦ elim (Bool-cases answer.0.is_complete) [
          | inl c ↦
              subst (λ (o : S storage min_time_pulse × Bool). Moves w o.0)
                (sym (if_false (w, false) _ e ∙ if_true _ _ c))
                (sequenced-Moves answer.0 (storage.sequence_pulse answer.0.pulse_number w.db) w
                  (answer-IsNext w e c) (marks.marked answer.0.pulse_number w.db)
                  (λ m. marks.kept answer.0.pulse_number m w.db))
          | inr c ↦
              let gap =
                storage.get_next_saved_pulse (P w) (w.controller.platform_version == 1) w.db in
              subst (λ (o : S storage min_time_pulse × Bool). Moves w o.0)
                (sym (if_false (w, false) _ e ∙ if_false _ _ c)) (fill_gap-Moves now gap.0 gap.1 w)
        ]
      ]

-- A link in front of a chain.
link_first :
    {p q r : Pulse} {n : List ℤ} → IsNext p q → Linked q r n → Linked p r (q.pulse_number ∷ n)
link_first h here = link here h
link_first h (link l k) = link (link_first h l) k

module _ (storage : Storage) (min_time_pulse : ℕ) (IsMarked : ℤ → storage.State → Type 0) where
  -- The pulses that have been sequenced, each asked of the storage and marked in it.
  abbrev pub Sequenced : S storage min_time_pulse → S storage min_time_pulse → Type 0
  Sequenced w out =
      (numbers : List ℤ) × Linked w.controller.sequential_pulse out.controller.sequential_pulse
        numbers
      × ((n : ℤ) → In n numbers → In (sequences n) out.calls × IsMarked n out.db)
      × ((c : Call) → In c w.calls → In c out.calls)
      × ((m : ℤ) → IsMarked m w.db → IsMarked m out.db)

  -- What others do to the database takes no mark away.
  abbrev pub LeavesMarks : ℕ × (storage.State → storage.State) → Type 0
  LeavesMarks round = (m : ℤ) (db : storage.State) → IsMarked m db → IsMarked m (round.1 db)

module _ (storage : Storage) (min_time_pulse : ℕ) (laws : PrevLaws storage)
    (IsMarked : ℤ → storage.State → Type 0) (marks : MarkLaws storage IsMarked) where
  rounds-Sequenced :
      (rounds : List (ℕ × (storage.State → storage.State))) (w : S storage min_time_pulse)
      → All (LeavesMarks storage min_time_pulse IsMarked) rounds
      → Sequenced storage min_time_pulse IsMarked w (pulse_sequence storage min_time_pulse rounds w)
  unfolding pulse_sequence
  rounds-Sequenced [] w leaves = ([], here, (λ n m. absurd m), (λ c m. m), λ m h. h)
  rounds-Sequenced ((now, others) ∷ rounds) w leaves =
      let w' = record w { db = others w.db } in
      let out = (pulse_sequence_round storage min_time_pulse now w').0 in
      let end = pulse_sequence storage min_time_pulse rounds out in
      let (moved, (more, calls), marks_kept) =
        round-Moves storage min_time_pulse laws IsMarked marks now w' in
      let (numbers, chain, marked, kept, stay) = rounds-Sequenced rounds out leaves.1 in
      let grown : (c : Call) → In c w.calls → In c out.calls =
        λ c m. subst (In c) (sym calls) (In-append_left c w.calls more m) in
      let stays : (m : ℤ) → IsMarked m w.db → IsMarked m end.db =
        λ m h. stay m (marks_kept m (leaves.0 m w.db h)) in
      elim moved [
        | inl same ↦ (
          numbers,
          subst (λ p. Linked p end.controller.sequential_pulse numbers) same chain,
          marked,
          (λ c m. kept c (grown c m)),
          stays,
        )
        | inr (h, m, mark) ↦
            let n = out.controller.sequential_pulse.pulse_number in
            (
              n ∷ numbers,
              link_first h chain,
              (λ k i. elim i [
                | inl e ↦
                    subst (λ x. In (sequences x) end.calls × IsMarked x end.db) (sym e)
                      (kept (sequences n) m, stay n mark)
                | inr j ↦ marked k j
              ]),
              (λ c i. kept c (grown c i)),
              stays,
            )
      ]

-- However often the loop goes round, and whatever others do to the database between the rounds as long
-- as they take no mark away, the sequential pulse has only moved along a chain of pulses, each of
-- which was complete when it was taken and names the one before it; and each that it passed was asked
-- to be marked and has its mark in the database at the end.
pub pulse_sequence-Sequenced :
    (storage : Storage) (min_time_pulse : ℕ)
    → PrevLaws storage
    → (IsMarked : ℤ → storage.State → Type 0) → MarkLaws storage IsMarked
    → (rounds : List (ℕ × (storage.State → storage.State))) (w : S storage min_time_pulse)
    → All (LeavesMarks storage min_time_pulse IsMarked) rounds
    → Sequenced storage min_time_pulse IsMarked w (pulse_sequence storage min_time_pulse rounds w)
pulse_sequence-Sequenced storage min_time_pulse laws IsMarked marks rounds w leaves =
    rounds-Sequenced storage min_time_pulse laws IsMarked marks rounds w leaves
