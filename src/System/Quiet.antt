-- ===== src/System/Quiet.antt =====
-- The steps that neither complete a pulse nor report a jet drop.
use block_explorer.Prelude.{
  ℕ, ◌≡◌, refl, sym, ◌⊎◌, inl, inr, Bool, Option, none, some, List, [], ◌∷◌, ◌++◌, Text, arith, ℤ,
  In, ◌==◌, nat_eq, Bool-cases, subst, if_elim,
}
use block_explorer.Models.{Pulse, PulseData, empty_pulse, pulse_beq}
use block_explorer.Interfaces.{Storage, SavedLaws, DbError, is_failure}
use block_explorer.Controller.Register.{
  W, Call, completes, sequences, loads, reload_data, start_of, count_round, clean_jet_drop_register,
}
use block_explorer.Controller.Register.Erasing.{R, reload_data-db, reload_data-register}
use block_explorer.Controller.Register.Calls.{reload_data-calls}
use block_explorer.Controller.Register.Members.{In-append, clean_loop-In}
use block_explorer.Controller.Sequence.{sequenced, fill_gap, after_next, pulse_sequence_round}

module _ (storage : Storage) (IsSaved : ℤ → Text → storage.State → Type 0)
    (laws : SavedLaws storage IsSaved) (min_time_pulse : ℕ) where
  abbrev pub Grows : storage.State → storage.State → Type 0
  Grows db db' = (m : ℤ) (j : Text) → IsSaved m j db → IsSaved m j db'

  -- Nothing saved is lost, and nothing is added to the register or completed.
  pub record IsQuiet (w out : W storage min_time_pulse) : Type 0 where
    pub grows : Grows w.db out.db
    pub entries :
        (x : PulseData × List Text)
        → In x (R storage min_time_pulse out)
        → In x (R storage min_time_pulse w)
    pub completions : (n : ℤ) → In (completes n) out.calls → In (completes n) w.calls

  pub stays : (w : W storage min_time_pulse) → IsQuiet w w
  stays w = record { grows = λ m j h. h; entries = λ x h. h; completions = λ n h. h }

  -- A call of another kind.
  other_call :
      (c : Call) (calls out : List Call)
      → ((n : ℤ) → ¬ (completes n ≡ c))
      → (out ≡ calls) ⊎ (out ≡ calls ++ c ∷ [])
      → (n : ℤ) → In (completes n) out
      → In (completes n) calls
  other_call c calls out other (inl e) n m = subst (In (completes n)) e m
  other_call c calls out other (inr e) n m =
      elim (In-append (completes n) calls (c ∷ []) (subst (In (completes n)) e m)) [
        | inl h ↦ h
        | inr (inl h) ↦ absurd (other n h)
        | inr (inr h) ↦ absurd h
      ]

  pub reload_data-IsQuiet :
      (now : ℕ) (f t : ℤ) (w : W storage min_time_pulse)
      → IsQuiet w (reload_data storage min_time_pulse now f t w)
  reload_data-IsQuiet now f t w = record {
    grows = λ m j h. subst (IsSaved m j) (sym (reload_data-db storage min_time_pulse now f t w)) h;
    entries = λ x h. subst (In x) (reload_data-register storage min_time_pulse now f t w) h;
    completions =
        other_call (loads (start_of min_time_pulse f) t) w.calls
          (reload_data storage min_time_pulse now f t w).calls (λ n e. absurd (ground arith))
          (reload_data-calls storage min_time_pulse now f t w);
  }

  fill_gap-IsQuiet :
      (now : ℕ) (q : Pulse) (err : Option DbError) (w : W storage min_time_pulse)
      → IsQuiet w (fill_gap storage min_time_pulse now (q, err) w).0
  unfolding fill_gap
  fill_gap-IsQuiet now q err w = elim (Bool-cases (is_failure err)) [
    | inl e ↦ rw e (stays w)
    | inr e ↦ elim (Bool-cases (pulse_beq q empty_pulse)) [
      | inl f ↦ rw e (rw f (stays w))
      | inr f ↦ rw e (rw f (reload_data-IsQuiet now _ _ w))
    ]
  ]

  sequenced-IsQuiet :
      (q : Pulse) (answer : Option DbError × storage.State) (w : W storage min_time_pulse)
      → Grows w.db answer.1
      → IsQuiet w (sequenced storage min_time_pulse q answer w).0
  unfolding sequenced
  sequenced-IsQuiet q (none, db) w g = record {
    grows = g;
    entries = λ x h. h;
    completions =
        other_call (sequences q.pulse_number) w.calls (w.calls ++ sequences q.pulse_number ∷ [])
          (λ n e. absurd (ground arith)) (inr refl);
  }
  sequenced-IsQuiet q (some e, db) w g = record {
    grows = g;
    entries = λ x h. h;
    completions =
        other_call (sequences q.pulse_number) w.calls (w.calls ++ sequences q.pulse_number ∷ [])
          (λ n e. absurd (ground arith)) (inr refl);
  }

  after_next-IsQuiet :
      (now : ℕ) (next : Pulse) (err : Option DbError) (w : W storage min_time_pulse)
      → IsQuiet w (after_next storage min_time_pulse now (next, err) w).0
  unfolding after_next
  after_next-IsQuiet now next err w = elim (Bool-cases (is_failure err)) [
    | inl e ↦ rw e (stays w)
    | inr e ↦ rw e (
        if_elim (λ (o : W storage min_time_pulse × Bool). IsQuiet w o.0) next.is_complete _ _
          (λ f.
            sequenced-IsQuiet next (storage.sequence_pulse next.pulse_number w.db) w
              (laws.sequence_pulse_keeps next.pulse_number w.db))
          (λ f. fill_gap-IsQuiet now _ _ w))
  ]

  pub pulse_sequence_round-IsQuiet :
      (now : ℕ) (w : W storage min_time_pulse)
      → IsQuiet w (pulse_sequence_round storage min_time_pulse now w).0
  unfolding pulse_sequence_round
  pulse_sequence_round-IsQuiet now w =
      let answer = storage.get_pulse_by_prev w.controller.sequential_pulse w.db in
      after_next-IsQuiet now answer.0 answer.1 w

  pub count_round-IsQuiet :
      (w : W storage min_time_pulse) → IsQuiet w (count_round storage min_time_pulse w)
  unfolding count_round clean_jet_drop_register
  count_round-IsQuiet w = elim (Bool-cases (w.controller.platform_version == 1)) [
    | inr v ↦ rw (v, count_round) (stays w)
    | inl v ↦ elim (Bool-cases (w.controller.incomplete_pulse_counter == 1000)) [
      | inr c ↦
          rw (v, count_round)
            (rw c (record { grows = λ m j h. h; entries = λ x h. h; completions = λ n h. h }))
      | inl c ↦
          rw (v, count_round)
            (rw c (record {
              grows = λ m j h. h;
              entries = λ x h.
                  clean_loop-In x w.controller.sequential_pulse.pulse_number
                    w.controller.jet_drop_register w.controller.jet_drop_register h;
              completions = λ n h. h;
            }))
    ]
  ]
