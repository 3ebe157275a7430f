-- ===== src/Tests/Controller.antt =====
-- Rounds of the controller on the small database.
use block_explorer.Prelude.{
  ◌==◌, ◌+◌, ◌*◌, int_eq, ==_true, Bool-cases, any, ℤ, Option, if◌then◌else◌, ℕ, suc, ◌<◌, none,
  ◌≡◌, ◌≢◌, zero, refl, sym, ap, inl, inr, Bool, true, some, List, [], ◌∷◌, ◌++◌, Text, codes,
  arith, In, All, pos, lookup, subst,
}
use block_explorer.Interfaces.{DbError, record_not_found, Storage, PrevLaws}
use block_explorer.Models.{empty_pulse, Pulse, pulse_data_eq}
use block_explorer.Controller.Completeness.{
  flip, invert_last_symbol, starts_with, contains, has_sibling, sibling_round, sibling_loop,
  parent_round, parent_iterator, parent_loop, both_loops, pulse_is_complete,
}
use block_explorer.Controller.MissedData.{add}
use block_explorer.Controller.Register.{
  World, Call, completes, loads, register_all, restart_key, reload_data, completed, erase_entry,
  erase_loop, count_round, erase_jet_drop_register,
}
use block_explorer.Controller.Register.Entries.{Has}
use block_explorer.Controller.Register.Erasing.{erase_keeps_incomplete}
use block_explorer.Controller.Register.Calls.{Justified, erase-calls-Justified}
use block_explorer.Controller.Sequence.{pulse_sequence}
use block_explorer.Controller.Sequence.Chain.{MarkLaws, Sequenced, pulse_sequence-Sequenced}
use block_explorer.Controller.Sequence.Progress.{Leads, pulse_sequence_advances}
use block_explorer.Controller.Sequence.Start.{restart_entry_frozen}
use block_explorer.Tests.Fixtures.{
  small, pulse_10, world, controller, register, data_30, data_40, pulse_30,
}

-- What the round leaves: the whole pulse is completed, and the other one's range is asked for.
abbrev erased : World Bool
erased = record world {
  controller = record controller {
    jet_drop_register = (data_30, codes "0" ∷ []) ∷ [];
    missed_data_manager = record {
      missed_data_pool = record { ts = 3; from_pulse = pos 20; to_pulse = pos 30 } ∷ [];
      ttl = 100;
      clean_period = 10;
    };
  };
  calls = loads (pos 20) (pos 30) ∷ completes (pos 40) ∷ [];
}

erase_small : erase_jet_drop_register small 65537 (λ i. []) (λ i. 3) world ≡ some erased
unfolding flip invert_last_symbol starts_with contains has_sibling sibling_round sibling_loop
    parent_round parent_iterator parent_loop both_loops pulse_is_complete add reload_data completed
    erase_entry erase_loop count_round erase_jet_drop_register register_all
erase_small = refl

incomplete_half : pulse_is_complete (codes "0" ∷ []) ≢ some true
unfolding flip invert_last_symbol starts_with contains has_sibling sibling_round sibling_loop
    both_loops pulse_is_complete
incomplete_half e = ground arith

only_half : (d : List Text) → In (data_30, d) register → pulse_is_complete d ≢ some true
only_half d (inl e) =
    subst (λ x. pulse_is_complete x ≢ some true) (sym (ap (λ x. x.1) e)) incomplete_half
only_half d (inr (inl e)) = absurd (ground arith)
only_half d (inr (inr z)) = absurd z

erase_keeps_incomplete_example : Has data_30 (codes "0") erased.controller.jet_drop_register
erase_keeps_incomplete_example =
    erase_keeps_incomplete small 65537 (λ i. []) (λ i. 3) world erased data_30 (codes "0")
      (λ e. ground arith) only_half (codes "0" ∷ [], refl, inl refl) erase_small

erase-calls-Justified_example :
    (more : List Call) × (erased.calls ≡ [] ++ more) × All (Justified 65537 register) more
erase-calls-Justified_example =
    erase-calls-Justified small 65537 (λ i. []) (λ i. 3) world erased erase_small

-- A database that marks pulses and shows the mark in the row: 20 is behind 10, and 30 behind 20.
abbrev row_of : ℤ → ℤ → List ℤ → Pulse
row_of n prev marks = record empty_pulse {
  pulse_number = n;
  prev_pulse_number = prev;
  is_complete = true;
  is_sequential = any (λ m. m == n) marks;
}

abbrev behind : Pulse → List ℤ → Pulse × Option DbError
behind p marks =
    if p.pulse_number == pos 10
    then (row_of (pos 20) (pos 10) marks, none)
    else if p.pulse_number == pos 20
    then (row_of (pos 30) (pos 20) marks, none)
    else (empty_pulse, some record_not_found)

abbrev marking : Storage
marking = record {
  State = List ℤ;
  save_jet_drop_data = λ drop rows n marks. (none, marks);
  save_pulse = λ p marks. (none, marks);
  complete_pulse = λ n marks. (none, marks);
  sequence_pulse = λ n marks. (none, n ∷ marks);
  get_incomplete_pulses = λ marks. ([], none);
  get_sequential_pulse = λ marks. (pulse_10, none);
  get_pulse_by_prev = behind;
  get_next_saved_pulse = λ p completed marks. (empty_pulse, none);
  get_jet_drops = λ p marks. ([], none);
}

marking-PrevLaws : PrevLaws marking
marking-PrevLaws = record { found = found; missing = missing }
  where
    found :
        (p : Pulse) (marks : List ℤ)
        → (behind p marks).1 ≡ none
        → (behind p marks).0.prev_pulse_number ≡ p.pulse_number
    found p marks e = elim (Bool-cases (p.pulse_number == pos 10)) [
      | inl b ↦ rw b (sym (==_true p.pulse_number (pos 10) b))
      | inr b ↦ elim (Bool-cases (p.pulse_number == pos 20)) [
        | inl c ↦ rw b (rw c (sym (==_true p.pulse_number (pos 20) c)))
        | inr c ↦ absurd (ground arith)
      ]
    ]

    missing :
        (p : Pulse) (marks : List ℤ)
        → (behind p marks).1 ≡ some record_not_found
        → (behind p marks).0 ≡ empty_pulse
    missing p marks e = elim (Bool-cases (p.pulse_number == pos 10)) [
      | inl b ↦ absurd (ground arith)
      | inr b ↦ elim (Bool-cases (p.pulse_number == pos 20)) [
        | inl c ↦ absurd (ground arith)
        | inr c ↦ rw b (rw c refl)
      ]
    ]

abbrev IsMarked : ℤ → List ℤ → Type 0
IsMarked n marks = In n marks

marking-MarkLaws : MarkLaws marking IsMarked
marking-MarkLaws = record { marked = λ n marks e. inl refl; kept = λ n m marks h. inr h }

abbrev unmarked : World (List ℤ)
unmarked = record { controller = controller; db = []; calls = [] }

abbrev two_rounds : List (ℕ × (List ℤ → List ℤ))
two_rounds = (1, λ marks. marks) ∷ (2, λ marks. pos 5 ∷ marks) ∷ []

pulse_sequence-Sequenced_example :
    Sequenced marking 65537 IsMarked unmarked (pulse_sequence marking 65537 two_rounds unmarked)
pulse_sequence-Sequenced_example =
    pulse_sequence-Sequenced marking 65537 marking-PrevLaws IsMarked marking-MarkLaws two_rounds
      unmarked ((λ m marks h. h), ((λ m marks h. inr h), tt))

abbrev chain : ℕ → ℤ
chain i = pos (10 * i + 10)

abbrev IsFine : List ℤ → Type 0
IsFine marks = Unit

leads_on :
    (i : ℕ) (p : Pulse) (marks : List ℤ)
    → i < 2
    → p.pulse_number ≡ chain i
    → ((behind p marks).1 ≡ none)
      × ((behind p marks).0.pulse_number ≡ chain (suc i))
      × ((behind p marks).0.is_complete ≡ true)
leads_on zero p marks h e = rw e (refl, refl, refl)
leads_on (suc zero) p marks h e = rw e (refl, refl, refl)
leads_on (suc (suc i)) p marks h e = absurd (omega arith)

marking-Leads : Leads marking IsFine chain 2
marking-Leads = record {
  next = λ i p marks h f e. leads_on i p marks h e;
  marked = λ i marks h f. refl;
  still_fine = λ i marks h f. tt;
}

pulse_sequence_advances_example :
    (pulse_sequence marking 65537 two_rounds unmarked).controller.sequential_pulse.pulse_number
    ≡ chain 2
pulse_sequence_advances_example =
    pulse_sequence_advances marking 65537 IsFine chain 2 marking-Leads two_rounds 0 unmarked
      ((λ marks f. tt), ((λ marks f. tt), tt)) refl refl tt

restart_entry_frozen_example :
    lookup
      (restart_key pulse_30)
      (register_all ((data_30, codes "0") ∷ (data_40, codes "1") ∷ []) register)
    ≡ lookup (restart_key pulse_30) register
restart_entry_frozen_example =
    restart_entry_frozen ((data_30, codes "0") ∷ (data_40, codes "1") ∷ []) pulse_30 register
      ((λ e. ground arith), ((λ e. ground arith), tt))
