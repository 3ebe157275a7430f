-- ===== src/Tests/System.antt =====
-- A database that is the list of its jet drops: two halves of a pulse are processed, and the pulse is
-- completed.
use block_explorer.Prelude.{
  ◌≡◌, refl, inl, inr, none, some, List, [], ◌∷◌, Text, codes, In, All, ℤ, pos,
}
use block_explorer.Models.{empty_pulse}
use block_explorer.Interfaces.{Storage, SavedLaws, record_not_found}
use block_explorer.Controller.Completeness.{
  flip, invert_last_symbol, starts_with, contains, has_sibling, sibling_round, sibling_loop,
  parent_round, parent_iterator, parent_loop, both_loops, pulse_is_complete,
}
use block_explorer.Controller.Register.{
  World, completes, completed, erase_entry, count_round, add_jet, register_jet, set_jet_drop_data,
}
use block_explorer.Controller.Sequence.{
  register_pulses, set_incomplete_pulses, set_seq_pulse, start,
}
use block_explorer.Processor.{pulse_row, jet_drop_row, record_rows, process}
use block_explorer.System.{
  System, Event, processes, begins, looks, ends, begun, look, ended, step, run,
}
use block_explorer.System.Saved.{IsCovered}
use block_explorer.System.Restart.{ReadLaws}
use block_explorer.System.Pipeline.{FromTransformer, completed_pulses_are_saved}
use block_explorer.Tests.Fixtures.{controller, pulse_10}
use block_explorer.Tests.Transformer.{
  same_name, ids, two_jets, two_drops, transform_two, drop_of, the_request,
}

abbrev Table : Type 0
Table = List (ℤ × Text)

abbrev table : Storage
table = record {
  State = Table;
  save_jet_drop_data = λ d rows n db. (none, (d.pulse_number, d.jet_id) ∷ db);
  save_pulse = λ p db. (none, db);
  complete_pulse = λ n db. (none, db);
  sequence_pulse = λ n db. (none, db);
  get_incomplete_pulses = λ db. ([], none);
  get_sequential_pulse = λ db. (pulse_10, none);
  get_pulse_by_prev = λ p db. (empty_pulse, some record_not_found);
  get_next_saved_pulse = λ p completed_only db. (empty_pulse, none);
  get_jet_drops = λ p db. ([], none);
}

abbrev IsRow : ℤ → Text → Table → Type 0
IsRow m j db = In (m, j) db

table_laws : SavedLaws table IsRow
table_laws = record {
  saved = λ d records n db e. inl refl;
  save_jet_drop_data_keeps = λ d records n db m j h. inr h;
  save_pulse_keeps = λ p db m j h. h;
  complete_pulse_keeps = λ n db m j h. h;
  sequence_pulse_keeps = λ n db m j h. h;
}

table_reads : ReadLaws table IsRow
table_reads = record { named = λ p db d m. absurd m }

abbrev events : List Event
events =
    processes (drop_of (codes "0") [])
    ∷ processes (drop_of (codes "1") (the_request ∷ []))
    ∷ begins
    ∷ looks 3
    ∷ ends
    ∷ []

made : All (FromTransformer same_name ids) events
made = (
  (two_jets, two_drops, transform_two, inl refl),
  ((two_jets, two_drops, transform_two, inr (inl refl)), (tt, (tt, (tt, tt)))),
)

abbrev begun_world : World Table
begun_world = record {
  controller = record controller { jet_drop_register = [] };
  db = [];
  calls = [];
}

abbrev done : System Table
done = record {
  world = record begun_world {
    controller = record controller { jet_drop_register = []; sequential_pulse = pulse_10 };
    db = (pos 70000, codes "1") ∷ (pos 70000, codes "0") ∷ [];
    calls = completes (pos 70000) ∷ [];
  };
  round = none;
}

completes_both :
    run table 65537 events (record { world = (start table 65537 begun_world).0; round = none })
    ≡ some done
unfolding flip invert_last_symbol starts_with contains has_sibling sibling_round sibling_loop
    parent_round parent_iterator parent_loop both_loops pulse_is_complete completed erase_entry
    count_round add_jet register_jet set_jet_drop_data register_pulses set_incomplete_pulses
    set_seq_pulse start pulse_row jet_drop_row record_rows process begun look ended step run
completes_both = refl

completed_pulses_are_saved_example : IsCovered table IsRow done.world.db (pos 70000)
completed_pulses_are_saved_example =
    completed_pulses_are_saved same_name ids table IsRow table_laws table_reads 65537 events
      begun_world done (pos 70000) refl refl made completes_both (inl refl)
