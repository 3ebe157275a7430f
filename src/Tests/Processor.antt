-- ===== src/Tests/Processor.antt =====
-- The processor on the small database.
use block_explorer.Prelude.{◌≡◌, ◌⊎◌, refl, inl, true, false, none, some, [], ◌∷◌}
use block_explorer.Interfaces.{failed}
use block_explorer.Processor.{process}
use block_explorer.Processor.Rows.{Processed, process-Processed}
use block_explorer.Processor.Workers.{
  idle, working, crash, Event, feed, hand, finish, stop, Pool, new_pool, step, event_step,
  hand_step, run,
}
use block_explorer.Processor.Workers.Handing.{Holds, Reported}
use block_explorer.Processor.Workers.Keeping.{step_keeps}
use block_explorer.Processor.Workers.Jam.{stop_panics, one_worker_jams}
use block_explorer.Tests.Fixtures.{small, world, broken_world, canonical_drop}

process-Processed_example :
    Processed small 65537 canonical_drop world (process small 65537 canonical_drop world)
process-Processed_example = process-Processed small 65537 canonical_drop world

abbrev feeding_pool : Pool small 65537
feeding_pool = record {
  world = world;
  workers = idle ∷ [];
  feeding = some canonical_drop;
  active = true;
  drained = false;
  panicked = false;
}

abbrev handed_pool : Pool small 65537
handed_pool = record feeding_pool { workers = working canonical_drop ∷ []; feeding = none }

step_keeps_example :
    Holds small 65537 canonical_drop handed_pool ⊎ Reported small 65537 canonical_drop handed_pool
unfolding step event_step hand_step
step_keeps_example =
    step_keeps small 65537 canonical_drop (hand 0) feeding_pool handed_pool refl refl (inl refl)

one_worker_jams_example :
    (p : Pool small 65537) × (run small 65537
        (feed canonical_drop ∷ hand 0 ∷ finish 0 ∷ feed canonical_drop ∷ [])
        (new_pool small 65537 1 broken_world)
      ≡ some p)
    × ((event : Event) → step small 65537 event p ≡ none)
one_worker_jams_example =
    one_worker_jams small 65537 broken_world canonical_drop canonical_drop failed refl

stop_panics_example :
    (p : Pool small 65537) × (run small 65537
        (feed canonical_drop ∷ hand 0 ∷ finish 0 ∷ stop ∷ crash 0 ∷ [])
        (new_pool small 65537 3 broken_world)
      ≡ some p)
    × (p.world.controller ≡ broken_world.controller)
    × ((event : Event) → step small 65537 event p ≡ none)
stop_panics_example = stop_panics small 65537 3 broken_world canonical_drop failed refl
