-- ===== src/Tests/Stopping.antt =====
-- A call of Stop that the cleaning goroutine hears and answers.
use block_explorer.Prelude.{◌≡◌, refl, none, some, [], ◌∷◌, arith}
use block_explorer.Controller.MissedData.{MissedDataManager, new_missed_data_manager}
use block_explorer.Controller.MissedData.Stopping.{
  finished, Cleaner, starts, calls, hears, answers, ticks, told, awaited, step, run, unstarted,
  no_tick_after_stop,
}

abbrev new_pool : MissedDataManager
new_pool = new_missed_data_manager 100 10

abbrev stopped_cleaner : Cleaner
stopped_cleaner = record {
  mdm = new_pool;
  phase = finished;
  sending = 0;
  receiving = 0;
  returned = 1;
}

stop_returns :
    run (starts ∷ calls ∷ hears ∷ answers ∷ []) (unstarted new_pool) ≡ some stopped_cleaner
unfolding run step told awaited
stop_returns = refl

no_tick_after_stop_example : step (ticks (λ i. 5)) stopped_cleaner ≡ none
no_tick_after_stop_example =
    no_tick_after_stop new_pool (starts ∷ calls ∷ hears ∷ answers ∷ []) stopped_cleaner (λ i. 5)
      stop_returns (omega arith)
