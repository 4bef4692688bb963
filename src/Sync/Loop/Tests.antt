-- ===== src/Sync/Loop/Tests.antt =====
-- The theorems on the sync loop at concrete inputs.
use browser_wallet.Prelude.{◌≡◌, refl, true, false, none, List, [], ◌∷◌}
use browser_wallet.Sync.Loop.{
  Config, Answers, tip, threw, Step, ticks, rgs_ends, init, run, step, tick, rearm, after_sync,
  persist_manager, fail, ensure_rgs,
}
use browser_wallet.Sync.Loop.Pace.{Paced, run-Paced}
use browser_wallet.Sync.Loop.Saved.{unsaved, left_unsaved, tick-Saves}

abbrev config : Config
config = record { interval_ms = 60_000; has_rgs_url = true; rgs_sync_interval_ticks = none }

abbrev unsaved_tick : Answers
unsaved_tick = record {
  sync = tip "a0";
  needs = true;
  persists = false;
  stores_graph = true;
  stores_scorer = true;
  syncs_gossip = true;
  stores_graph_again = true;
  stops = false;
}

abbrev aborted_tick : Answers
aborted_tick = record unsaved_tick { sync = threw true }

abbrev steps : List Step
steps = ticks unsaved_tick ∷ rgs_ends true ∷ ticks aborted_tick ∷ ticks aborted_tick ∷ []

run-Paced_example : Paced config (run config steps (init config)).notes
run-Paced_example = run-Paced config steps

abbrev one_tick : List Step
one_tick = ticks unsaved_tick ∷ []

still_running : (run config one_tick (init config)).stopped ≡ false
unfolding run step tick rearm after_sync persist_manager fail ensure_rgs
still_running = refl

tick-Saves_example :
    unsaved (tick config unsaved_tick (run config one_tick (init config))).notes
    ≡ left_unsaved unsaved_tick unsaved_tick.sync
        (unsaved (run config one_tick (init config)).notes)
tick-Saves_example = tick-Saves config one_tick unsaved_tick still_running
