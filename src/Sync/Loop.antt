-- ===== src/Sync/Loop.antt =====
-- `startSyncLoop` of src/ldk/sync/chain-sync.ts: what one tick does, given how its calls end. `notes` are
-- what the tick asks, does and reports, the newest first.
pub mod Pace
pub mod Saved
mod Tests
use browser_wallet.Prelude.{
  ℕ, suc, ◌+◌, ◌*◌, ◌%◌, min, String, Bool, true, false, not, ◌&&◌, ◌||◌, Option, none, some, List,
  [], ◌∷◌, ◌==◌, leb, if◌then◌else◌,
}

abbrev pub max_backoff : ℕ
max_backoff = 5 * 60 * 1_000

abbrev pub stale_threshold : ℕ
stale_threshold = 3

pub data SyncStatus : Type 0 where
  synced stale : SyncStatus

pub data Note : Type 0 where
  timer_tick_occurred rebroadcast_pending_claims : Note
  needs_persistence : Note
  manager_persisted manager_not_persisted : Note
  graph_stored scorer_stored : Note
  gossip_synced gossip_failed : Note
  sync_failed : Note
  status : SyncStatus → Note
  waits : ℕ → Note

-- The arguments of `startSyncLoop` that the loop reads itself.
pub record Config : Type 0 where
  pub interval_ms : ℕ
  pub has_rgs_url : Bool
  pub rgs_sync_interval_ticks : Option ℕ

-- The variables of the closure.
pub record Loop : Type 0 where
  pub last_tip_hash : Option String
  pub stopped : Bool
  pub tick_count : ℕ
  pub cm_needs_persist : Bool
  pub rgs_handle : Bool
  pub rgs_init_started : Bool
  pub consecutive_errors : ℕ
  pub current_backoff : ℕ
  pub notes : List Note

abbrev pub init : Config → Loop
init c = record {
  last_tip_hash = none;
  stopped = false;
  tick_count = 0;
  cm_needs_persist = false;
  rgs_handle = false;
  rgs_init_started = false;
  consecutive_errors = 0;
  current_backoff = c.interval_ms;
  notes = [];
}

-- How the calls of a tick end: the tip that `syncOnce` returns, or whether it was aborted when it threw;
-- what LDK answers to `get_and_clear_needs_persistence`; which writes succeed; whether `stop` is called
-- meanwhile.
pub data SyncResult : Type 0 where
  tip : String → SyncResult
  threw : (aborted : Bool) → SyncResult

pub record Answers : Type 0 where
  pub sync : SyncResult
  pub needs : Bool
  pub persists : Bool
  pub stores_graph : Bool
  pub stores_scorer : Bool
  pub syncs_gossip : Bool
  pub stores_graph_again : Bool
  pub stops : Bool

abbrev pub note : Note → Loop → Loop
note n l = record l { notes = n ∷ l.notes }

abbrev pub noted_if : Bool → Note → Loop → Loop
noted_if b n l = if b then note n l else l

-- The start of `ensureRgs`: whether `initRapidGossipSync` is called.
unfoldable pub ensure_rgs : Config → Loop → Loop
ensure_rgs c l =
    if not c.has_rgs_url || l.rgs_handle || l.rgs_init_started
    then l
    else record l { rgs_init_started = true }

-- How `initRapidGossipSync` ends, which no tick waits for.
unfoldable pub rgs_initialised : Bool → Loop → Loop
rgs_initialised true l = record l { rgs_handle = true }
rgs_initialised false l = record l { rgs_init_started = false }

-- The body of the outer `try`, in parts. Each part takes what is left of the `try`, which runs unless the
-- part throws; a throw ends in `fail`.
unfoldable pub fail : Loop → Loop
fail l =
    let failed : Loop = record (note sync_failed l) {
      consecutive_errors = l.consecutive_errors + 1;
      current_backoff = min (l.current_backoff * 2) max_backoff;
    } in
    noted_if (leb stale_threshold (l.consecutive_errors + 1)) (status stale) failed

-- The end of the `try`.
unfoldable pub succeed : Config → Loop → Loop
succeed c l = note (status synced) (record l {
  tick_count = l.tick_count + 1;
  consecutive_errors = 0;
  current_backoff = c.interval_ms;
})

-- Errors of the periodic gossip are caught where they occur. A number modulo 0 is `NaN`, not 0.
unfoldable pub sync_gossip : Config → Answers → Loop → Loop
sync_gossip c a l =
    let every : ℕ = elim c.rgs_sync_interval_ticks [ none ↦ 60 | some n ↦ n ] in
    if l.rgs_handle && c.has_rgs_url && (not (every == 0) && ((l.tick_count + 1) % every == 0))
    then (if not a.syncs_gossip
        then note gossip_failed l
        else if a.stores_graph_again
        then note graph_stored (note gossip_synced l)
        else note gossip_failed (note gossip_synced l))
    else l

-- Every tenth tick the graph and the scorer are stored.
unfoldable pub store_graph : Config → Answers → Loop → Loop
store_graph c a l =
    if (l.tick_count + 1) % 10 == 0
    then (if not a.stores_graph
        then fail l
        else if not a.stores_scorer
        then fail (note graph_stored l)
        else succeed c (sync_gossip c a (note scorer_stored (note graph_stored l))))
    else succeed c (sync_gossip c a l)

-- `cmNeedsPersist || get_and_clear_needs_persistence()`
unfoldable pub persist_manager : Config → Answers → Loop → Loop
persist_manager c a l =
    let asked = noted_if (not l.cm_needs_persist && a.needs) needs_persistence l in
    if l.cm_needs_persist || a.needs
    then (if a.persists
        then store_graph c a (note manager_persisted (record asked { cm_needs_persist = false }))
        else fail (note manager_not_persisted (record asked { cm_needs_persist = true })))
    else store_graph c a l

unfoldable pub after_sync : Config → Answers → SyncResult → Loop → Loop
after_sync c a (tip hash) l = persist_manager c a (
    note rebroadcast_pending_claims
      (note timer_tick_occurred (record l { last_tip_hash = some hash })))
after_sync c a (threw true) l = fail (record l { last_tip_hash = none })
after_sync c a (threw false) l = fail l

-- The timer behind a tick.
unfoldable pub rearm : Bool → Loop → Loop
rearm stops l =
    let l' : Loop = record l { stopped = l.stopped || stops } in
    if l'.stopped then l' else note (waits l'.current_backoff) l'

unfoldable pub tick : Config → Answers → Loop → Loop
tick c a l = if l.stopped then l else rearm a.stops (after_sync c a a.sync (ensure_rgs c l))

pub data Step : Type 0 where
  ticks : Answers → Step
  rgs_ends : Bool → Step
  stop_called : Step

unfoldable pub step : Config → Step → Loop → Loop
step c (ticks a) l = tick c a l
step c (rgs_ends b) l = rgs_initialised b l
step c stop_called l = record l { stopped = true }

unfoldable pub run : Config → List Step → Loop → Loop
run c [] l = l
run c (x ∷ xs) l = run c xs (step c x l)
