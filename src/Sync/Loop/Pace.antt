-- ===== src/Sync/Loop/Pace.antt =====
-- How often the sync loop of src/ldk/sync/chain-sync.ts runs, and when it reports that it is stale.
use browser_wallet.Prelude.{
  ℕ, zero, suc, ◌+◌, ◌*◌, ◌^◌, min, ◌≡◌, refl, ap, ◌∙◌, Bool, true, false, not, ◌&&◌, ◌||◌, none,
  some, List, [], ◌∷◌, arith, leb, if◌then◌else◌, Bool-cases, inl, inr,
}
use native.Mathlib.Numerals.{unary_clauses}
use browser_wallet.Sync.Loop.{
  Config, Loop, init, Answers, SyncResult, tip, threw, synced, stale, Note, timer_tick_occurred,
  rebroadcast_pending_claims, needs_persistence, manager_persisted, manager_not_persisted,
  graph_stored, scorer_stored, sync_failed, status, waits, note, noted_if, ensure_rgs,
  rgs_initialised, fail, succeed, sync_gossip, store_graph, persist_manager, after_sync, rearm,
  tick, Step, ticks, rgs_ends, stop_called, step, run, max_backoff, stale_threshold,
}

-- The ticks that failed since the last one that went through.
abbrev pub failures : List Note → ℕ
failures [] = 0
failures (sync_failed ∷ ns) = suc (failures ns)
failures (status synced ∷ ns) = 0
failures (_ ∷ ns) = failures ns

abbrev pub shows_stale : List Note → Bool
shows_stale (status stale ∷ ns) = true
shows_stale _ = false

-- The wait behind a number of failures.
abbrev pub pace : Config → ℕ → ℕ
pace c zero = c.interval_ms
pace c (suc n) = min (c.interval_ms * 2 ^ suc n) max_backoff

-- Each wait has the length for the failures before it, and stands behind a stale report exactly if there
-- are three or more.
abbrev pub Paced : Config → List Note → Type 0
Paced c [] = Unit
Paced c (waits d ∷ ns) =
    (d ≡ pace c (failures ns)) × (leb 3 (failures ns) ≡ shows_stale ns) × Paced c ns
Paced c (_ ∷ ns) = Paced c ns

abbrev IsSound : Config → Loop → Type 0
IsSound c l =
    (l.consecutive_errors ≡ failures l.notes)
    × (l.current_backoff ≡ pace c (failures l.notes))
    × Paced c l.notes

-- Behind the body of a tick the report is made.
abbrev IsReported : Config → Loop → Type 0
IsReported c l = IsSound c l × (leb 3 (failures l.notes) ≡ shows_stale l.notes)

if-IsSound :
    (c : Config) (b : Bool) (l m : Loop)
    → IsSound c l
    → IsSound c m
    → IsSound c (if b then l else m)
if-IsSound c true l m h k = h
if-IsSound c false l m h k = k

if-IsReported :
    (c : Config) (b : Bool) (l m : Loop)
    → IsReported c l
    → IsReported c m
    → IsReported c (if b then l else m)
if-IsReported c true l m h k = h
if-IsReported c false l m h k = k

pace-suc : (c : Config) (n : ℕ) → min (pace c n * 2) max_backoff ≡ pace c (suc n)
pace-suc c zero = omega arith
pace-suc c (suc n) = simp unary_clauses (omega arith)

next_pace : (c : Config) (n b : ℕ) → b ≡ pace c n → min (b * 2) max_backoff ≡ pace c (suc n)
next_pace c n b e = ap (λ x. min (x * 2) max_backoff) e ∙ pace-suc c n

fail-IsReported : (c : Config) (l : Loop) → IsSound c l → IsReported c (fail l)
unfolding fail
fail-IsReported c l (errors, backoff, paced) =
    elim (Bool-cases (leb stale_threshold (l.consecutive_errors + 1))) [
      | inl e ↦ rw e (
        (omega arith, next_pace c (failures l.notes) l.current_backoff backoff, paced),
        ground arith,
      )
      | inr e ↦ rw e (
        (omega arith, next_pace c (failures l.notes) l.current_backoff backoff, paced),
        ground arith,
      )
    ]

succeed-IsReported : (c : Config) (l : Loop) → IsSound c l → IsReported c (succeed c l)
unfolding succeed
succeed-IsReported c l (errors, backoff, paced) = ((refl, refl, paced), refl)

gossip-IsSound : (c : Config) (a : Answers) (l : Loop) → IsSound c l → IsSound c (sync_gossip c a l)
unfolding sync_gossip
gossip-IsSound c a l h =
    if-IsSound c _ _ l
      (if-IsSound c (not a.syncs_gossip) _ _ h (if-IsSound c a.stores_graph_again _ _ h h)) h

graph-IsReported :
    (c : Config) (a : Answers) (l : Loop) → IsSound c l → IsReported c (store_graph c a l)
unfolding store_graph
graph-IsReported c a l h =
    if-IsReported c _ _ _
      (if-IsReported c (not a.stores_graph) _ _ (fail-IsReported c l h) (
        if-IsReported c (not a.stores_scorer) _ _ (fail-IsReported c (note graph_stored l) h) (
          succeed-IsReported c _
            (gossip-IsSound c a (note scorer_stored (note graph_stored l)) h))))
      (succeed-IsReported c _ (gossip-IsSound c a l h))

manager-IsReported :
    (c : Config) (a : Answers) (l : Loop) → IsSound c l → IsReported c (persist_manager c a l)
unfolding persist_manager
manager-IsReported c a l h =
    if-IsReported c (l.cm_needs_persist || a.needs) _ _
      (if-IsReported c a.persists _ _
        (graph-IsReported c a (note manager_persisted (record asked { cm_needs_persist = false }))
          asked-IsSound)
        (fail-IsReported c (note manager_not_persisted (record asked { cm_needs_persist = true }))
          asked-IsSound))
      (graph-IsReported c a l h)
  where
    asked : Loop
    asked = noted_if (not l.cm_needs_persist && a.needs) needs_persistence l

    asked-IsSound : IsSound c asked
    asked-IsSound =
        if-IsSound c (not l.cm_needs_persist && a.needs) (note needs_persistence l) l h h

sync-IsReported :
    (c : Config) (a : Answers) (r : SyncResult) (l : Loop)
    → IsSound c l
    → IsReported c (after_sync c a r l)
unfolding after_sync
sync-IsReported c a (tip hash) l h =
    manager-IsReported c a
      (note rebroadcast_pending_claims
        (note timer_tick_occurred (record l { last_tip_hash = some hash })))
      h
sync-IsReported c a (threw true) l h = fail-IsReported c (record l { last_tip_hash = none }) h
sync-IsReported c a (threw false) l h = fail-IsReported c l h

rearm-IsSound : (c : Config) (b : Bool) (l : Loop) → IsReported c l → IsSound c (rearm b l)
unfolding rearm
rearm-IsSound c b l ((errors, backoff, paced), shown) =
    if-IsSound c (l.stopped || b) _
      (note (waits l.current_backoff) (record l { stopped = l.stopped || b }))
      (errors, backoff, paced) (errors, backoff, (backoff, shown, paced))

step-IsSound : (c : Config) (x : Step) (l : Loop) → IsSound c l → IsSound c (step c x l)
unfolding step tick ensure_rgs rgs_initialised
step-IsSound c (ticks a) l h = if-IsSound c l.stopped l _ h (
    rearm-IsSound c a.stops _ (
      sync-IsReported c a a.sync _ (
        if-IsSound c (not c.has_rgs_url || l.rgs_handle || l.rgs_init_started) l
          (record l { rgs_init_started = true }) h h)))
step-IsSound c (rgs_ends true) l h = h
step-IsSound c (rgs_ends false) l h = h
step-IsSound c stop_called l h = h

run-IsSound : (c : Config) (xs : List Step) (l : Loop) → IsSound c l → IsSound c (run c xs l)
unfolding run
run-IsSound c [] l h = h
run-IsSound c (x ∷ xs) l h = run-IsSound c xs (step c x l) (step-IsSound c x l h)

-- Over every sequence of ticks, however their calls end, of ends of the gossip's start and of stops: the
-- wait behind a tick is the interval if the tick went through, and otherwise the interval doubled as
-- often as ticks have failed in a row, at most five minutes; and the status `stale` is reported at a
-- tick's end exactly if three or more ticks have failed in a row.
pub run-Paced : (c : Config) (xs : List Step) → Paced c (run c xs (init c)).notes
run-Paced c xs = (run-IsSound c xs (init c) (refl, refl, tt)).2
