-- ===== src/Sync/Loop/Saved.antt =====
-- What the sync loop of src/ldk/sync/chain-sync.ts does about an unsaved channel manager.
use browser_wallet.Prelude.{
  ◌+◌, ◌≡◌, refl, sym, ap, ◌∙◌, Bool, true, false, not, ◌&&◌, ◌||◌, none, some, List, [], ◌∷◌,
  arith, leb, if◌then◌else◌, Bool-cases, inl, inr,
}
use browser_wallet.Sync.Loop.{
  Config, Loop, init, Answers, SyncResult, tip, threw, Note, timer_tick_occurred,
  rebroadcast_pending_claims, needs_persistence, manager_persisted, manager_not_persisted,
  graph_stored, scorer_stored, waits, note, noted_if, ensure_rgs, rgs_initialised, fail, succeed,
  sync_gossip, store_graph, persist_manager, after_sync, rearm, tick, Step, ticks, rgs_ends,
  stop_called, step, run, stale_threshold,
}

-- LDK has said that the manager needs persistence, and it was not persisted since.
abbrev pub unsaved : List Note → Bool
unsaved [] = false
unsaved (needs_persistence ∷ ns) = true
unsaved (manager_persisted ∷ ns) = false
unsaved (_ ∷ ns) = unsaved ns

-- The flag of the loop and its notes agree, and the flag is `b`.
abbrev IsExact : Bool → Loop → Type 0
IsExact b l = (l.cm_needs_persist ≡ b) × (unsaved l.notes ≡ b)

if-IsExact : (b d : Bool) (l m : Loop) → IsExact d l → IsExact d m → IsExact d (if b then l else m)
if-IsExact true d l m h k = h
if-IsExact false d l m h k = k

if_true-IsExact :
    (b d : Bool) (l m : Loop) → b ≡ true → IsExact d l → IsExact d (if b then l else m)
if_true-IsExact true d l m e h = h
if_true-IsExact false d l m e h = absurd (ground arith)

if_false-IsExact :
    (b d : Bool) (l m : Loop) → b ≡ false → IsExact d m → IsExact d (if b then l else m)
if_false-IsExact true d l m e h = absurd (ground arith)
if_false-IsExact false d l m e h = h

same-IsExact : (b d : Bool) (l : Loop) → b ≡ d → IsExact b l → IsExact d l
same-IsExact b d l e (flag, h) = (flag ∙ e, h ∙ e)

fail-IsExact : (b : Bool) (l : Loop) → IsExact b l → IsExact b (fail l)
unfolding fail
fail-IsExact b l h = if-IsExact (leb stale_threshold (l.consecutive_errors + 1)) b _ _ h h

gossip-IsExact :
    (c : Config) (a : Answers) (b : Bool) (l : Loop) → IsExact b l → IsExact b (sync_gossip c a l)
unfolding sync_gossip
gossip-IsExact c a b l h =
    if-IsExact _ b _ l
      (if-IsExact (not a.syncs_gossip) b _ _ h (if-IsExact a.stores_graph_again b _ _ h h)) h

graph-IsExact :
    (c : Config) (a : Answers) (b : Bool) (l : Loop) → IsExact b l → IsExact b (store_graph c a l)
unfolding store_graph succeed
graph-IsExact c a b l h =
    if-IsExact _ b _ _
      (if-IsExact (not a.stores_graph) b _ _ (fail-IsExact b l h) (
        if-IsExact (not a.stores_scorer) b _ _ (fail-IsExact b (note graph_stored l) h)
          (gossip-IsExact c a b (note scorer_stored (note graph_stored l)) h)))
      (gossip-IsExact c a b l h)

manager-IsExact :
    (c : Config) (a : Answers) (b : Bool) (l : Loop)
    → IsExact b l
    → IsExact ((b || a.needs) && not a.persists) (persist_manager c a l)
unfolding persist_manager
manager-IsExact c a b l (flag, e) = elim (Bool-cases (l.cm_needs_persist || a.needs)) [
  | inl p ↦ if_true-IsExact (l.cm_needs_persist || a.needs) _ _ _ p (elim (Bool-cases a.persists) [
    | inl q ↦ if_true-IsExact a.persists _ _ _ q (
        same-IsExact false _ (store_graph c a saved) (ground arith)
          (graph-IsExact c a false saved (refl, refl)))
    | inr q ↦ if_false-IsExact a.persists _ _ _ q (
        same-IsExact true _ (fail not_saved) (ground arith)
          (fail-IsExact true not_saved (refl, asked_unsaved p)))
  ])
  | inr p ↦
      if_false-IsExact (l.cm_needs_persist || a.needs) _ _ _ p
        (same-IsExact b _ (store_graph c a l) (ground arith) (graph-IsExact c a b l (flag, e)))
]
  where
    asked : Loop
    asked = noted_if (not l.cm_needs_persist && a.needs) needs_persistence l

    saved : Loop
    saved = note manager_persisted (record asked { cm_needs_persist = false })

    not_saved : Loop
    not_saved = note manager_not_persisted (record asked { cm_needs_persist = true })

    asked_unsaved : (l.cm_needs_persist || a.needs) ≡ true → unsaved asked.notes ≡ true
    asked_unsaved p = ground arith

rearm-IsExact : (b d : Bool) (l : Loop) → IsExact d l → IsExact d (rearm b l)
unfolding rearm
rearm-IsExact b d l h =
    if-IsExact (l.stopped || b) d _
      (note (waits l.current_backoff) (record l { stopped = l.stopped || b })) h h

-- What a tick leaves unsaved.
abbrev pub left_unsaved : Answers → SyncResult → Bool → Bool
left_unsaved a (tip hash) b = (b || a.needs) && not a.persists
left_unsaved a (threw aborted) b = b

sync-IsExact :
    (c : Config) (a : Answers) (r : SyncResult) (b : Bool) (l : Loop)
    → IsExact b l
    → IsExact (left_unsaved a r b) (after_sync c a r l)
unfolding after_sync
sync-IsExact c a (tip hash) b l h =
    manager-IsExact c a b
      (note rebroadcast_pending_claims
        (note timer_tick_occurred (record l { last_tip_hash = some hash })))
      h
sync-IsExact c a (threw true) b l h = fail-IsExact b (record l { last_tip_hash = none }) h
sync-IsExact c a (threw false) b l h = fail-IsExact b l h

tick-IsExact :
    (c : Config) (a : Answers) (b : Bool) (l : Loop)
    → l.stopped ≡ false
    → IsExact b l
    → IsExact (left_unsaved a a.sync b) (tick c a l)
unfolding tick ensure_rgs
tick-IsExact c a b l running h = if_false-IsExact l.stopped _ l _ running (
    rearm-IsExact a.stops (left_unsaved a a.sync b) _ (
      sync-IsExact c a a.sync b _ (
        if-IsExact (not c.has_rgs_url || l.rgs_handle || l.rgs_init_started) b l
          (record l { rgs_init_started = true }) h h)))

step-IsExact :
    (c : Config) (x : Step) (b : Bool) (l : Loop)
    → IsExact b l
    → (d : Bool) × IsExact d (step c x l)
unfolding step tick rgs_initialised
step-IsExact c (ticks a) b l h = elim (Bool-cases l.stopped) [
  | inl e ↦ (b, if_true-IsExact l.stopped b l _ e h)
  | inr e ↦ (left_unsaved a a.sync b, tick-IsExact c a b l e h)
]
step-IsExact c (rgs_ends true) b l h = (b, h)
step-IsExact c (rgs_ends false) b l h = (b, h)
step-IsExact c stop_called b l h = (b, h)

run-IsExact :
    (c : Config) (xs : List Step) (b : Bool) (l : Loop)
    → IsExact b l
    → (d : Bool) × IsExact d (run c xs l)
unfolding run
run-IsExact c [] b l h = (b, h)
run-IsExact c (x ∷ xs) b l h =
    let (d, k) = step-IsExact c x b l h in run-IsExact c xs d (step c x l) k

-- After any sequence of steps, a tick of the running loop leaves the channel manager unsaved exactly in
-- two cases: the chain sync goes through, the manager was unsaved or LDK says that it needs persistence,
-- and the write of a manager would fail; or the chain sync throws, and the manager was unsaved. So a
-- write that failed is made up for by the next tick whose chain sync goes through and whose write
-- does not fail, whatever LDK says then.
pub tick-Saves :
    (c : Config) (xs : List Step) (a : Answers)
    → (run c xs (init c)).stopped ≡ false
    → unsaved (tick c a (run c xs (init c))).notes
      ≡ left_unsaved a a.sync (unsaved (run c xs (init c)).notes)
tick-Saves c xs a running =
    let (d, (flag, e)) = run-IsExact c xs false (init c) (refl, refl) in
    (tick-IsExact c a d (run c xs (init c)) running (flag, e)).1
    ∙ ap (left_unsaved a a.sync) (sym e)
