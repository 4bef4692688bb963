-- ===== src/Storage/Recovery.antt =====
-- src/ldk/recovery/recovery-state.ts: what is kept about a force-close recovery, written to IndexedDB
-- and then, as far as possible, to VSS; and the deposit that the user is asked for. The state is given
-- as its encoded bytes.
pub mod Kept
pub mod Deposit
mod Tests
use browser_wallet.Prelude.{ℕ, ◌+◌, ◌*◌, ◌/◌, String, Bool, Option, List, ◌∷◌, if◌then◌else◌}
use browser_wallet.Storage.Remote.{
  Bytes, Failure, conflict, unavailable, Result, ok, err, Remote, version,
}

abbrev pub vss_key : String
vss_key = "force_close_recovery"

-- The store and the key in IndexedDB.
abbrev pub idb_key : String
idb_key = "ldk_force_close_recovery/state"

-- `captureError` by its message.
pub data Report : Type 0 where
  retry_failed vss_write_failed : Report

module _ (r : Remote) where
  -- `vssVersion`, the stores, and the reports, newest first.
  pub record Recovery : Type 0 where
    pub vss_version : ℕ
    pub world : r.World
    pub reports : List Report

module _ {r : Remote} where
  abbrev pub capture : Report → Recovery r → Recovery r
  capture x s = record s { reports = x ∷ s.reports }

  pub take_version : Result ℕ → Recovery r → Result (Unit {0}) × Recovery r
  take_version (ok v) s = (ok tt, record s { vss_version = v })
  take_version (err e) s = (err e, s)

  pub put_state : Bytes → Recovery r → Result (Unit {0}) × Recovery r
  unfolding take_version
  put_state state s =
      let (x, w) = r.put_object vss_key state s.vss_version s.world in
      take_version x (record s { world = w })

  pub give_up : Result (Unit {0}) × Recovery r → Recovery r
  give_up (ok _, s) = s
  give_up (err _, s) = capture retry_failed s

  -- `vssVersion = result?.version ?? 0`, and the second attempt.
  pub retry : Bytes → Result (Option (Bytes × ℕ)) → Recovery r → Recovery r
  unfolding put_state give_up
  retry state (ok o) s = give_up (put_state state (record s { vss_version = version o }))
  retry state (err _) s = capture retry_failed s

  -- The `catch` block.
  pub on_vss_failure : Bytes → Result (Unit {0}) × Recovery r → Recovery r
  unfolding retry
  on_vss_failure state (ok _, s) = s
  on_vss_failure state (err conflict, s) =
      let (x, w) = r.get_object vss_key s.world in retry state x (record s { world = w })
  on_vss_failure state (err unavailable, s) = capture vss_write_failed s

  pub behind_idb : Bool → Bytes → Result (Unit {0}) × Recovery r → Result (Unit {0}) × Recovery r
  unfolding on_vss_failure
  behind_idb linked state (ok _, s) =
      (ok tt, if linked then on_vss_failure state (put_state state s) else s)
  behind_idb linked state (err e, s) = (err e, s)

  -- `linked`: there is a VSS client.
  pub write_recovery_state : Bool → Bytes → Recovery r → Result (Unit {0}) × Recovery r
  unfolding behind_idb
  write_recovery_state linked state s =
      let (x, w) = r.idb_put idb_key state s.world in
      behind_idb linked state (x, record s { world = w })

-- Whole satoshis: `Math.ceil(exactSats * 1.5)` is half of the triple, rounded up.
pub round_up_deposit_needed : ℕ → ℕ
round_up_deposit_needed exact_sats =
    let buffered = (exact_sats * 3 + 1) / 2 in (buffered + 4999) / 5000 * 5000
