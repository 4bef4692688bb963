-- ===== src/Storage/Recovery/Deposit.antt =====
-- The deposit of `roundUpDepositNeeded` in src/ldk/recovery/recovery-state.ts.
use browser_wallet.Prelude.{ℕ, ◌*◌, ◌%◌, ◌≤◌, ◌≡◌, arith}
use browser_wallet.Storage.Recovery.{round_up_deposit_needed}

-- The deposit is the least multiple of 5000 satoshis that is at least one and a half times what is
-- needed, so that it exceeds that by less than 5000.
pub round_up_deposit_needed-bounds :
    (n : ℕ)
    → (round_up_deposit_needed n % 5000 ≡ 0)
      × (n * 3 ≤ round_up_deposit_needed n * 2)
      × ((m : ℕ) → m % 5000 ≡ 0 → n * 3 ≤ m * 2 → round_up_deposit_needed n ≤ m)
unfolding round_up_deposit_needed
round_up_deposit_needed-bounds n = (omega arith, omega arith, λ m h k. omega arith)
