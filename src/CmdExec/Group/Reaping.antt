-- ===== src/CmdExec/Group/Reaping.antt =====
-- That the loop of reapGroupOrphans ends, and how.
use raxd.Prelude.{ℕ, ◌≡◌, ◌≤◌, ◌<◌, true, ◌⊎◌}
use raxd.Prelude.Int.{pos, ltb_ℤ}
use raxd.CmdExec.Group.{Kernel, Turn, goes_on, stops}

-- The monotonic clock, in nanoseconds: it advances during a call of wait4, and does not run back in
-- a sleep. Nothing is said of the processes of the group, which may start others.
pub record Promises {K : Type 0} (os : Kernel K) : Type 0 where
  pub passes : (g : ℕ) (k : K) → os.now k < os.now (os.wait4 g k).1
  pub sleeps : (n : ℕ) (k : K) → os.now k ≤ os.now (os.sleep n k)

module _ {K : Type 0} (os : Kernel K) (promises : Promises os) where
  -- The deadline is over, or wait4 has just told that the group has no child, or failed.
  abbrev pub IsDone : ℕ → ℕ → K → Type 0
  IsDone deadline g l =
      (deadline ≤ os.now l)
      ⊎ ((k : K) × (l ≡ (os.wait4 g k).1) × (ltb_ℤ (os.wait4 g k).0 (pos 0) ≡ true))

  -- How a turn ends.
  abbrev IsTurn : ℕ → ℕ → K → Turn K → Type 0
  IsTurn deadline g k (goes_on l) = (os.now k < os.now l) × (os.now k < deadline)
  IsTurn deadline g k (stops l) = IsDone deadline g l
