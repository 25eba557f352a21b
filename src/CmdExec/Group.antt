-- ===== src/CmdExec/Group.antt =====
-- internal/cmdexec/sysproc_linux.go, sysproc_unix.go, sysproc_unix_other.go and sysproc_stub.go: the
-- group of a process that is started, with the operating system as a parameter.
pub mod Reaping
use raxd.Prelude.{ℕ, zero, suc, ◌+◌, Bool, true, false, Option, none, some, ltb, if◌then◌else◌}
use raxd.Prelude.Int.{ℤ, pos, ltb_ℤ}

-- The build that is used: linux, another unix, or neither.
pub data Platform : Type 0 where
  linux other_unix not_unix : Platform

-- The operating system, over a state of it. `start` is cmd.Start with the attribute Setpgid, `none`
-- where it fails; `wait` is cmd.Wait, which calls the function that it is given where the context is
-- done; `wait4` is that of any process of a group, with WNOHANG; `kill` sends SIGKILL to a group; `sleep` is given
-- nanoseconds, and `now` is the clock.
pub record Kernel (K : Type 0) : Type 0 where
  pub now : K → ℕ
  pub set_child_subreaper : K → K
  pub start : Bool → K → Option (ℕ × K)
  pub wait : (K → K) → ℕ → K → K
  pub wait4 : ℕ → K → ℤ × K
  pub kill : ℕ → K → K
  pub sleep : ℕ → K → K

abbrev pub reap_group_timeout : ℕ
reap_group_timeout = 200_000_000

abbrev pub reap_group_poll_interval : ℕ
reap_group_poll_interval = 1_000_000

-- The delay of cmd.Wait after Cancel.
abbrev pub wait_delay : Platform → ℕ
wait_delay linux = 5_000_000_000
wait_delay other_unix = 5_000_000_000
wait_delay not_unix = 0

-- What one turn of the loop does.
pub data Turn (K : Type 0) : Type 0 where
  goes_on stops : K → Turn K

module _ {K : Type 0} (os : Kernel K) where
  abbrev pub set_self_subreaper : Platform → K → K
  set_self_subreaper linux k = os.set_child_subreaper k
  set_self_subreaper other_unix k = k
  set_self_subreaper not_unix k = k

  -- Whether Setpgid is set in the attributes of the process.
  abbrev pub apply_process_group : Platform → K → Bool × K
  apply_process_group linux k = (true, set_self_subreaper linux k)
  apply_process_group other_unix k = (true, set_self_subreaper other_unix k)
  apply_process_group not_unix k = (false, k)

  abbrev pub kill_group : Platform → ℕ → K → K
  kill_group linux pgid k = os.kill pgid k
  kill_group other_unix pgid k = os.kill pgid k
  kill_group not_unix pgid k = k

  abbrev pub after_wait : ℤ × K → Turn K
  after_wait (pid, k) =
      if ltb_ℤ (pos 0) pid
      then goes_on k
      else if ltb_ℤ pid (pos 0)
      then stops k
      else goes_on (os.sleep reap_group_poll_interval k)

  -- One turn of the loop, before the deadline or after it.
  unfoldable pub turn : ℕ → ℕ → K → Turn K
  turn deadline pgid k = if ltb (os.now k) deadline then after_wait (os.wait4 pgid k) else stops k

  -- The loop on fuel; `none` where the fuel is used up.
  unfoldable pub reap_loop : ℕ → ℕ → ℕ → K → Option K
  unfolding turn
  reap_loop zero deadline pgid k = none
  reap_loop (suc n) deadline pgid k = elim (turn deadline pgid k) [
    | goes_on l ↦ reap_loop n deadline pgid l
    | stops l ↦ some l
  ]

  unfoldable pub reap_group_orphans : Platform → ℕ → ℕ → K → Option K
  unfolding reap_loop
  reap_group_orphans linux n pgid k = reap_loop n (os.now k + reap_group_timeout) pgid k
  reap_group_orphans other_unix n pgid k = some k
  reap_group_orphans not_unix n pgid k = some k

  abbrev pub waited : Platform → ℕ → Option (ℕ × K) → Option K
  waited p n none = none
  waited p n (some (pid, k)) = reap_group_orphans p n pid (os.wait (kill_group p pid) pid k)

  -- Run from the process group to the reaping; `none` where cmd.Start fails or the fuel is used up.
  unfoldable pub run_group : Platform → ℕ → K → Option K
  unfolding reap_group_orphans
  run_group p n k = let (setpgid, l) = apply_process_group p k in waited p n (os.start setpgid l)
