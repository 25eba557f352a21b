-- ===== src/Mcp/ExecTool/Accounting.antt =====
-- The audit of execute_command: one final record to a call, which tells how the call ended.
use raxd.Prelude.{◌≡◌, [], ◌∷◌, arith, ◌⊎◌}
use raxd.Prelude.Exec.{ok, err}
use raxd.CmdExec.{Config}
use raxd.CmdExec.Run.{Host}
use raxd.Server.Audit.{Message, success, fail, deny}
use raxd.Mcp.Caller.{Caller, no_trace, finals}
use raxd.Mcp.ExecTool.{ExecInput, ExecOutput, exec_handler}

module _ (host : Host) (cfg : Config) (caller : Caller) (input : ExecInput) where
  -- A call that returns an output has written one record that is no warning: a success.
  pub exec_handler-success :
      {o : ExecOutput}
      → (exec_handler host cfg caller input no_trace).0 ≡ ok o
      → finals (exec_handler host cfg caller input no_trace).1.audits ≡ success ∷ []
  unfolding exec_handler
  exec_handler-success h = ground arith

  -- A call that returns an error has written one record that is no warning: a deny or a fail.
  pub exec_handler-error :
      {e : Message}
      → (exec_handler host cfg caller input no_trace).0 ≡ err e
      → (finals (exec_handler host cfg caller input no_trace).1.audits ≡ deny ∷ [])
        ⊎ (finals (exec_handler host cfg caller input no_trace).1.audits ≡ fail ∷ [])
  unfolding exec_handler
  exec_handler-error h = ground arith
