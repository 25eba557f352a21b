-- ===== src/Mcp/ExecTool/Steps.antt =====
-- What execute_command writes to the audit and starts, from any state.
use raxd.Prelude.{
  ℕ, length, ◌≡◌, ◌∙◌, refl, Option, none, some, List, [], ◌∷◌, ◌++◌, arith, ◌⊎◌, inl, inr,
}
use raxd.Prelude.Exec.{Result, ok, err, when, ◌>>◌, Result-cases}
use raxd.Prelude.Int.{pos}
use raxd.CmdExec.{Config, Output, RunError, not_allowed, bad_cwd, not_found}
use raxd.CmdExec.Run.{Host, Spawn, run}
use raxd.CmdExec.Run.Spawning.{IsPermitted, run-ok, run-err}
use raxd.Server.Audit.{AuditRecord, Message, deny}
use raxd.Mcp.Caller.{Caller, Trace, Handler}
use raxd.Mcp.Caller.Accounts.{Accounted-refl, Steps, Closes, >>=-Steps, >>=-Closes, when-Steps}
use raxd.Mcp.ExecTool.{
  ExecInput, ExecOutput, exec_handler, exec_record, deny_with, warn_root, deny_root, check_count,
  check_timeout, root_check, too_long, too_many_message, too_long_message, timeout_message,
  check_lengths, limit_checks, report, run_command, run_input, run_timeout, over, effective_timeout,
}

abbrev log : Trace → List AuditRecord
log t = t.audits

module _ (host : Host) (cfg : Config) (caller : Caller) (input : ExecInput) where
  abbrev IsStep : {A : Type 0} → Handler A → Type 0
  IsStep m = Steps caller log m

  deny-Steps : (A : Type 0) (reason e : Message) → IsStep (deny_with {A = A} caller input reason e)
  deny-Steps A reason e t = record {
    new = exec_record caller input deny reason ∷ [];
    written = refl;
    signed = ((refl, refl), tt);
    final = refl;
  }

  warn_root-Steps : IsStep (warn_root caller input)
  warn_root-Steps t = record { new = _; written = refl; signed = ((refl, refl), tt); final = refl }

  deny_root-Steps : IsStep (deny_root caller input)
  deny_root-Steps t = record { new = _; written = refl; signed = ((refl, refl), tt); final = refl }

  root_check-Steps : IsStep (root_check host cfg caller input)
  root_check-Steps =
      when-Steps caller log host.is_root
        (warn_root caller input >> when cfg.deny_root (deny_root caller input))
        (>>=-Steps caller log (warn_root caller input)
          (λ u. when cfg.deny_root (deny_root caller input)) warn_root-Steps
          (λ u. when-Steps caller log cfg.deny_root (deny_root caller input) deny_root-Steps))

  check_lengths-Steps : (o : Option ℕ) → IsStep (check_lengths cfg caller input o)
  check_lengths-Steps none t = Accounted-refl caller t.audits
  check_lengths-Steps (some n) t =
      deny-Steps (Unit {0}) (too_long_message n cfg) (too_long_message n cfg) t

  check_count-Steps : IsStep (check_count cfg caller input)
  check_count-Steps =
      when-Steps caller log (over cfg.max_args (pos (length input.args))) _
        (deny-Steps (Unit {0}) (too_many_message input cfg) (too_many_message input cfg))

  check_timeout-Steps : IsStep (check_timeout cfg caller input)
  check_timeout-Steps =
      when-Steps caller log (over cfg.max_timeout_ms (effective_timeout cfg input)) _ (
        deny-Steps (Unit {0}) (timeout_message (effective_timeout cfg input) cfg)
          (timeout_message (effective_timeout cfg input) cfg))

  limit_checks-Steps : IsStep (limit_checks cfg caller input)
  limit_checks-Steps =
      >>=-Steps caller log (check_count cfg caller input)
        (λ u.
          check_lengths cfg caller input (too_long cfg.max_arg_len input.args)
          >> check_timeout cfg caller input)
        check_count-Steps
        (λ u.
          >>=-Steps caller log
            (check_lengths cfg caller input (too_long cfg.max_arg_len input.args))
            (λ v. check_timeout cfg caller input)
            (check_lengths-Steps (too_long cfg.max_arg_len input.args)) (λ v. check_timeout-Steps))

  report-Closes : (r : Result RunError Output) → Closes caller log (report caller input r)
  report-Closes (ok o) t = record {
    new = _;
    written = refl;
    signed = ((refl, refl), tt);
    final = refl;
  }
  report-Closes (err not_allowed) t = record {
    new = _;
    written = refl;
    signed = ((refl, refl), tt);
    final = refl;
  }
  report-Closes (err bad_cwd) t = record {
    new = _;
    written = refl;
    signed = ((refl, refl), tt);
    final = refl;
  }
  report-Closes (err not_found) t = record {
    new = _;
    written = refl;
    signed = ((refl, refl), tt);
    final = refl;
  }

  abbrev runs : Handler ExecOutput
  runs t = let (r, t') = run_command host cfg input t in report caller input r t'

  -- From any state, a call writes records of its caller, of which one is no warning.
  pub exec_handler-Closes : Closes caller log (exec_handler host cfg caller input)
  unfolding exec_handler
  exec_handler-Closes =
      >>=-Closes caller log (root_check host cfg caller input)
        (λ u. limit_checks cfg caller input >> runs) root_check-Steps
        (λ u.
          >>=-Closes caller log (limit_checks cfg caller input) (λ v. runs) limit_checks-Steps
            (λ v t.
              report-Closes (run_command host cfg input t).0 (run_command host cfg input t).1))

  abbrev ran : Trace → Result RunError Output × List Spawn
  ran t = run host (run_timeout cfg input) cfg (run_input cfg input) t.spawned

  spawned_cases :
      (t : Trace)
      → ((exec_handler host cfg caller input t).1.spawned ≡ t.spawned)
        ⊎ ((exec_handler host cfg caller input t).1.spawned ≡ (ran t).1)
  unfolding exec_handler
  spawned_cases t = ground arith

  -- A call starts at most one process, and one that Run permits.
  pub exec_handler_spawned :
      (t : Trace)
      → ((exec_handler host cfg caller input t).1.spawned ≡ t.spawned)
        ⊎ ((s : Spawn) × IsPermitted host (run_timeout cfg input) cfg (run_input cfg input) s
            × ((exec_handler host cfg caller input t).1.spawned ≡ t.spawned ++ s ∷ []))
  exec_handler_spawned t = elim (spawned_cases t) [
    | inl e ↦ inl e
    | inr e ↦ elim (Result-cases (ran t).0) [
      | inl (o, h) ↦
          let (s, p, q) =
            run-ok host (run_timeout cfg input) cfg (run_input cfg input) t.spawned h in
          inr (s, p, e ∙ q)
      | inr (x, h) ↦
          inl (e ∙ run-err host (run_timeout cfg input) cfg (run_input cfg input) t.spawned h)
    ]
  ]
