-- ===== src/Mcp/Server/Calls.antt =====
-- What the calls of one request leave.
use raxd.Prelude.{
  ℕ, ◌+◌, ◌^◌, ◌≡◌, ◌≤◌, ◌<◌, ◌∙◌, refl, sym, ap, false, List, [], ◌∷◌, ◌++◌, Bytes, length, All,
  append-nil, append_assoc, arith, inl, inr,
}
use raxd.Prelude.Int.{pos}
use raxd.CmdExec.{Config as ExecConfig}
use raxd.CmdExec.Run.{Spawn}
use raxd.CmdExec.Run.Spawning.{IsPermitted}
use raxd.FileUpload.{Config as UploadConfig}
use raxd.FileUpload.Root.{Tree, total}
use raxd.FileUpload.Write.History.{write-le}
use raxd.Mcp.Caller.{Caller}
use raxd.Mcp.Caller.Accounts.{Accounted, Accounted-refl, Accounted-trans}
use raxd.Mcp.ExecTool.{ExecInput, run_input, run_timeout}
use raxd.Mcp.ExecTool.Steps.{exec_handler-Closes, exec_handler_spawned}
use raxd.Mcp.UploadTool.{UploadInput}
use raxd.Mcp.UploadTool.Steps.{upload_handler-Closes, upload_handler_tree}
use raxd.Mcp.Server.{
  ToolCall, calls_ping, calls_server_info, calls_execute_command, calls_upload_file, Daemon,
  Machine, run_ping, run_server_info, run_execute_command, run_upload_file, call_tool, call_tools,
}

module _ (meets : ℕ → Machine) (ver : Bytes) (exec_cfg : ExecConfig) (upl_cfg : UploadConfig)
    (caller : Caller) where
  -- A process that a call of execute_command may start.
  abbrev pub IsCommanded : Spawn → Type 0
  IsCommanded s =
      (n : ℕ) × (input : ExecInput) × IsPermitted (meets n).exec_host (run_timeout exec_cfg input)
        exec_cfg (run_input exec_cfg input) s

  -- From one state of the daemon to another, through `n` calls of the caller.
  pub record Served (d e : Daemon) (n : ℕ) : Type 0 where
    pub audited : Accounted caller d.audits e.audits n
    pub started : List Spawn
    pub commanded : All IsCommanded started
    pub spawned : e.spawned ≡ d.spawned ++ started

  ping-Served : (d : Daemon) → Served d (run_ping meets ver exec_cfg upl_cfg caller d).1 1
  unfolding run_ping
  ping-Served d = record {
    audited = record { new = _; written = refl; signed = ((refl, refl), tt); final = refl };
    started = [];
    commanded = tt;
    spawned = sym (append-nil d.spawned);
  }

  info-Served : (d : Daemon) → Served d (run_server_info meets ver exec_cfg upl_cfg caller d).1 1
  unfolding run_server_info
  info-Served d = record {
    audited = record { new = _; written = refl; signed = ((refl, refl), tt); final = refl };
    started = [];
    commanded = tt;
    spawned = sym (append-nil d.spawned);
  }

  exec-Served :
      (input : ExecInput) (d : Daemon)
      → Served d (run_execute_command meets ver exec_cfg upl_cfg caller input d).1 1
  unfolding run_execute_command
  exec-Served input d =
      let host = (meets d.calls).exec_host in
      let a =
        exec_handler-Closes host exec_cfg caller input
          (record { audits = d.audits; spawned = d.spawned }) in
      elim (exec_handler_spawned host exec_cfg caller input
        (record { audits = d.audits; spawned = d.spawned })) [
          | inl e ↦ record {
            audited = a;
            started = [];
            commanded = tt;
            spawned = e ∙ sym (append-nil d.spawned);
          }
          | inr (s, p, e) ↦ record {
            audited = a;
            started = s ∷ [];
            commanded = ((d.calls, input, p), tt);
            spawned = e;
          }
        ]

  upload-Served :
      (input : UploadInput) (d : Daemon)
      → Served d (run_upload_file meets ver exec_cfg upl_cfg caller input d).1 1
  unfolding run_upload_file
  upload-Served input d = record {
    audited =
        upload_handler-Closes (meets d.calls).upload_host upl_cfg caller input
          (record { audits = d.audits; tree = d.tree });
    started = [];
    commanded = tt;
    spawned = sym (append-nil d.spawned);
  }

  call_tool-Served :
      (c : ToolCall) (d : Daemon) → Served d (call_tool meets ver exec_cfg upl_cfg caller c d).1 1
  call_tool-Served calls_ping d = ping-Served d
  call_tool-Served calls_server_info d = info-Served d
  call_tool-Served (calls_execute_command input) d = exec-Served input d
  call_tool-Served (calls_upload_file input) d = upload-Served input d

  All_append :
      (xs ys : List Spawn) → All IsCommanded xs → All IsCommanded ys → All IsCommanded (xs ++ ys)
  All_append [] ys a b = b
  All_append (x ∷ xs) ys a b = (a.0, All_append xs ys a.1 b)

  Served-trans :
      {d e f : Daemon} {m n k : ℕ} → Served d e m → Served e f n → m + n ≡ k → Served d f k
  Served-trans {d} x y q = record {
    audited = Accounted-trans caller x.audited y.audited q;
    started = x.started ++ y.started;
    commanded = All_append x.started y.started x.commanded y.commanded;
    spawned =
        y.spawned
        ∙ (ap (λ l. l ++ y.started) x.spawned ∙ append_assoc d.spawned x.started y.started);
  }

  -- Any calls of tools by a caller write records that are signed by it, of which as many as there
  -- are calls are no warnings, and start only processes that Run permits.
  pub call_tools-Served :
      (cs : List ToolCall) (d : Daemon)
      → Served d (call_tools meets ver exec_cfg upl_cfg caller cs d).1 (length cs)
  unfolding call_tools
  call_tools-Served [] d = record {
    audited = Accounted-refl caller d.audits;
    started = [];
    commanded = tt;
    spawned = sym (append-nil d.spawned);
  }
  call_tools-Served (c ∷ cs) d =
      let e = (call_tool meets ver exec_cfg upl_cfg caller c d).1 in
      Served-trans (call_tool-Served c d) (call_tools-Served cs e) (omega arith)

  module _ (m k : ℕ) (limited : upl_cfg.max_total_bytes ≡ pos m) (positive : 0 < m)
      (small : upl_cfg.max_file_bytes ≡ pos k) (fits : m + k < 2 ^ 63)
      (removes : (n : ℕ) → (meets n).upload_host.faults.remove_fails ≡ false)
      (behaves : (n : ℕ) (t : Tree) → total t ≤ m → total ((meets n).leaves t) ≤ m) where
    upload_tree-le :
        (input : UploadInput) (d : Daemon)
        → total d.tree ≤ m
        → total (run_upload_file meets ver exec_cfg upl_cfg caller input d).1.tree ≤ m
    unfolding run_upload_file
    upload_tree-le input d h =
        let host = (meets d.calls).upload_host in
        elim (upload_handler_tree host upl_cfg caller input
          (record { audits = d.audits; tree = d.tree })) [
            | inl e ↦ rw e h
            | inr (i, e) ↦ rw e (
                write-le upl_cfg m k limited positive small fits
                  (record { faults = host.faults; drawn = host.drawn; input = i }) d.tree
                  (removes d.calls) h)
          ]

    pub call_tools-le :
        (cs : List ToolCall) (d : Daemon)
        → total d.tree ≤ m
        → total (call_tools meets ver exec_cfg upl_cfg caller cs d).1.tree ≤ m
    unfolding call_tools run_ping run_server_info run_execute_command
    call_tools-le [] d h = h
    call_tools-le (calls_ping ∷ cs) d h =
        call_tools-le cs (run_ping meets ver exec_cfg upl_cfg caller d).1 h
    call_tools-le (calls_server_info ∷ cs) d h =
        call_tools-le cs (run_server_info meets ver exec_cfg upl_cfg caller d).1 h
    call_tools-le (calls_execute_command i ∷ cs) d h =
        call_tools-le cs (run_execute_command meets ver exec_cfg upl_cfg caller i d).1
          (behaves d.calls d.tree h)
    call_tools-le (calls_upload_file i ∷ cs) d h =
        call_tools-le cs (run_upload_file meets ver exec_cfg upl_cfg caller i d).1
          (upload_tree-le i d h)
