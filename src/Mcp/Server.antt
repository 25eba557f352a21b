-- ===== src/Mcp/Server.antt =====
-- internal/mcp/server.go: NewHandler, with the tools that it registers.
pub mod Calls
pub mod Tools
use raxd.Prelude.{ℕ, suc, Option, none, some, List, [], ◌∷◌, ◌++◌, Bytes, String}
use raxd.Prelude.Exec.{Result}
use raxd.CmdExec.{Config as ExecConfig}
use raxd.CmdExec.Run.{Spawn, Host as ExecHost}
use raxd.FileUpload.{Config as UploadConfig}
use raxd.FileUpload.Root.{Tree}
use raxd.Server.Audit.{AuditRecord, Message, Tool}
use raxd.Server.Request.{Request, Context, fingerprint_from_ctx, remote_addr_from_ctx}
use raxd.Server.Pipeline.{Reply, McpHandler}
use raxd.Mcp.Caller.{Caller, Trace}
use raxd.Mcp.Tools.{Returned, ServerInfo, with_audit, ping_handler, server_info_handler}
use raxd.Mcp.ExecTool.{ExecInput, ExecOutput, exec_handler}
use raxd.Mcp.UploadTool.{UploadInput, UploadOutput, Site, Host as UploadHost, upload_handler}

-- A call of a registered tool, with arguments that its schema takes.
pub data ToolCall : Type 0 where
  calls_ping calls_server_info : ToolCall
  calls_execute_command : ExecInput → ToolCall
  calls_upload_file : UploadInput → ToolCall

-- What the handler of a tool has returned.
pub data ToolReply : Type 0 where
  of_ping : Returned (Unit {0}) → ToolReply
  of_server_info : Returned ServerInfo → ToolReply
  of_execute_command : Result Message ExecOutput → ToolReply
  of_upload_file : Result Message UploadOutput → ToolReply

-- The MCP SDK: the calls of tools that a request asks for, in the order in which they are made, and
-- the reply to the request with what they returned. A request that is no call of a registered tool,
-- or whose arguments the schema refuses, asks for none.
pub record Sdk : Type 0 where
  pub reads : Request → List ToolCall
  pub answers : Request → List ToolReply → Reply

-- What the handler at /mcp works on: the audit records of tools and the processes that were
-- started, the oldest first, the upload root, and how many tools were called.
pub record Daemon : Type 0 where
  pub audits : List AuditRecord
  pub spawned : List Spawn
  pub tree : Tree
  pub calls : ℕ

-- What one call of a tool meets. `leaves` is what becomes of the upload root outside the daemon while
-- a command is run, by its processes or others; it is a tree again, so that no links are made.
pub record Machine : Type 0 where
  pub exec_host : ExecHost
  pub upload_host : UploadHost
  pub leaves : Tree → Tree

-- The SDK hands the context of the request on to the handler of a tool.
abbrev pub caller_of : Context → Caller
caller_of ctx = record {
  fingerprint = fingerprint_from_ctx ctx;
  remote_addr = remote_addr_from_ctx ctx;
}

-- `meets n` is what the call after n calls meets; nothing of it need be the same in the next one.
module _ (meets : ℕ → Machine) (ver : Bytes) (exec_cfg : ExecConfig) (upl_cfg : UploadConfig) where
  unfoldable pub run_ping : Caller → Daemon → ToolReply × Daemon
  unfolding with_audit ping_handler
  run_ping caller d =
      let (r, (x, records)) = with_audit Tool.ping ping_handler caller tt (tt, d.audits) in
      (of_ping r, record d { audits = records; calls = suc d.calls })

  unfoldable pub run_server_info : Caller → Daemon → ToolReply × Daemon
  unfolding with_audit server_info_handler
  run_server_info caller d =
      let (r, (x, records)) =
        with_audit Tool.server_info (server_info_handler ver) caller tt (tt, d.audits) in
      (of_server_info r, record d { audits = records; calls = suc d.calls })

  unfoldable pub run_execute_command : Caller → ExecInput → Daemon → ToolReply × Daemon
  unfolding exec_handler
  run_execute_command caller input d =
      let (r, t) =
        exec_handler (meets d.calls).exec_host exec_cfg caller input
          (record { audits = d.audits; spawned = d.spawned }) in
      (
        of_execute_command r,
        record d {
          audits = t.audits;
          spawned = t.spawned;
          tree = (meets d.calls).leaves d.tree;
          calls = suc d.calls;
        },
      )

  unfoldable pub run_upload_file : Caller → UploadInput → Daemon → ToolReply × Daemon
  unfolding upload_handler
  run_upload_file caller input d =
      let (r, t) =
        upload_handler (meets d.calls).upload_host upl_cfg caller input
          (record { audits = d.audits; tree = d.tree }) in
      (of_upload_file r, record d { audits = t.audits; tree = t.tree; calls = suc d.calls })

  -- The handlers that AddTool registers.
  abbrev pub call_tool : Caller → ToolCall → Daemon → ToolReply × Daemon
  call_tool caller calls_ping = run_ping caller
  call_tool caller calls_server_info = run_server_info caller
  call_tool caller (calls_execute_command input) = run_execute_command caller input
  call_tool caller (calls_upload_file input) = run_upload_file caller input

  unfoldable pub call_tools : Caller → List ToolCall → Daemon → List ToolReply × Daemon
  unfolding run_ping run_server_info run_execute_command run_upload_file
  call_tools caller [] d = ([], d)
  call_tools caller (c ∷ cs) d =
      let (r, e) = call_tool caller c d in let (rs, f) = call_tools caller cs e in (r ∷ rs, f)

  unfoldable pub new_handler : Sdk → McpHandler Daemon
  unfolding call_tools
  new_handler sdk r ctx d =
      let (rs, e) = call_tools (caller_of ctx) (sdk.reads r) d in (sdk.answers r rs, e)
