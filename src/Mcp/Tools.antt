-- ===== src/Mcp/Tools.antt =====
-- internal/mcp: withAudit of audit.go, and the handlers of ping and server_info of tools.go.
use raxd.Prelude.{Bool, true, false, Option, none, some, List, [], ◌∷◌, ◌++◌, Bytes}
use raxd.Server.Audit.{AuditRecord, Message, text, bytes, Verdict, success, fail, Tool, no_record}
use raxd.Mcp.Caller.{Caller}

-- `content` is the text block of a CallToolResult.
pub record ToolResult : Type 0 where
  pub content : Message
  pub is_error : Bool

-- What a handler returns besides its error; the result may be nil.
pub record Returned (Out : Type 0) : Type 0 where
  pub result : Option ToolResult
  pub out : Out
  pub error : Option Message

-- A handler over any state, and the records that it and its wrapper write, the oldest first.
abbrev pub ToolHandler : Type 0 → Type 0 → Type 0 → Type 0
ToolHandler S In Out = Caller → In → S × List AuditRecord → Returned Out × (S × List AuditRecord)

abbrev pub is_error_result : Option ToolResult → Bool
is_error_result none = false
is_error_result (some r) = r.is_error

abbrev pub verdict_of : {Out : Type 0} → Returned Out → Verdict
verdict_of r = elim r.error [
  | some e ↦ fail
  | none ↦ elim (is_error_result r.result) [ true ↦ fail | false ↦ success ]
]

abbrev pub reason_of : Option Message → Message
reason_of none = []
reason_of (some e) = e

abbrev pub tool_record : {Out : Type 0} → Tool → Caller → Returned Out → AuditRecord
tool_record name caller r = record no_record {
  fingerprint = caller.fingerprint;
  remote_addr = caller.remote_addr;
  result = verdict_of r;
  reason = reason_of r.error;
  tool = name;
}

unfoldable pub with_audit : {S In Out : Type 0} → Tool → ToolHandler S In Out → ToolHandler S In Out
with_audit name h caller input s =
    let (r, s') = h caller input s in (r, (s'.0, s'.1 ++ tool_record name caller r ∷ []))

abbrev pub answers : {Out : Type 0} → Message → Out → Returned Out
answers content out = record {
  result = some (record { content = content; is_error = false });
  out = out;
  error = none;
}

unfoldable pub ping_handler : {S : Type 0} → ToolHandler S (Unit {0}) (Unit {0})
ping_handler caller input s = (answers (text "pong" ∷ []) tt, s)

pub record ServerInfo : Type 0 where
  pub name : Message
  pub version : Bytes
  pub protocol_version : Message

abbrev pub protocol_version : Message
protocol_version = text "2025-11-25" ∷ []

unfoldable pub server_info_handler : {S : Type 0} → Bytes → ToolHandler S (Unit {0}) ServerInfo
server_info_handler ver caller input s = (
  answers (text "raxd " ∷ bytes ver ∷ text " (MCP " ∷ text "2025-11-25" ∷ text ")" ∷ [])
      (record { name = text "raxd" ∷ []; version = ver; protocol_version = protocol_version }),
  s,
)
