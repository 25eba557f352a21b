-- ===== src/Server/Audit/Lines.antt =====
-- internal/server/audit.go: writeAudit, as the line that it gives to the logger, and formatArgs.
pub mod Fields
use raxd.Prelude.{
  ℕ, Bool, true, false, Option, none, some, List, [], ◌∷◌, ◌++◌, Bytes, String, codes,
}
use raxd.Prelude.Int.{ℤ, pos}
use raxd.Server.Audit.{
  Message, text, Verdict, success, fail, deny, warn, rate_limited, other, Tool, no_tool, ping,
  server_info, execute_command, upload_file, AuditRecord,
}

pub data Level : Type 0 where
  info warning : Level

-- The keys of the pairs that the logger is given.
pub data Key : Type 0 where
  fp remote tool result reason command args exit_code duration timed_out path size : Key

pub data Value : Type 0 where
  of_bytes : Bytes → Value
  of_message : Message → Value
  of_tool : Tool → Value
  of_number : ℤ → Value
  of_duration : ℕ → Value
  of_flag : Bool → Value

pub record Line : Type 0 where
  pub level : Level
  pub label : String
  pub fields : List (Key × Value)

-- joinStrings: the separator stands before all but the first.
abbrev pub join_rest : Bytes → List Bytes → Bytes
join_rest sep [] = []
join_rest sep (s ∷ ss) = sep ++ s ++ join_rest sep ss

unfoldable pub join_strings : List Bytes → Bytes → Bytes
join_strings [] sep = []
join_strings (s ∷ ss) sep = s ++ join_rest sep ss

unfoldable pub format_args : List Bytes → Bytes
unfolding join_strings
format_args [] = codes "[]"
format_args (a ∷ as_) = codes "[" ++ join_strings (a ∷ as_) (codes ",") ++ codes "]"

abbrev pub or_dash : Bytes → Bytes
or_dash [] = codes "-"
or_dash (c ∷ cs) = c ∷ cs

abbrev pub or_zero : Option ℤ → ℤ
or_zero none = pos 0
or_zero (some n) = n

-- fp and remote, then the rest.
abbrev pub line : Level → String → AuditRecord → List (Key × Value) → Line
line level label rec rest = record {
  level = level;
  label = label;
  fields = (fp, of_bytes (or_dash rec.fingerprint)) ∷ (remote, of_bytes rec.remote_addr) ∷ rest;
}

abbrev pub ok_fields : AuditRecord → List (Key × Value) → List (Key × Value)
ok_fields rec rest = (tool, of_tool rec.tool) ∷ (result, of_message (text "ok" ∷ [])) ∷ rest

abbrev pub success_line : AuditRecord → Tool → Line
success_line rec no_tool = line info "AUTH" rec []
success_line rec execute_command = line info "MCP" rec (
    ok_fields rec (
      (command, of_bytes rec.command)
      ∷ (args, of_bytes (format_args rec.args))
      ∷ (exit_code, of_number (or_zero rec.exit_code))
      ∷ (duration, of_duration rec.duration)
      ∷ (timed_out, of_flag rec.timed_out)
      ∷ []))
success_line rec upload_file =
    line info "MCP" rec
      (ok_fields rec ((path, of_bytes rec.path) ∷ (size, of_number (pos rec.size)) ∷ []))
success_line rec ping = line info "MCP" rec (ok_fields rec [])
success_line rec server_info = line info "MCP" rec (ok_fields rec [])

abbrev pub path_field : Bytes → List (Key × Value)
path_field [] = []
path_field (c ∷ cs) = (path, of_bytes (c ∷ cs)) ∷ []

abbrev pub because : AuditRecord → List (Key × Value) → List (Key × Value)
because rec rest = (reason, of_message rec.reason) ∷ rest

-- The cases "warn", "fail" and "deny", which differ in the label.
abbrev pub trouble_line : String → AuditRecord → Tool → Line
trouble_line label rec execute_command = line warning label rec (
    (tool, of_tool rec.tool)
    ∷ because rec ((command, of_bytes rec.command) ∷ (args, of_bytes (format_args rec.args)) ∷ []))
trouble_line label rec upload_file =
    line warning label rec ((tool, of_tool rec.tool) ∷ because rec (path_field rec.path))
trouble_line label rec no_tool = line warning label rec (because rec [])
trouble_line label rec ping = line warning label rec (because rec [])
trouble_line label rec server_info = line warning label rec (because rec [])

abbrev pub line_of : AuditRecord → Verdict → Line
line_of rec success = success_line rec rec.tool
line_of rec warn = trouble_line "WARN" rec rec.tool
line_of rec fail = trouble_line "FAIL" rec rec.tool
line_of rec deny = trouble_line "DENY" rec rec.tool
line_of rec rate_limited = line warning "RATE" rec (because rec [])
line_of rec (other s) = line warning "DENY" rec (because rec [])

unfoldable pub write_audit : AuditRecord → Line
unfolding format_args
write_audit rec = line_of rec rec.result
