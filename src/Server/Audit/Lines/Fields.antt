-- ===== src/Server/Audit/Lines/Fields.antt =====
-- Which fields a line has.
use raxd.Prelude.{◌≡◌, refl, Bool, true, false, ◌↔◌, List, ◌∷◌, ◌++◌, Bytes, codes, arith, All}
use mathlib.Core.List.{append_assoc}
use raxd.Server.Audit.{
  success, Tool, no_tool, ping, server_info, execute_command, upload_file, AuditRecord,
}
use raxd.Server.Audit.Lines.{
  Key, fp, remote, tool, result, reason, command, args, exit_code, duration, timed_out, path, size,
  Value, info, write_audit, join_strings, format_args,
}

abbrev pub is_exec : Tool → Bool
is_exec execute_command = true
is_exec no_tool = false
is_exec ping = false
is_exec server_info = false
is_exec upload_file = false

abbrev pub is_upload : Tool → Bool
is_upload upload_file = true
is_upload no_tool = false
is_upload ping = false
is_upload server_info = false
is_upload execute_command = false

abbrev pub is_named : Tool → Bool
is_named no_tool = false
is_named ping = true
is_named server_info = true
is_named execute_command = true
is_named upload_file = true

-- The records for which a key may stand in the line.
abbrev pub belongs : Tool → Key → Bool
belongs t fp = true
belongs t remote = true
belongs t reason = true
belongs t tool = is_named t
belongs t result = is_named t
belongs t command = is_exec t
belongs t args = is_exec t
belongs t exit_code = is_exec t
belongs t duration = is_exec t
belongs t timed_out = is_exec t
belongs t path = is_upload t
belongs t size = is_upload t

abbrev pub HasOwnFields : Tool → List (Key × Value) → Type 0
HasOwnFields t = All (λ f. belongs t f.0 ≡ true)

-- A line has the fields of a command only for execute_command, those of a file only for
-- upload_file, and a tool or a result only for a record that names a tool. It has the level of
-- information exactly if the record is a success.
pub write_audit_lem :
    (rec : AuditRecord)
    → HasOwnFields rec.tool (write_audit rec).fields
      × (((write_audit rec).level ≡ info) ↔ (rec.result ≡ success))
unfolding write_audit
write_audit_lem rec = ground arith

-- Two arguments give the same line as one argument with a comma: the line does not tell them apart.
pub format_args-comma :
    (a b : Bytes) (rest : List Bytes)
    → format_args ((a ++ codes "," ++ b) ∷ rest) ≡ format_args (a ∷ b ∷ rest)
unfolding format_args join_strings
format_args-comma a b rest = simp append_assoc refl
