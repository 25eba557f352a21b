-- ===== src/Server/Audit.antt =====
-- internal/server/audit.go: the audit record, and the line that writeAudit gives to the logger.
pub mod Lines
use raxd.Prelude.{ℕ, String, Bool, false, Option, none, List, [], Bytes}
use raxd.Prelude.Int.{ℤ}

-- A text that the program puts together: fmt.Sprintf with its verbs filled in.
pub data Piece : Type 0 where
  text : String → Piece
  number : ℤ → Piece
  bytes : Bytes → Piece

abbrev pub Message : Type 0
Message = List Piece

-- The values of `Result`; `other` is any string else.
pub data Verdict : Type 0 where
  success fail deny warn rate_limited : Verdict
  other : String → Verdict

-- The values of `Tool`; `no_tool` is the empty string.
pub data Tool : Type 0 where
  no_tool ping server_info execute_command upload_file : Tool

-- Without the time stamp.
pub record AuditRecord : Type 0 where
  pub fingerprint : Bytes
  pub remote_addr : Bytes
  pub result : Verdict
  pub reason : Message
  pub tool : Tool
  pub command : Bytes
  pub args : List Bytes
  pub exit_code : Option ℤ
  pub duration : ℕ
  pub timed_out : Bool
  pub path : Bytes
  pub size : ℕ

-- The zero value of the struct.
abbrev pub no_record : AuditRecord
no_record = record {
  fingerprint = [];
  remote_addr = [];
  result = other "";
  reason = [];
  tool = no_tool;
  command = [];
  args = [];
  exit_code = none;
  duration = 0;
  timed_out = false;
  path = [];
  size = 0;
}
