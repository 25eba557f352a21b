-- ===== src/Mcp/UploadTool.antt =====
-- internal/mcp/upload_tool.go: the handler of the tool upload_file.
pub mod Reports
pub mod Steps
use raxd.Prelude.{
  ℕ, Bool, true, false, Option, none, some, List, [], ◌∷◌, ◌++◌, Bytes, length, codes,
}
use raxd.Prelude.Exec.{Exec, Result, ok, err, pure, raise, lift, when, ◌>>=◌, ◌>>◌}
use raxd.Prelude.Int.{ℤ, pos, ltb_ℤ}
use raxd.FileUpload.{
  Config, Input, Written, UploadError, traversal, exists, is_dir, too_large, bad_mode,
  quota_exceeded, io,
}
use raxd.FileUpload.Mode.{parse_mode, format_mode}
use raxd.FileUpload.Root.{Tree, Faults}
use raxd.FileUpload.Write.{write}
use raxd.Server.Audit.{
  AuditRecord, Message, text, number, Verdict, success, fail, deny, warn, upload_file, no_record,
}
use raxd.Mcp.Caller.{Caller}
use raxd.Mcp.Base64.{decode_string, decoded_len}

pub record UploadInput : Type 0 where
  pub path : Bytes
  pub content : Bytes
  pub overwrite : Bool
  pub mode : Bytes

pub record UploadOutput : Type 0 where
  pub path : Bytes
  pub size : ℕ
  pub overwritten : Bool
  pub mode : Bytes

-- The audit records written during a call, the oldest first, and the upload root.
pub record Site : Type 0 where
  pub audits : List AuditRecord
  pub tree : Tree

abbrev pub Handler : Type 0 → Type 0
Handler A = Exec Message Site A

-- What is outside: whether the process is root, the faults of the write and its random bytes.
pub record Host : Type 0 where
  pub is_root : Bool
  pub faults : Faults
  pub drawn : Bytes

abbrev pub audit : AuditRecord → Handler (Unit {0})
audit r s = (ok tt, record s { audits = s.audits ++ r ∷ [] })

abbrev pub upload_record : Caller → Bytes → Verdict → Message → AuditRecord
upload_record caller path result reason = record no_record {
  fingerprint = caller.fingerprint;
  remote_addr = caller.remote_addr;
  result = result;
  reason = reason;
  tool = upload_file;
  path = path;
}

-- A deny record, then the error with the same text.
abbrev pub refuse : {A : Type 0} → Caller → UploadInput → Message → Message → Handler A
refuse caller input reason e = do audit (upload_record caller input.path deny reason); raise e

abbrev pub warn_root : Caller → UploadInput → Handler (Unit {0})
warn_root caller input = audit (
    upload_record caller [] warn (
      text "running-as-root: raxd writing files as root (euid==0); ensure raxd runs as non-root"
      ∷ []))

abbrev pub deny_root : Caller → UploadInput → Handler (Unit {0})
deny_root caller input =
    refuse caller input (text "upload as root is forbidden by policy (deny_root=true)" ∷ [])
      (text "upload as root is forbidden by policy" ∷ [])

abbrev pub root_check : Host → Config → Caller → UploadInput → Handler (Unit {0})
root_check host cfg caller input =
    when host.is_root do warn_root caller input; when cfg.deny_root (deny_root caller input)

-- `limit < n`; shut in the proofs about the order of the checks.
unfoldable pub over : ℤ → ℕ → Bool
over limit n = ltb_ℤ limit (pos n)

abbrev pub too_large_message : Message
too_large_message = text "file too large: exceeds max_file_bytes" ∷ []

abbrev pub or_refuse : {A : Type 0} → Caller → UploadInput → Message → Option A → Handler A
or_refuse caller input reason (some a) = pure a
or_refuse caller input reason none = refuse caller input reason reason

abbrev pub check_size : Config → Caller → UploadInput → ℕ → Handler (Unit {0})
check_size cfg caller input n =
    when (over cfg.max_file_bytes n) (refuse caller input too_large_message too_large_message)

-- The size by DecodedLen, the decoding, and the size of what was decoded.
unfoldable pub read_content : Config → Caller → UploadInput → Handler Bytes
read_content cfg caller input = do
  check_size cfg caller input (decoded_len (length input.content))
  decoded ←
      or_refuse caller input (text "invalid base64 content" ∷ []) (decode_string input.content)
  check_size cfg caller input (length decoded)
  pure decoded

abbrev pub mode_of : Config → Bytes → Option ℕ
mode_of cfg [] = some cfg.default_mode
mode_of cfg (c ∷ cs) = parse_mode (c ∷ cs)

-- How an error of Write is audited.
abbrev pub verdict_of : UploadError → Verdict
verdict_of (io s) = fail
verdict_of _ = deny

abbrev pub reason_of : UploadError → Message
reason_of traversal = text "traversal" ∷ []
reason_of exists = text "file already exists" ∷ []
reason_of is_dir = text "target is a directory" ∷ []
reason_of too_large = text "file too large" ∷ []
reason_of bad_mode = text "invalid file mode" ∷ []
reason_of quota_exceeded = text "total upload quota exceeded" ∷ []
reason_of (io s) = text "write failed" ∷ []

-- writeErr.Error() for a refusal, a fixed text for any other error.
abbrev pub reply_of : UploadError → Message
reply_of traversal = text "path is outside the upload root" ∷ []
reply_of exists = text "file already exists (set overwrite to replace)" ∷ []
reply_of is_dir = text "target path is a directory" ∷ []
reply_of too_large = text "file too large: exceeds max_file_bytes" ∷ []
reply_of bad_mode = text "invalid or forbidden file mode" ∷ []
reply_of quota_exceeded = text "upload denied: total upload quota exceeded" ∷ []
reply_of (io s) = text "write failed" ∷ []

unfoldable pub upload_output : Written → UploadOutput
upload_output r = record {
  path = r.rel_path;
  size = r.size;
  overwritten = r.overwritten;
  mode = format_mode r.mode;
}

abbrev pub report : Caller → UploadInput → Result UploadError Written → Handler UploadOutput
report caller input (err e) = do
  audit (upload_record caller input.path (verdict_of e) (reason_of e))
  raise (reply_of e)
report caller input (ok r) = do
  audit (record (upload_record caller r.rel_path success []) { size = r.size })
  pure (upload_output r)

abbrev pub write_input : UploadInput → Bytes → ℕ → Input
write_input input decoded mode = record {
  rel_path = input.path;
  contents = decoded;
  overwrite = input.overwrite;
  mode = mode;
}

abbrev pub write_file : Host → Config → Input → Site → Result UploadError Written × Site
write_file host cfg input s =
    let (r, tree) = write host.faults host.drawn cfg input s.tree in (r, record s { tree = tree })

unfoldable pub upload_handler : Host → Config → Caller → UploadInput → Handler UploadOutput
unfolding read_content
upload_handler host cfg caller input = do
  root_check host cfg caller input
  decoded ← read_content cfg caller input
  mode ← or_refuse caller input (text "invalid file mode" ∷ []) (mode_of cfg input.mode)
  λ s.
      let (r, s') = write_file host cfg (write_input input decoded mode) s in
      report caller input r s'
