-- ===== src/Mcp/Caller.antt =====
-- What a tool handler takes from its context, and the audit records that it writes.
pub mod Accounts
use raxd.Prelude.{List, [], ◌∷◌, ◌++◌, Bytes, Bool, true, false}
use raxd.Prelude.Exec.{Exec, ok}
use raxd.CmdExec.Run.{Spawn}
use raxd.Server.Audit.{
  AuditRecord, Message, Verdict, success, fail, deny, warn, rate_limited, other,
}

-- server.FingerprintFromContext and server.RemoteAddrFromContext.
pub record Caller : Type 0 where
  pub fingerprint : Bytes
  pub remote_addr : Bytes

-- The audit records written and the processes started during a call, the oldest first.
pub record Trace : Type 0 where
  pub audits : List AuditRecord
  pub spawned : List Spawn

abbrev pub no_trace : Trace
no_trace = record { audits = []; spawned = [] }

abbrev pub Handler : Type 0 → Type 0
Handler A = Exec Message Trace A

abbrev pub audit : AuditRecord → Handler (Unit {0})
audit r t = (ok tt, record t { audits = t.audits ++ r ∷ [] })

-- Records that say how a call ended: all but the warnings.
abbrev pub is_final : Verdict → Bool
is_final success = true
is_final fail = true
is_final deny = true
is_final warn = false
is_final rate_limited = true
is_final (other s) = true

abbrev pub cons_final : Bool → Verdict → List Verdict → List Verdict
cons_final true v vs = v ∷ vs
cons_final false v vs = vs

-- The verdicts of the records that are no warnings.
abbrev pub finals : List AuditRecord → List Verdict
finals [] = []
finals (r ∷ rs) = cons_final (is_final r.result) r.result (finals rs)
