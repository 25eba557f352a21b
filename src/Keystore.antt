-- ===== src/Keystore.antt =====
-- internal/keystore: the records of record.go, the errors of errors.go, and the state that a
-- `Store` works on: the file keys.db, the temporary files beside it, and the usage buffer.
-- A time is a count of nanoseconds from the zero `time.Time`; a label is a text of code points.
use raxd.Prelude.{ℕ, String, Bool, Option, List, Bytes}
pub mod Exec
pub mod Crypto
pub mod Disk
pub mod Usage
pub mod Store
pub mod Atomic
pub mod History
pub mod Revocation
pub mod Verification
pub mod Flush
pub mod Outcomes
pub mod Locking
pub mod Effects

pub record Record : Type 0 where
  pub id : Bytes
  pub label : String
  pub created : ℕ
  pub last_used : ℕ
  pub revoked_at : ℕ
  pub revoked : Bool
  pub fingerprint : Bytes
  pub hash : Bytes
  pub salt : Bytes

-- The form on disk.
pub record DbRecord : Type 0 where
  pub id : Bytes
  pub label : String
  pub created : ℕ
  pub last_used : ℕ
  pub revoked_at : ℕ
  pub revoked : Bool
  pub fingerprint : Bytes
  pub hash : Bytes
  pub salt : Bytes

unfoldable pub to_db_record : Record → DbRecord
to_db_record r = record {
  id = r.id;
  label = r.label;
  created = r.created;
  last_used = r.last_used;
  revoked_at = r.revoked_at;
  revoked = r.revoked;
  fingerprint = r.fingerprint;
  hash = r.hash;
  salt = r.salt;
}

unfoldable pub from_db_record : DbRecord → Record
from_db_record d = record {
  id = d.id;
  label = d.label;
  created = d.created;
  last_used = d.last_used;
  revoked_at = d.revoked_at;
  revoked = d.revoked;
  fingerprint = d.fingerprint;
  hash = d.hash;
  salt = d.salt;
}

pub record Database : Type 0 where
  pub version : ℕ
  pub keys : List DbRecord

-- The sentinel errors; `io` is any other error, with the text that wraps it. `exhausted` is no
-- error of the program: the random draws given to the model ran out.
pub data StoreError : Type 0 where
  not_found already_revoked corrupt label_too_long exhausted : StoreError
  io : String → StoreError

-- What the program can tell of a file's bytes: there are none, `json.Unmarshal` reads a database
-- from them, or it does not. `json.Marshal` of a database gives bytes that read as it.
pub data Contents : Type 0 where
  empty malformed : Contents
  json : Database → Contents

-- `temps` are the files .keys-*.tmp, the newest first; `usage_buf` is the map of the `Store`.
pub record World : Type 0 where
  pub file : Option Contents
  pub temps : List Contents
  pub usage_buf : List (Bytes × ℕ)

-- Which system calls of one operation fail.
pub record Faults : Type 0 where
  pub open_fails : Bool
  pub flock_fails : Bool
  pub read_fails : Bool
  pub marshal_fails : Bool
  pub create_fails : Bool
  pub chmod_fails : Bool
  pub write_fails : Bool
  pub sync_fails : Bool
  pub close_fails : Bool
  pub rename_fails : Bool
  pub remove_fails : Bool
