-- ===== src/Keystore/Store.antt =====
-- internal/keystore/keystore.go: the methods of `Store`. The clock, the random draws and the
-- failing system calls are arguments.
use raxd.Prelude.{
  ℕ, Bool, true, false, Option, none, some, List, [], ◌∷◌, ◌++◌, Bytes, codes, String, bytes_eq,
  ltb, if◌then◌else◌, length,
}
use raxd.Keystore.{
  Record, DbRecord, to_db_record, from_db_record, not_found, already_revoked, corrupt,
  label_too_long, exhausted, Contents, json, malformed, empty, World, Faults,
}
use raxd.Keystore.Exec.{Result, Exec, ok, err, pure, raise, lift, ◌>>=◌, ◌>>◌}
use raxd.Keystore.Crypto.{generate_body, generate_id, hash_key, fingerprint}
use raxd.Keystore.Disk.{acquire_lock, lock_shared, lock_exclusive, read_db, write_db}
use raxd.Keystore.Usage.{Usage, get_usage, set_usage, restore}

-- What crypto/rand draws for one key: 32 bytes, 16 bytes, and eight bytes for each try of an id.
pub record Entropy : Type 0 where
  pub body : Bytes
  pub salt : Bytes
  pub ids : List Bytes

abbrev pub max_label : ℕ
max_label = 64

abbrev pub ids_of : List DbRecord → List Bytes
ids_of [] = []
ids_of (d ∷ ds) = d.id ∷ ids_of ds

-- Open: the file is probed only where it exists and has bytes; the world is not changed.
abbrev probe : Bool → Option Contents → Result (Unit {0})
probe read_fails none = ok tt
probe read_fails (some empty) = ok tt
probe read_fails (some malformed) = err corrupt
probe read_fails (some (json db)) = if read_fails then err corrupt else ok tt

-- A failing os.Stat skips the probe.
unfoldable pub open_store : Faults → World → Result (Unit {0})
open_store f w = if f.open_fails then ok tt else probe f.read_fails w.file

abbrev or_exhausted : Option Bytes → Exec Bytes
or_exhausted none = raise exhausted
or_exhausted (some id) = pure id

module _ (sha256 : Bytes → Bytes) where
  abbrev new_record : Bytes → Bytes → Bytes → String → ℕ → Record
  new_record body salt id label now = record {
    id = id;
    label = label;
    created = now;
    last_used = 0;
    revoked_at = 0;
    revoked = false;
    fingerprint = fingerprint sha256 body;
    hash = hash_key sha256 body salt;
    salt = salt;
  }

  unfoldable pub create : Faults → Entropy → ℕ → String → Exec (Bytes × Record)
  create f e now label = if ltb max_label (length (codes label)) then raise label_too_long else do
    acquire_lock f lock_exclusive
    db ← read_db f
    id ← or_exhausted (generate_id (ids_of db.keys) e.ids)
    let body = generate_body e.body
    let rec = new_record body e.salt id label now
    write_db f (record db { keys = db.keys ++ to_db_record rec ∷ [] })
    pure (body, rec)

  -- The loop of Verify: it does not stop at a match, so the last one counts.
  unfoldable pub verify_loop : Bytes → List DbRecord → Option Record → Option Record
  verify_loop presented [] matched = matched
  verify_loop presented (d ∷ ds) matched = verify_loop presented ds (
      if d.revoked
      then matched
      else if bytes_eq (hash_key sha256 presented d.salt) d.hash
      then some (from_db_record d)
      else matched)

  abbrev note_usage : ℕ → Option Record → Exec (Option Record)
  note_usage now none w = (ok none, w)
  note_usage now (some r) w = (
    ok (some (record r { last_used = now })),
    record w { usage_buf = set_usage r.id now w.usage_buf },
  )

  abbrev verify_held : Faults → ℕ → Bytes → Bool → Exec (Option Record)
  verify_held f now presented false = pure none
  verify_held f now presented true = do
    db ← read_db f
    note_usage now (verify_loop presented db.keys none)

  unfoldable pub verify : Faults → ℕ → Bytes → Exec (Option Record)
  verify f now presented = do held ← acquire_lock f lock_shared; verify_held f now presented held

-- The loop of List.
unfoldable pub active_records : List DbRecord → List Record
active_records [] = []
active_records (d ∷ ds) =
    let rest = active_records ds in if d.revoked then rest else from_db_record d ∷ rest

abbrev list_held : Faults → Bool → Exec (List Record)
list_held f false = pure []
list_held f true = do db ← read_db f; pure (active_records db.keys)

unfoldable pub list : Faults → Exec (List Record)
list f = do held ← acquire_lock f lock_shared; list_held f held

abbrev cons_ok : DbRecord → Result (List DbRecord) → Result (List DbRecord)
cons_ok d (ok ds) = ok (d ∷ ds)
cons_ok d (err e) = err e

-- The loop of Revoke, up to its `break`.
unfoldable pub revoke_loop : Bytes → ℕ → List DbRecord → Result (List DbRecord)
revoke_loop id now [] = err not_found
revoke_loop id now (d ∷ ds) =
    let rest = revoke_loop id now ds in
    if bytes_eq d.id id
    then (if d.revoked
        then err already_revoked
        else ok (record d { revoked = true; revoked_at = now } ∷ ds))
    else cons_ok d rest

unfoldable pub revoke : Faults → ℕ → Bytes → Exec (Unit {0})
revoke f now id = do
  acquire_lock f lock_exclusive
  db ← read_db f
  keys ← lift (revoke_loop id now db.keys)
  write_db f (record db { keys = keys })

abbrev pub touch : Option ℕ → DbRecord → DbRecord
touch none d = d
touch (some t) d = if d.revoked then d else record d { last_used = t }

-- The loop of FlushUsage over the records read.
unfoldable pub apply_usage : Usage → List DbRecord → List DbRecord
apply_usage snapshot [] = []
apply_usage snapshot (d ∷ ds) = touch (get_usage d.id snapshot) d ∷ apply_usage snapshot ds

abbrev restoring : {A : Type 0} → Usage → Result A × World → Result A × World
restoring snapshot (ok a, w) = (ok a, w)
restoring snapshot (err e, w) = (err e, record w { usage_buf = restore snapshot w.usage_buf })

-- FlushUsage after the snapshot was taken: other goroutines may have run since.
unfoldable pub flush_snapshot : Faults → Usage → Exec (Unit {0})
flush_snapshot f snapshot = do
  λ w. restoring snapshot (acquire_lock f lock_exclusive w)
  db ← λ w. restoring snapshot (read_db f w)
  write_db f (record db { keys = apply_usage snapshot db.keys })

abbrev flush_nonempty : Faults → Usage → Exec (Unit {0})
flush_nonempty f [] w = (ok tt, w)
flush_nonempty f (u ∷ us) w = flush_snapshot f (u ∷ us) (record w { usage_buf = [] })

unfoldable pub flush_usage : Faults → Exec (Unit {0})
unfolding flush_snapshot
flush_usage f w = flush_nonempty f w.usage_buf w
