-- ===== src/Tests/Keys.antt =====
-- The key store on concrete files; digests are the bytes themselves, or a constant of 32 bytes.
use raxd.Prelude.{◌≡◌, ◌≢◌, refl, true, false, some, List, [], ◌∷◌, ◌++◌, Bytes, bytes_eq, codes}
use raxd.Keystore.{Record, DbRecord, to_db_record, from_db_record, json, World, Faults, io}
use raxd.Keystore.Exec.{ok}
use raxd.Keystore.Crypto.{hash_key, generate_id, hex, contains, generate_body, raw_url, fingerprint}
use raxd.Keystore.Disk.{acquire_lock, read_db, write_db}
use raxd.Keystore.Usage.{get_usage, set_usage, restore}
use raxd.Keystore.Store.{
  Entropy, ids_of, create, revoke, revoke_loop, verify_loop, verify, active_records, list,
  apply_usage, flush_snapshot, flush_usage, open_store,
}
use raxd.Keystore.Atomic.{keys_of}
use raxd.Keystore.History.{Call, creates, revokes, verifies, flushes, step, run}
use raxd.Keystore.Revocation.{unique}
use raxd.Keystore.Verification.{
  any_accepts, verify_found, run-unique, revoked_for_good, create-verify,
}
use raxd.Keystore.Flush.{flush_failure_loses}
use raxd.Keystore.Effects.{Does, step-Does}

abbrev pub same : Bytes → Bytes
same m = m

abbrev pub quiet : Faults
quiet = record {
  open_fails = false;
  flock_fails = false;
  read_fails = false;
  marshal_fails = false;
  create_fails = false;
  chmod_fails = false;
  write_fails = false;
  sync_fails = false;
  close_fails = false;
  rename_fails = false;
  remove_fails = false;
}

abbrev pub no_rename : Faults
no_rename = record quiet { rename_fails = true }

abbrev pub key_a : DbRecord
key_a = record {
  id = codes "a";
  label = "ci";
  created = 1;
  last_used = 0;
  revoked_at = 0;
  revoked = false;
  fingerprint = codes "fa";
  hash = codes "kasa";
  salt = codes "sa";
}

abbrev pub key_b : DbRecord
key_b = record {
  id = codes "b";
  label = "";
  created = 2;
  last_used = 0;
  revoked_at = 0;
  revoked = false;
  fingerprint = codes "fb";
  hash = codes "kbsb";
  salt = codes "sb";
}

abbrev pub two_keys : World
two_keys = record {
  file = some (json (record { version = 1; keys = key_a ∷ key_b ∷ [] }));
  temps = [];
  usage_buf = [];
}

abbrev pub drawn : Entropy
drawn = record {
  body = codes "0123456789abcdef0123456789abcdef";
  salt = codes "0123456789abcdef";
  ids = codes "01234567" ∷ codes "abcdefgh" ∷ [];
}

abbrev pub history : List Call
history = verifies quiet 7 (codes "kb") ∷ creates no_rename drawn 8 "x" ∷ flushes quiet ∷ []

abbrev pub record_b : Record
record_b = record {
  id = codes "b";
  label = "";
  created = 2;
  last_used = 9;
  revoked_at = 0;
  revoked = false;
  fingerprint = codes "fb";
  hash = codes "kbsb";
  salt = codes "sb";
}

abbrev pub created : Record
created = record {
  id = codes "3031323334353637";
  label = "x";
  created = 5;
  last_used = 0;
  revoked_at = 0;
  revoked = false;
  fingerprint = codes "7261785f6c69";
  hash = generate_body drawn.body ++ codes "0123456789abcdef";
  salt = codes "0123456789abcdef";
}

abbrev used : World
used = record two_keys { usage_buf = (codes "b", 9) ∷ [] }

revoked_for_good_example : codes "b" ≢ codes "a"
unfolding run step create revoke acquire_lock read_db write_db flush_usage flush_snapshot verify
    contains bytes_eq revoke_loop verify_loop hash_key generate_id hex set_usage apply_usage
    get_usage to_db_record from_db_record list active_records generate_body raw_url fingerprint
    open_store restore
revoked_for_good_example =
    revoked_for_good same two_keys quiet quiet 5 9 (codes "a") (codes "kb") history {r = record_b}
      refl refl refl

create-verify_example :
    (verify same quiet 9 (generate_body drawn.body) (create same quiet drawn 5 "x" two_keys).1).0
    ≡ ok (some (record created { last_used = 9 }))
unfolding run step create revoke acquire_lock read_db write_db flush_usage flush_snapshot verify
    contains bytes_eq revoke_loop verify_loop hash_key generate_id hex set_usage apply_usage
    get_usage to_db_record from_db_record list active_records generate_body raw_url fingerprint
    open_store restore
create-verify_example =
    create-verify same two_keys quiet quiet drawn 5 9 "x" {body = generate_body drawn.body}
      {rec = created} refl (refl, refl, refl)

verify_found_example : true ≡ any_accepts same (codes "kb") (key_a ∷ key_b ∷ [])
unfolding run step create revoke acquire_lock read_db write_db flush_usage flush_snapshot verify
    contains bytes_eq revoke_loop verify_loop hash_key generate_id hex set_usage apply_usage
    get_usage to_db_record from_db_record list active_records generate_body raw_url fingerprint
    open_store restore
verify_found_example =
    verify_found same quiet 9 (codes "kb") two_keys {o = some record_b} (refl, refl, refl) refl

step-Does_example :
    Does
      (revokes quiet 5 (codes "a"))
      (key_a ∷ key_b ∷ [])
      (keys_of (step same two_keys (revokes quiet 5 (codes "a"))).file)
unfolding run step create revoke acquire_lock read_db write_db flush_usage flush_snapshot verify
    contains bytes_eq revoke_loop verify_loop hash_key generate_id hex set_usage apply_usage
    get_usage to_db_record from_db_record list active_records generate_body raw_url fingerprint
    open_store restore
step-Does_example = step-Does same two_keys (revokes quiet 5 (codes "a"))

run-unique_example : unique (ids_of (keys_of (run same two_keys history).file)) ≡ true
unfolding run step create revoke acquire_lock read_db write_db flush_usage flush_snapshot verify
    contains bytes_eq revoke_loop verify_loop hash_key generate_id hex set_usage apply_usage
    get_usage to_db_record from_db_record list active_records generate_body raw_url fingerprint
    open_store restore
run-unique_example = run-unique same two_keys history refl

flush_failure_loses_example :
    ((flush_usage no_rename used).1.usage_buf ≡ [])
    × (keys_of (flush_usage no_rename used).1.file ≡ key_a ∷ key_b ∷ [])
unfolding run step create revoke acquire_lock read_db write_db flush_usage flush_snapshot verify
    contains bytes_eq revoke_loop verify_loop hash_key generate_id hex set_usage apply_usage
    get_usage to_db_record from_db_record list active_records generate_body raw_url fingerprint
    open_store restore
flush_failure_loses_example =
    flush_failure_loses no_rename used (codes "b") 9 {x = io "cannot commit key store"} refl refl
      refl refl (λ e. cc) refl
