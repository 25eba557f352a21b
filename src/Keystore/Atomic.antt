-- ===== src/Keystore/Atomic.antt =====
-- The atomicity of the key store's writes: what the file reads as after a success and after an
-- error of writeDB, Create, Revoke and FlushUsage.
use raxd.Prelude.{
  ℕ, ◌≡◌, false, Option, none, some, List, [], ◌∷◌, ◌++◌, String, Bytes, take, arith,
}
use raxd.Keystore.{
  Record, DbRecord, to_db_record, Database, StoreError, Contents, empty, malformed, json, World,
  Faults,
}
use raxd.Keystore.Exec.{ok, err}
use raxd.Keystore.Crypto.{contains, generate_id, hash_key, hex, fingerprint}
use raxd.Keystore.Disk.{acquire_lock, read_db, write_db}
use raxd.Keystore.Usage.{Usage}
use raxd.Keystore.Store.{
  Entropy, ids_of, create, revoke_loop, revoke, apply_usage, flush_snapshot, verify, list,
}

-- The records that the file holds; a file that does not parse holds none.
abbrev pub keys_of : Option Contents → List DbRecord
keys_of none = []
keys_of (some empty) = []
keys_of (some malformed) = []
keys_of (some (json db)) = db.keys

module _ (f : Faults) (db : Database) (w : World) where
  pub write_db-ok :
      (write_db f db w).0 ≡ ok tt → (write_db f db w).1 ≡ record w { file = some (json db) }
  unfolding write_db
  write_db-ok h = ground arith

  pub write_db-err :
      {e : StoreError}
      → (write_db f db w).0 ≡ err e
      → ((write_db f db w).1.file ≡ w.file) × ((write_db f db w).1.usage_buf ≡ w.usage_buf)
  unfolding write_db
  write_db-err h = ground arith

  pub write_db-temps : f.remove_fails ≡ false → (write_db f db w).1.temps ≡ w.temps
  unfolding write_db
  write_db-temps k = ground arith

pub generate_id_fresh :
    (existing draws : List Bytes) (id : Bytes)
    → generate_id existing draws ≡ some id
    → contains id existing ≡ false
unfolding generate_id
generate_id_fresh existing [] id h = cc
generate_id_fresh existing (d ∷ ds) id h = ground (arith, generate_id_fresh existing ds id)

module _ (sha256 : Bytes → Bytes) (f : Faults) (e : Entropy) (now : ℕ) (label : String)
    (w : World) where
  pub create-err_keys :
      {x : StoreError}
      → (create sha256 f e now label w).0 ≡ err x
      → keys_of (create sha256 f e now label w).1.file ≡ keys_of w.file
  unfolding create acquire_lock read_db write_db
  create-err_keys h = ground arith

  pub create-ok_keys :
      {body : Bytes} {rec : Record}
      → (create sha256 f e now label w).0 ≡ ok (body, rec)
      → (keys_of (create sha256 f e now label w).1.file ≡ keys_of w.file ++ to_db_record rec ∷ [])
        × (generate_id (ids_of (keys_of w.file)) e.ids ≡ some rec.id)
        × (rec.revoked ≡ false)
        × (rec.hash ≡ hash_key sha256 body rec.salt)
  unfolding create acquire_lock read_db write_db
  create-ok_keys h = ground arith

  pub create-ok_fingerprint :
      {body : Bytes} {rec : Record}
      → (create sha256 f e now label w).0 ≡ ok (body, rec)
      → rec.fingerprint ≡ hex (take 6 (sha256 body))
  unfolding create acquire_lock read_db write_db fingerprint
  create-ok_fingerprint h = ground arith

module _ (f : Faults) (now : ℕ) (id : Bytes) (w : World) where
  pub revoke-err_keys :
      {x : StoreError}
      → (revoke f now id w).0 ≡ err x
      → keys_of (revoke f now id w).1.file ≡ keys_of w.file
  unfolding revoke acquire_lock read_db write_db
  revoke-err_keys h = ground arith

  pub revoke-ok_keys :
      (revoke f now id w).0 ≡ ok tt
      → revoke_loop id now (keys_of w.file) ≡ ok (keys_of (revoke f now id w).1.file)
  unfolding revoke acquire_lock read_db write_db
  revoke-ok_keys h = ground arith

module _ (f : Faults) (snapshot : Usage) (w : World) where
  pub flush-err_keys :
      {x : StoreError}
      → (flush_snapshot f snapshot w).0 ≡ err x
      → keys_of (flush_snapshot f snapshot w).1.file ≡ keys_of w.file
  unfolding flush_snapshot acquire_lock read_db write_db
  flush-err_keys h = ground arith

  pub flush-ok_keys :
      (flush_snapshot f snapshot w).0 ≡ ok tt
      → keys_of (flush_snapshot f snapshot w).1.file ≡ apply_usage snapshot (keys_of w.file)
  unfolding flush_snapshot acquire_lock read_db write_db apply_usage
  flush-ok_keys h = ground arith

module _ (sha256 : Bytes → Bytes) (f : Faults) (now : ℕ) (presented : Bytes) (w : World) where
  pub file-verify : (verify sha256 f now presented w).1.file ≡ w.file
  unfolding verify acquire_lock read_db
  file-verify = ground arith

pub list_world : (f : Faults) (w : World) → (list f w).1 ≡ w
unfolding list acquire_lock read_db
list_world f w = ground arith
