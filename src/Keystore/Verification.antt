-- ===== src/Keystore/Verification.antt =====
-- Verify and List against the records on disk, after any history of calls.
use raxd.Prelude.{
  ℕ, ◌≡◌, ◌≢◌, ap, ◌⊎◌, inl, inr, Bool, true, false, not, ◌&&◌, ◌||◌, Option, none, some, List, [],
  ◌∷◌, ◌++◌, Bytes, String, arith, bytes_eq, bytes_eq_refl, All, Option-cases,
}
use raxd.Keystore.{Record, DbRecord, to_db_record, from_db_record, World, Faults}
use raxd.Keystore.Exec.{ok}
use raxd.Keystore.Crypto.{hash_key}
use raxd.Keystore.Disk.{acquire_lock, read_db}
use raxd.Keystore.Store.{Entropy, ids_of, create, revoke, verify_loop, verify, active_records, list}
use raxd.Keystore.Atomic.{keys_of, revoke-ok_keys, create-ok_keys}
use raxd.Keystore.History.{Call, run, run_induction}
use raxd.Keystore.Revocation.{
  unique, all_revoked, IsRevoked, revoke_loop-IsRevoked, KeyStep-unique, KeyStep-IsRevoked,
}

-- No system call fails on the path of a read.
abbrev pub IsReadable : Faults → Type 0
IsReadable f = (f.open_fails ≡ false) × (f.flock_fails ≡ false) × (f.read_fails ≡ false)

abbrev is_found : Option Record → Bool
is_found none = false
is_found (some r) = true

module _ (sha256 : Bytes → Bytes) where
  -- An active record whose stored hash is that of the presented key under its salt.
  abbrev pub accepts : Bytes → DbRecord → Bool
  accepts presented d = not d.revoked && bytes_eq (hash_key sha256 presented d.salt) d.hash

  abbrev pub any_accepts : Bytes → List DbRecord → Bool
  any_accepts presented [] = false
  any_accepts presented (d ∷ ds) = accepts presented d || any_accepts presented ds

  verify_loop_found :
      (presented : Bytes) (ks : List DbRecord) (o : Option Record)
      → is_found (verify_loop sha256 presented ks o) ≡ (is_found o || any_accepts presented ks)
  unfolding verify_loop
  verify_loop_found presented [] o = ground arith
  verify_loop_found presented (d ∷ ds) o = ground (
    arith,
    verify_loop_found presented ds o,
    verify_loop_found presented ds (some (from_db_record d)),
  )

  -- The record comes from an active record on disk that accepts the key.
  abbrev pub AcceptedBy : Bytes → List DbRecord → Record → Type 0
  AcceptedBy presented [] r = ⊥
  AcceptedBy presented (d ∷ ds) r =
      ((accepts presented d ≡ true) × (r ≡ from_db_record d)) ⊎ AcceptedBy presented ds r

  verify_loop_source :
      (presented : Bytes) (ks : List DbRecord) (o : Option Record) {r : Record}
      → verify_loop sha256 presented ks o ≡ some r
      → (o ≡ some r) ⊎ AcceptedBy presented ks r
  unfolding verify_loop
  verify_loop_source presented [] o h = inl h
  verify_loop_source presented (d ∷ ds) o h = ground (arith, verify_loop_source presented ds _ h)

  accepted :
      (presented : Bytes) (ks : List DbRecord) {r : Record}
      → verify_loop sha256 presented ks none ≡ some r
      → AcceptedBy presented ks r
  accepted presented ks h = elim (verify_loop_source presented ks none h) [ inl e ↦ cc | inr a ↦ a ]

  AcceptedBy-ne :
      (id presented : Bytes) (ks : List DbRecord) (r : Record)
      → AcceptedBy presented ks r
      → all_revoked id ks ≡ true
      → r.id ≢ id
  unfolding from_db_record
  AcceptedBy-ne id presented [] r h a = absurd h
  AcceptedBy-ne id presented (d ∷ ds) r (inl (h, e)) a =
      λ p. ground (arith, bytes_eq_refl id, ap (λ (x : Record). x.id) e)
  AcceptedBy-ne id presented (d ∷ ds) r (inr h) a = AcceptedBy-ne id presented ds r h (ground arith)

  verify_loop-append :
      (presented : Bytes) (ks : List DbRecord) (d : DbRecord) (o : Option Record)
      → accepts presented d ≡ true
      → verify_loop sha256 presented (ks ++ d ∷ []) o ≡ some (from_db_record d)
  unfolding verify_loop
  verify_loop-append presented [] d o h = ground arith
  verify_loop-append presented (k ∷ ks) d o h = verify_loop-append presented ks d _ h

  -- Where Verify returns a record it is one of the file's, with the time of this call.
  pub verify_source :
      (f : Faults) (now : ℕ) (presented : Bytes) (w : World) {r : Record}
      → (verify sha256 f now presented w).0 ≡ ok (some r)
      → (m : Record) × AcceptedBy presented (keys_of w.file) m × (r ≡ record m { last_used = now })
  unfolding verify acquire_lock read_db
  verify_source f now presented w h =
      elim (Option-cases (verify_loop sha256 presented (keys_of w.file) none)) [
        | inl e ↦ absurd (ground arith)
        | inr (m, e) ↦ (m, accepted presented (keys_of w.file) e, ground arith)
      ]

  -- Where no system call fails, Verify finds a record exactly if some record on disk accepts the
  -- presented key.
  pub verify_found :
      (f : Faults) (now : ℕ) (presented : Bytes) (w : World) {o : Option Record}
      → IsReadable f
      → (verify sha256 f now presented w).0 ≡ ok o
      → is_found o ≡ any_accepts presented (keys_of w.file)
  unfolding verify acquire_lock read_db
  verify_found f now presented w i h =
      ground (arith, verify_loop_found presented (keys_of w.file) none)

  active_records-ne :
      (id : Bytes) (ks : List DbRecord)
      → all_revoked id ks ≡ true
      → All (λ r. r.id ≢ id) (active_records ks)
  unfolding active_records from_db_record
  active_records-ne id [] a = tt
  active_records-ne id (d ∷ ds) a = ground (arith, active_records-ne id ds, bytes_eq_refl id)

  list_source :
      (f : Faults) (w : World) {rs : List Record}
      → (list f w).0 ≡ ok rs
      → rs ≡ active_records (keys_of w.file)
  unfolding list acquire_lock read_db active_records
  list_source f w h = ground arith

  -- After a history that begins with distinct ids, no id on disk occurs twice.
  pub run-unique :
      (w : World) (cs : List Call)
      → unique (ids_of (keys_of w.file)) ≡ true
      → unique (ids_of (keys_of (run sha256 w cs).file)) ≡ true
  run-unique = run_induction sha256 (λ ks. unique (ids_of ks) ≡ true) KeyStep-unique

  after_revoke :
      (w : World) (f : Faults) (now : ℕ) (id : Bytes) (cs : List Call)
      → unique (ids_of (keys_of w.file)) ≡ true
      → (revoke f now id w).0 ≡ ok tt
      → IsRevoked id (keys_of (run sha256 (revoke f now id w).1 cs).file)
  after_revoke w f now id cs u h =
      run_induction sha256 (IsRevoked id) (KeyStep-IsRevoked id) (revoke f now id w).1 cs
        (revoke_loop-IsRevoked id now _ u (revoke-ok_keys f now id w h))

  -- Where ids on disk are distinct and Revoke of an id succeeds, then after any further calls, with
  -- any failing system calls, a key that Verify accepts belongs to a record with another id.
  pub revoked_for_good :
      (w : World) (f g : Faults) (now later : ℕ) (id presented : Bytes) (cs : List Call)
      {r : Record}
      → unique (ids_of (keys_of w.file)) ≡ true
      → (revoke f now id w).0 ≡ ok tt
      → (verify sha256 g later presented (run sha256 (revoke f now id w).1 cs)).0 ≡ ok (some r)
      → r.id ≢ id
  revoked_for_good w f g now later id presented cs u h p =
      let dead = after_revoke w f now id cs u h in
      let (m, a, e) = verify_source g later presented (run sha256 (revoke f now id w).1 cs) p in
      rw (ap (λ (x : Record). x.id) e)
        (AcceptedBy-ne id presented (keys_of (run sha256 (revoke f now id w).1 cs).file) m a dead.1)

  -- Where ids on disk are distinct and Revoke of an id succeeds, then after any further calls, with
  -- any failing system calls, List returns no record with this id.
  pub revoked_unlisted :
      (w : World) (f g : Faults) (now : ℕ) (id : Bytes) (cs : List Call) {rs : List Record}
      → unique (ids_of (keys_of w.file)) ≡ true
      → (revoke f now id w).0 ≡ ok tt
      → (list g (run sha256 (revoke f now id w).1 cs)).0 ≡ ok rs
      → All (λ r. r.id ≢ id) rs
  revoked_unlisted w f g now id cs u h p =
      rw (list_source g (run sha256 (revoke f now id w).1 cs) p) (
        active_records-ne id (keys_of (run sha256 (revoke f now id w).1 cs).file)
          (after_revoke w f now id cs u h).1)

  verify_match :
      (f : Faults) (now : ℕ) (presented : Bytes) (w : World) {m : Record}
      → IsReadable f
      → verify_loop sha256 presented (keys_of w.file) none ≡ some m
      → (verify sha256 f now presented w).0 ≡ ok (some (record m { last_used = now }))
  unfolding verify acquire_lock read_db verify_loop
  verify_match f now presented w i h = ground arith

  -- A key that Create hands out is verified next, as the record that Create returned.
  pub create-verify :
      (w : World) (f g : Faults) (e : Entropy) (now later : ℕ) (label : String) {body : Bytes}
      {rec : Record}
      → (create sha256 f e now label w).0 ≡ ok (body, rec)
      → IsReadable g
      → (verify sha256 g later body (create sha256 f e now label w).1).0
        ≡ ok (some (record rec { last_used = later }))
  unfolding to_db_record from_db_record
  create-verify w f g e now later label {body} {rec} h i =
      let (k, _, a, s) = create-ok_keys sha256 f e now label w h in
      verify_match g later body _ {m = rec} i (
        rw k (
          verify_loop-append body (keys_of w.file) (to_db_record rec) none
            (ground (arith, bytes_eq_refl rec.hash))))
