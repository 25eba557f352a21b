-- ===== src/Keystore/Outcomes.antt =====
-- The errors of the methods of `Store`, and the credentials that Create makes.
use raxd.Prelude.{
  ℕ, ◌+◌, ◌*◌, ◌/◌, ◌≡◌, ◌<◌, refl, ap, Bool, true, false, none, some, List, [], ◌∷◌, Bytes, String,
  codes, arith, All, length, length-append, length-take, take,
}
use raxd.Keystore.{Record, World, Faults, label_too_long}
use raxd.Keystore.Exec.{Result, ok, err}
use raxd.Keystore.Crypto.{
  key_prefix, hex, raw_url, generate_body, contains, generate_id, fingerprint,
}
use raxd.Keystore.Disk.{acquire_lock, read_db, write_db}
use raxd.Keystore.Usage.{Usage}
use raxd.Keystore.Store.{Entropy, create, revoke, verify, list, flush_usage, open_store, max_label}
use raxd.Keystore.Atomic.{keys_of, create-ok_keys, file-verify, list_world}
use raxd.Keystore.History.{Call, creates, revokes, verifies, lists, flushes, step}

abbrev is_err : {A : Type 0} → Result A → Bool
is_err (ok a) = false
is_err (err e) = true

abbrev pub cannot_remove : Call → Bool
cannot_remove (creates f e now label) = f.remove_fails
cannot_remove (revokes f now id) = f.remove_fails
cannot_remove (verifies f now presented) = f.remove_fails
cannot_remove (lists f) = f.remove_fails
cannot_remove (flushes f) = f.remove_fails

module _ (sha256 : Bytes → Bytes) where
  -- The call returns an error.
  abbrev pub fails : World → Call → Bool
  fails w (creates f e now label) = is_err (create sha256 f e now label w).0
  fails w (revokes f now id) = is_err (revoke f now id w).0
  fails w (verifies f now presented) = is_err (verify sha256 f now presented w).0
  fails w (lists f) = is_err (list f w).0
  fails w (flushes f) = is_err (flush_usage f w).0

  create_failure :
      (f : Faults) (e : Entropy) (now : ℕ) (label : String) (w : World)
      → is_err (create sha256 f e now label w).0 ≡ true
      → keys_of (create sha256 f e now label w).1.file ≡ keys_of w.file
  unfolding create acquire_lock read_db write_db
  create_failure f e now label w h = ground arith

  create_temps :
      (f : Faults) (e : Entropy) (now : ℕ) (label : String) (w : World)
      → f.remove_fails ≡ false
      → (create sha256 f e now label w).1.temps ≡ w.temps
  unfolding create acquire_lock read_db write_db
  create_temps f e now label w h = ground arith

  revoke_failure :
      (f : Faults) (now : ℕ) (id : Bytes) (w : World)
      → is_err (revoke f now id w).0 ≡ true
      → keys_of (revoke f now id w).1.file ≡ keys_of w.file
  unfolding revoke acquire_lock read_db write_db
  revoke_failure f now id w h = ground arith

  revoke_temps :
      (f : Faults) (now : ℕ) (id : Bytes) (w : World)
      → f.remove_fails ≡ false
      → (revoke f now id w).1.temps ≡ w.temps
  unfolding revoke acquire_lock read_db write_db
  revoke_temps f now id w h = ground arith

  flush_failure :
      (f : Faults) (w : World) (buf : Usage)
      → is_err (flush_usage f (record w { usage_buf = buf })).0 ≡ true
      → keys_of (flush_usage f (record w { usage_buf = buf })).1.file ≡ keys_of w.file
  unfolding flush_usage acquire_lock read_db write_db
  flush_failure f w [] h = refl
  flush_failure f w (u ∷ us) h = ground arith

  flush_temps :
      (f : Faults) (w : World) (buf : Usage)
      → f.remove_fails ≡ false
      → (flush_usage f (record w { usage_buf = buf })).1.temps ≡ w.temps
  unfolding flush_usage acquire_lock read_db write_db
  flush_temps f w [] h = refl
  flush_temps f w (u ∷ us) h = ground arith

  verify_temps :
      (f : Faults) (now : ℕ) (presented : Bytes) (w : World)
      → (verify sha256 f now presented w).1.temps ≡ w.temps
  unfolding verify acquire_lock read_db
  verify_temps f now presented w = ground arith

  -- A call that returns an error leaves the records on disk as they were.
  pub failure_keeps_keys :
      (w : World) (c : Call) → fails w c ≡ true → keys_of (step sha256 w c).file ≡ keys_of w.file
  unfolding step
  failure_keeps_keys w (creates f e now label) h = create_failure f e now label w h
  failure_keeps_keys w (revokes f now id) h = revoke_failure f now id w h
  failure_keeps_keys w (verifies f now presented) h =
      ap keys_of (file-verify sha256 f now presented w)
  failure_keeps_keys w (lists f) h = ap (λ (v : World). keys_of v.file) (list_world f w)
  failure_keeps_keys w (flushes f) h = flush_failure f w w.usage_buf h

  -- Where temporary files can be removed, a call leaves none behind, whether it fails or not.
  pub step-temps :
      (w : World) (c : Call) → cannot_remove c ≡ false → (step sha256 w c).temps ≡ w.temps
  unfolding step
  step-temps w (creates f e now label) h = create_temps f e now label w h
  step-temps w (revokes f now id) h = revoke_temps f now id w h
  step-temps w (verifies f now presented) h = verify_temps f now presented w
  step-temps w (lists f) h = ap (λ (v : World). v.temps) (list_world f w)
  step-temps w (flushes f) h = flush_temps f w w.usage_buf h

  -- A label of more than 64 characters is refused, and nothing is touched.
  create-label_too_long :
      (f : Faults) (e : Entropy) (now : ℕ) (label : String) (w : World)
      → max_label < length (codes label)
      → create sha256 f e now label w ≡ (err label_too_long, w)
  unfolding create
  create-label_too_long f e now label w h = ground arith

-- Open reports a corrupt store exactly where the next read of a method would.
pub open_store-read_db :
    (f : Faults) (w : World)
    → f.open_fails ≡ false
    → f.read_fails ≡ false
    → is_err (open_store f w) ≡ is_err (read_db f w).0
unfolding open_store read_db
open_store-read_db f w a b = ground arith

length-hex : (bs : Bytes) → length (hex bs) ≡ 2 * length bs
unfolding hex
length-hex [] = refl
length-hex (b ∷ bs) = omega (arith, length-hex bs)

length-raw_url : (bs : Bytes) → length (raw_url bs) ≡ (4 * length bs + 2) / 3
unfolding raw_url
length-raw_url [] = refl
length-raw_url (a ∷ []) = refl
length-raw_url (a ∷ b ∷ []) = refl
length-raw_url (a ∷ b ∷ c ∷ bs) = omega (arith, length-raw_url bs)

generate_id-length :
    (existing draws : List Bytes) {id : Bytes}
    → All (λ d. length d ≡ 8) draws
    → generate_id existing draws ≡ some id
    → length id ≡ 16
unfolding generate_id
generate_id-length existing [] a h = cc
generate_id-length existing (d ∷ ds) {id} a h =
    ground (arith, generate_id-length existing ds {id = id} a.1, length-hex d)

-- The loop for an id ends as soon as a draw is fresh: it runs out only if every draw collides.
pub generate_id_total :
    (existing draws : List Bytes)
    → generate_id existing draws ≡ none
    → All (λ d. contains (hex d) existing ≡ true) draws
unfolding generate_id
generate_id_total existing [] h = tt
generate_id_total existing (d ∷ ds) h = ground (arith, generate_id_total existing ds)

body_length : (bs : Bytes) → length bs ≡ 32 → length (generate_body bs) ≡ 52
unfolding generate_body
body_length bs h = omega (arith, length-append key_prefix (raw_url bs), length-raw_url bs)

fingerprint_length :
    (sha256 : Bytes → Bytes) (m : Bytes)
    → ((m : Bytes) → length (sha256 m) ≡ 32)
    → length (fingerprint sha256 m) ≡ 12
unfolding fingerprint
fingerprint_length sha256 m h =
    omega (arith, length-hex (take 6 (sha256 m)), length-take 6 (sha256 m), h m)

create-ok_body :
    (sha256 : Bytes → Bytes) (f : Faults) (e : Entropy) (now : ℕ) (label : String) (w : World)
    {body : Bytes} {rec : Record}
    → (create sha256 f e now label w).0 ≡ ok (body, rec)
    → (body ≡ generate_body e.body) × (rec.fingerprint ≡ fingerprint sha256 body)
unfolding create acquire_lock read_db write_db
create-ok_body sha256 f e now label w h = ground arith

-- Let crypto/rand draw 32 bytes for the body and eight for each id, and let digests have 32 bytes.
-- Then a key that Create makes has 52 characters, its id 16, and its fingerprint twelve.
pub create-lengths :
    (sha256 : Bytes → Bytes) (f : Faults) (e : Entropy) (now : ℕ) (label : String) (w : World)
    {body : Bytes} {rec : Record}
    → ((m : Bytes) → length (sha256 m) ≡ 32)
    → length e.body ≡ 32
    → All (λ d. length d ≡ 8) e.ids
    → (create sha256 f e now label w).0 ≡ ok (body, rec)
    → (length body ≡ 52) × (length rec.id ≡ 16) × (length rec.fingerprint ≡ 12)
create-lengths sha256 f e now label w digest b ids h =
    let (_, g, _, _) = create-ok_keys sha256 f e now label w h in
    let (p, q) = create-ok_body sha256 f e now label w h in
    (
      rw p (body_length e.body b),
      generate_id-length _ e.ids ids g,
      rw q (fingerprint_length sha256 _ digest),
    )
