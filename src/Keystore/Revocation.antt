-- ===== src/Keystore/Revocation.antt =====
-- Revoke and Verify over the records: a revoked id stays revoked, and no id is given twice.
use raxd.Prelude.{
  ℕ, ◌≡◌, refl, inl, inr, Bool, true, false, not, ◌&&◌, ◌||◌, List, [], ◌∷◌, ◌++◌, Bytes, arith,
  bytes_eq, bytes_eq_sound, bytes_eq_refl,
}
use raxd.Keystore.{DbRecord}
use raxd.Prelude.Exec.{Result-cases}
use raxd.Keystore.Exec.{ok}
use raxd.Keystore.Crypto.{contains}
use raxd.Keystore.Usage.{Usage}
use raxd.Keystore.Store.{ids_of, revoke_loop, apply_usage}
use raxd.Keystore.History.{KeyStep, idle, add_key, revoke_key, touch_keys}

-- No id occurs twice.
abbrev pub unique : List Bytes → Bool
unique [] = true
unique (id ∷ ids) = not (contains id ids) && unique ids

-- Every record with this id is revoked.
abbrev pub all_revoked : Bytes → List DbRecord → Bool
all_revoked id [] = true
all_revoked id (d ∷ ds) = (not (bytes_eq d.id id) || d.revoked) && all_revoked id ds

-- The id was given out, and is revoked.
abbrev pub IsRevoked : Bytes → List DbRecord → Type 0
IsRevoked id ks = (contains id (ids_of ks) ≡ true) × (all_revoked id ks ≡ true)

contains-append :
    (id : Bytes) (ks : List DbRecord) (d : DbRecord)
    → contains id (ids_of (ks ++ d ∷ [])) ≡ (contains id (ids_of ks) || bytes_eq id d.id)
unfolding contains
contains-append id [] d = ground arith
contains-append id (k ∷ ks) d = ground (arith, contains-append id ks d)

bytes_eq_symm : (a b : Bytes) → bytes_eq a b ≡ bytes_eq b a
bytes_eq_symm a b =
    ground (arith, bytes_eq_sound a b, bytes_eq_sound b a, bytes_eq_refl a, bytes_eq_refl b)

unique-append :
    (ks : List DbRecord) (d : DbRecord)
    → contains d.id (ids_of ks) ≡ false
    → unique (ids_of ks) ≡ true
    → unique (ids_of (ks ++ d ∷ [])) ≡ true
unfolding contains
unique-append [] d n u = refl
unique-append (k ∷ ks) d n u =
    ground (arith, unique-append ks d, contains-append k.id ks d, bytes_eq_symm d.id k.id)

all_revoked-append :
    (id : Bytes) (ks : List DbRecord) (d : DbRecord)
    → all_revoked id (ks ++ d ∷ []) ≡ (all_revoked id ks && (not (bytes_eq d.id id) || d.revoked))
all_revoked-append id [] d = ground arith
all_revoked-append id (k ∷ ks) d = ground (arith, all_revoked-append id ks d)

ids_of-revoke_loop :
    (id : Bytes) (now : ℕ) (ks : List DbRecord) {ks' : List DbRecord}
    → revoke_loop id now ks ≡ ok ks'
    → ids_of ks' ≡ ids_of ks
unfolding revoke_loop
ids_of-revoke_loop id now [] h = cc
ids_of-revoke_loop id now (k ∷ ks) h = elim (Result-cases (revoke_loop id now ks)) [
  | inl (ks', e) ↦ ground (arith, ids_of-revoke_loop id now ks e)
  | inr (x, e) ↦ ground arith
]

ids_of-apply_usage :
    (snapshot : Usage) (ks : List DbRecord) → ids_of (apply_usage snapshot ks) ≡ ids_of ks
unfolding apply_usage
ids_of-apply_usage snapshot [] = refl
ids_of-apply_usage snapshot (k ∷ ks) = ground (arith, ids_of-apply_usage snapshot ks)

all_revoked-revoke_loop :
    (j id : Bytes) (now : ℕ) (ks : List DbRecord) {ks' : List DbRecord}
    → revoke_loop id now ks ≡ ok ks'
    → all_revoked j ks ≡ true
    → all_revoked j ks' ≡ true
unfolding revoke_loop
all_revoked-revoke_loop j id now [] h a = cc
all_revoked-revoke_loop j id now (k ∷ ks) h a = elim (Result-cases (revoke_loop id now ks)) [
  | inl (ks', e) ↦ ground (arith, all_revoked-revoke_loop j id now ks e)
  | inr (x, e) ↦ ground arith
]

all_revoked-apply_usage :
    (id : Bytes) (snapshot : Usage) (ks : List DbRecord)
    → all_revoked id (apply_usage snapshot ks) ≡ all_revoked id ks
unfolding apply_usage
all_revoked-apply_usage id snapshot [] = refl
all_revoked-apply_usage id snapshot (k ∷ ks) =
    ground (arith, all_revoked-apply_usage id snapshot ks)

-- An id that does not occur has no active record.
all_revoked_of_absent :
    (id : Bytes) (ks : List DbRecord) → contains id (ids_of ks) ≡ false → all_revoked id ks ≡ true
unfolding contains
all_revoked_of_absent id [] n = refl
all_revoked_of_absent id (k ∷ ks) n =
    ground (arith, all_revoked_of_absent id ks, bytes_eq_symm id k.id)

pub revoke_loop-IsRevoked :
    (id : Bytes) (now : ℕ) (ks : List DbRecord) {ks' : List DbRecord}
    → unique (ids_of ks) ≡ true
    → revoke_loop id now ks ≡ ok ks'
    → IsRevoked id ks'
unfolding revoke_loop contains
revoke_loop-IsRevoked id now [] u h = cc
revoke_loop-IsRevoked id now (k ∷ ks) u h = elim (Result-cases (revoke_loop id now ks)) [
  | inl (ks', e) ↦ ground (
    arith,
    revoke_loop-IsRevoked id now ks _ e,
    all_revoked_of_absent id ks,
    bytes_eq_sound k.id id,
    bytes_eq_symm k.id id,
  )
  | inr (x, e) ↦
      ground (arith, all_revoked_of_absent id ks, bytes_eq_sound k.id id, bytes_eq_refl id)
]

pub KeyStep-unique :
    (ks ks' : List DbRecord)
    → KeyStep ks ks'
    → unique (ids_of ks) ≡ true
    → unique (ids_of ks') ≡ true
KeyStep-unique ks ks' idle u = u
KeyStep-unique ks ks' (add_key d n a) u = unique-append ks d n u
KeyStep-unique ks ks' (revoke_key id now h) u = rw (ids_of-revoke_loop id now ks h) u
KeyStep-unique ks ks' (touch_keys snapshot) u = rw (ids_of-apply_usage snapshot ks) u

pub KeyStep-IsRevoked :
    (id : Bytes) (ks ks' : List DbRecord) → KeyStep ks ks' → IsRevoked id ks → IsRevoked id ks'
KeyStep-IsRevoked id ks ks' idle r = r
KeyStep-IsRevoked id ks ks' (add_key d n a) r =
    ground (arith, contains-append id ks d, all_revoked-append id ks d, bytes_eq_sound d.id id)
KeyStep-IsRevoked id ks ks' (revoke_key j now h) r =
    (rw (ids_of-revoke_loop j now ks h) r.0, all_revoked-revoke_loop id j now ks h r.1)
KeyStep-IsRevoked id ks ks' (touch_keys snapshot) r =
    (rw (ids_of-apply_usage snapshot ks) r.0, rw (all_revoked-apply_usage id snapshot ks) r.1)
