-- ===== src/Keystore/Flush.antt =====
-- FlushUsage: the times of use that reach the disk, and what a failing flush does to the buffer.
use raxd.Prelude.{
  ℕ, ◌≡◌, ◌≢◌, refl, ◌⊎◌, true, false, some, List, [], ◌∷◌, Bytes, Bool, arith, not, ◌&&◌, ◌==◌,
  if◌then◌else◌, All, bytes_eq_refl, bytes_eq_sound, bytes_eq,
}
use raxd.Keystore.{Record, DbRecord, StoreError, malformed, World, Faults}
use raxd.Keystore.Exec.{ok, err}
use raxd.Keystore.Disk.{acquire_lock, read_db, write_db}
use raxd.Keystore.Usage.{Usage, get_usage, set_usage, get_usage-set_usage, get_usage-restore_empty}
use raxd.Keystore.Store.{apply_usage, flush_snapshot, flush_usage, verify}
use raxd.Keystore.Atomic.{keys_of, flush-ok_keys}

-- The record, if it has the id and is active, was last used at this time.
abbrev pub is_used_at : Bytes → ℕ → DbRecord → Bool
is_used_at id t d = if bytes_eq d.id id && not d.revoked then d.last_used == t else true

abbrev pub IsUsedAt : Bytes → ℕ → DbRecord → Type 0
IsUsedAt id t d = is_used_at id t d ≡ true

apply_usage_time :
    (id : Bytes) (t : ℕ) (snapshot : Usage) (ks : List DbRecord)
    → get_usage id snapshot ≡ some t
    → All (IsUsedAt id t) (apply_usage snapshot ks)
unfolding apply_usage
apply_usage_time id t snapshot [] h = tt
apply_usage_time id t snapshot (d ∷ ds) h =
    (ground (arith, bytes_eq_sound d.id id), apply_usage_time id t snapshot ds h)

module _ (sha256 : Bytes → Bytes) where
  -- Verify notes the time in the buffer, and in nothing else.
  verify_notes :
      (f : Faults) (now : ℕ) (presented : Bytes) (w : World) {r : Record}
      → (verify sha256 f now presented w).0 ≡ ok (some r)
      → (verify sha256 f now presented w).1
        ≡ record w { usage_buf = set_usage r.id now w.usage_buf }
  unfolding verify acquire_lock read_db
  verify_notes f now presented w h = ground arith

flush-nonempty :
    (f : Faults) (w : World) (id : Bytes) (t : ℕ) (buf : Usage)
    → get_usage id buf ≡ some t
    → flush_usage f (record w { usage_buf = buf })
      ≡ flush_snapshot f buf (record w { usage_buf = [] })
unfolding flush_usage get_usage
flush-nonempty f w id t [] h = cc
flush-nonempty f w id t (u ∷ us) h = refl

flush_time :
    (f : Faults) (w : World) (id : Bytes) (t : ℕ) (buf : Usage)
    → get_usage id buf ≡ some t
    → (flush_usage f (record w { usage_buf = buf })).0 ≡ ok tt
    → All (IsUsedAt id t) (keys_of (flush_usage f (record w { usage_buf = buf })).1.file)
flush_time f w id t buf h = rw (flush-nonempty f w id t buf h) (λ k.
    rw (flush-ok_keys f buf (record w { usage_buf = [] }) k)
      (apply_usage_time id t buf (keys_of w.file) h))

-- Where Verify has accepted a key at a time and the next FlushUsage succeeds, every active record
-- on disk with the id of that key has this time as its time of use.
pub verify-flush :
    (sha256 : Bytes → Bytes) (f g : Faults) (now : ℕ) (presented : Bytes) (w : World) {r : Record}
    → (verify sha256 f now presented w).0 ≡ ok (some r)
    → (flush_usage g (verify sha256 f now presented w).1).0 ≡ ok tt
    → All (IsUsedAt r.id now) (keys_of (flush_usage g (verify sha256 f now presented w).1).1.file)
verify-flush sha256 f g now presented w {r} h = rw (verify_notes sha256 f now presented w h) (
    flush_time g w r.id now (set_usage r.id now w.usage_buf)
      (rw (get_usage-set_usage r.id r.id now w.usage_buf, bytes_eq_refl r.id)))

-- The faults by which a flush fails before it writes.
abbrev pub FailsEarly : Faults → Type 0
FailsEarly f = (f.open_fails ≡ true) ⊎ (f.flock_fails ≡ true) ⊎ (f.read_fails ≡ true)

flush_failure_restores :
    (f : Faults) (w : World) (j : Bytes) (buf : Usage)
    → FailsEarly f
    → get_usage j (flush_usage f (record w { usage_buf = buf })).1.usage_buf ≡ get_usage j buf
unfolding flush_usage acquire_lock read_db
flush_failure_restores f w j [] c = refl
flush_failure_restores f w j (u ∷ us) c = ground (arith, get_usage-restore_empty j (u ∷ us))

-- A flush that fails before it writes, because the file cannot be opened, locked or read, loses
-- no time: each id has in the buffer what it had when the flush began.
pub flush_failure_keeps :
    (f : Faults) (w : World) (j : Bytes)
    → FailsEarly f
    → get_usage j (flush_usage f w).1.usage_buf ≡ get_usage j w.usage_buf
flush_failure_keeps f w j c = flush_failure_restores f w j w.usage_buf c

flush_write_failure :
    (f : Faults) (w : World) (id : Bytes) (t : ℕ) (buf : Usage) {x : StoreError}
    → get_usage id buf ≡ some t
    → f.open_fails ≡ false
    → f.flock_fails ≡ false
    → f.read_fails ≡ false
    → w.file ≢ some malformed
    → (flush_usage f (record w { usage_buf = buf })).0 ≡ err x
    → ((flush_usage f (record w { usage_buf = buf })).1.usage_buf ≡ [])
      × (keys_of (flush_usage f (record w { usage_buf = buf })).1.file ≡ keys_of w.file)
unfolding flush_usage acquire_lock read_db write_db get_usage
flush_write_failure f w id t [] h a b c n k = cc
flush_write_failure f w id t (u ∷ us) h a b c n k = ground arith

-- Where a flush fails although the file could be opened, locked, read and parsed, the buffer is
-- empty afterwards and the records on disk are as before: the times noted are in neither place.
pub flush_failure_loses :
    (f : Faults) (w : World) (id : Bytes) (t : ℕ) {x : StoreError}
    → get_usage id w.usage_buf ≡ some t
    → f.open_fails ≡ false
    → f.flock_fails ≡ false
    → f.read_fails ≡ false
    → w.file ≢ some malformed
    → (flush_usage f w).0 ≡ err x
    → ((flush_usage f w).1.usage_buf ≡ []) × (keys_of (flush_usage f w).1.file ≡ keys_of w.file)
flush_failure_loses f w id t = flush_write_failure f w id t w.usage_buf
