-- ===== src/Keystore/History.antt =====
-- Any sequence of calls of the methods of `Store`, with any failing system calls, and what one
-- call may do to the records on disk.
use raxd.Prelude.{ℕ, ◌≡◌, ap, Option, false, List, [], ◌∷◌, ◌++◌, String, Bytes, inl, inr}
use raxd.Keystore.{DbRecord, to_db_record, Contents, World, Faults}
use raxd.Prelude.Exec.{Result-cases}
use raxd.Keystore.Exec.{ok}
use raxd.Keystore.Crypto.{contains}
use raxd.Keystore.Usage.{Usage}
use raxd.Keystore.Store.{
  Entropy, ids_of, create, revoke_loop, revoke, apply_usage, flush_usage, flush_snapshot, verify,
  list,
}
use raxd.Keystore.Atomic.{
  keys_of, generate_id_fresh, create-err_keys, create-ok_keys, revoke-err_keys, revoke-ok_keys,
  flush-err_keys, flush-ok_keys, file-verify, list_world,
}

pub data Call : Type 0 where
  creates : Faults → Entropy → ℕ → String → Call
  revokes : Faults → ℕ → Bytes → Call
  verifies : Faults → ℕ → Bytes → Call
  lists : Faults → Call
  flushes : Faults → Call

-- Records are only added under a fresh id and active, or changed by the loops of Revoke and of
-- FlushUsage.
pub data KeyStep : List DbRecord → List DbRecord → Type 0 where
  idle : {ks : List DbRecord} → KeyStep ks ks
  add_key :
      {ks : List DbRecord} (d : DbRecord)
      → contains d.id (ids_of ks) ≡ false
      → d.revoked ≡ false
      → KeyStep ks (ks ++ d ∷ [])
  revoke_key :
      {ks ks' : List DbRecord} (id : Bytes) (now : ℕ)
      → revoke_loop id now ks ≡ ok ks'
      → KeyStep ks ks'
  touch_keys : {ks : List DbRecord} (snapshot : Usage) → KeyStep ks (apply_usage snapshot ks)

KeyStep-same : {ks ks' : List DbRecord} → ks' ≡ ks → KeyStep ks ks'
KeyStep-same e = rw e idle

module _ (sha256 : Bytes → Bytes) where
  unfoldable pub step : World → Call → World
  step w (creates f e now label) = (create sha256 f e now label w).1
  step w (revokes f now id) = (revoke f now id w).1
  step w (verifies f now presented) = (verify sha256 f now presented w).1
  step w (lists f) = (list f w).1
  step w (flushes f) = (flush_usage f w).1

  unfoldable pub run : World → List Call → World
  unfolding step
  run w [] = w
  run w (c ∷ cs) = run (step w c) cs

  create-KeyStep :
      (f : Faults) (e : Entropy) (now : ℕ) (label : String) (w : World)
      → KeyStep (keys_of w.file) (keys_of (create sha256 f e now label w).1.file)
  unfolding to_db_record
  create-KeyStep f e now label w = elim (Result-cases (create sha256 f e now label w).0) [
    | inl ((body, rec), h) ↦
        let (k, g, a, _) = create-ok_keys sha256 f e now label w h in
        rw k (add_key (to_db_record rec) (generate_id_fresh _ e.ids rec.id g) a)
    | inr (x, h) ↦ KeyStep-same (create-err_keys sha256 f e now label w h)
  ]

  revoke-KeyStep :
      (f : Faults) (now : ℕ) (id : Bytes) (w : World)
      → KeyStep (keys_of w.file) (keys_of (revoke f now id w).1.file)
  revoke-KeyStep f now id w = elim (Result-cases (revoke f now id w).0) [
    | inl (tt, h) ↦ revoke_key id now (revoke-ok_keys f now id w h)
    | inr (x, h) ↦ KeyStep-same (revoke-err_keys f now id w h)
  ]

  snapshot-KeyStep :
      (f : Faults) (snapshot : Usage) (w : World)
      → KeyStep (keys_of w.file) (keys_of (flush_snapshot f snapshot w).1.file)
  snapshot-KeyStep f snapshot w = elim (Result-cases (flush_snapshot f snapshot w).0) [
    | inl (tt, h) ↦ rw (flush-ok_keys f snapshot w h) (touch_keys snapshot)
    | inr (x, h) ↦ KeyStep-same (flush-err_keys f snapshot w h)
  ]

  flush-KeyStep :
      (f : Faults) (w : World) (buf : Usage)
      → KeyStep (keys_of w.file) (keys_of (flush_usage f (record w { usage_buf = buf })).1.file)
  unfolding flush_usage
  flush-KeyStep f w [] = idle
  flush-KeyStep f w (u ∷ us) = snapshot-KeyStep f (u ∷ us) (record w { usage_buf = [] })

  -- Every call, failing or not, makes at most one step of the records on disk.
  pub step-KeyStep : (w : World) (c : Call) → KeyStep (keys_of w.file) (keys_of (step w c).file)
  unfolding step
  step-KeyStep w (creates f e now label) = create-KeyStep f e now label w
  step-KeyStep w (revokes f now id) = revoke-KeyStep f now id w
  step-KeyStep w (verifies f now presented) =
      KeyStep-same (ap (λ (o : Option Contents). keys_of o) (file-verify sha256 f now presented w))
  step-KeyStep w (lists f) = KeyStep-same (ap (λ (v : World). keys_of v.file) (list_world f w))
  step-KeyStep w (flushes f) = flush-KeyStep f w w.usage_buf

  -- What every step of the records keeps, every history keeps.
  pub run_induction :
      (P : List DbRecord → Type 0)
      → ((ks ks' : List DbRecord) → KeyStep ks ks' → P ks → P ks')
      → (w : World) (cs : List Call) → P (keys_of w.file)
      → P (keys_of (run w cs).file)
  unfolding run
  run_induction P keep w [] h = h
  run_induction P keep w (c ∷ cs) h =
      run_induction P keep (step w c) cs (keep _ _ (step-KeyStep w c) h)
