-- ===== src/Keystore/Effects.antt =====
-- What each method of `Store` may do to the records on disk, said without its loops.
use raxd.Prelude.{
  ◌≡◌, ◌≢◌, refl, ap, ◌∙◌, Bool, true, false, Option, none, some, if◌then◌else◌, List, [], ◌∷◌,
  ◌++◌, Bytes, bytes_eq, bytes_eq_sound, bytes_eq_refl, All, ◌⊎◌, inl, inr, arith, Bool-cases, ℕ,
}
use raxd.Prelude.Exec.{Result-cases}
use raxd.Keystore.{DbRecord, to_db_record, World, Faults, Contents}
use raxd.Keystore.Exec.{ok}
use raxd.Keystore.Crypto.{contains}
use raxd.Keystore.Usage.{Usage, get_usage}
use raxd.Keystore.Store.{
  ids_of, create, revoke_loop, revoke, apply_usage, flush_usage, flush_snapshot, touch,
}
use raxd.Keystore.Atomic.{
  keys_of, generate_id_fresh, create-err_keys, create-ok_keys, revoke-err_keys, revoke-ok_keys,
  flush-err_keys, flush-ok_keys, file-verify, list_world,
}
use raxd.Keystore.History.{Call, creates, revokes, verifies, lists, flushes, step}

-- One record is added at the end: active, and with an id that no record has.
pub record Adds (ks ks' : List DbRecord) : Type 0 where
  pub added : DbRecord
  pub at_end : ks' ≡ ks ++ added ∷ []
  pub active : added.revoked ≡ false
  pub new_id : All (λ d. d.id ≢ added.id) ks

-- One active record of this id becomes revoked, at this time; all else of it and every other record
-- stay.
pub record Revokes (id : Bytes) (now : ℕ) (ks ks' : List DbRecord) : Type 0 where
  pub before : List DbRecord
  pub target : DbRecord
  pub behind : List DbRecord
  pub split : ks ≡ before ++ target ∷ behind
  pub named : target.id ≡ id
  pub active : target.revoked ≡ false
  pub marked : ks' ≡ before ++ record target { revoked = true; revoked_at = now } ∷ behind

-- The same record but for its time of use, which only an active record is given.
abbrev pub IsTouched : DbRecord → DbRecord → Type 0
IsTouched d e = (e ≡ record d { last_used = e.last_used }) × ((d.revoked ≡ false) ⊎ (e ≡ d))

abbrev pub AreTouched : List DbRecord → List DbRecord → Type 0
AreTouched [] es = es ≡ []
AreTouched (d ∷ ds) [] = (d ∷ ds) ≡ []
AreTouched (d ∷ ds) (e ∷ es) = IsTouched d e × AreTouched ds es

-- What a call may do: nothing, or what it is for.
abbrev pub Does : Call → List DbRecord → List DbRecord → Type 0
Does (creates f e now label) ks ks' = (ks' ≡ ks) ⊎ Adds ks ks'
Does (revokes f now id) ks ks' = (ks' ≡ ks) ⊎ Revokes id now ks ks'
Does (verifies f now presented) ks ks' = ks' ≡ ks
Does (lists f) ks ks' = ks' ≡ ks
Does (flushes f) ks ks' = AreTouched ks ks'

not_contained :
    (id : Bytes) (ks : List DbRecord) → contains id (ids_of ks) ≡ false → All (λ d. d.id ≢ id) ks
unfolding contains
not_contained id [] h = tt
not_contained id (d ∷ ds) h =
    (λ e. ground (arith, h, e, bytes_eq_refl id), not_contained id ds (ground (arith, h)))

revoke_loop-Revokes :
    (id : Bytes) (now : ℕ) (ks ks' : List DbRecord)
    → revoke_loop id now ks ≡ ok ks'
    → Revokes id now ks ks'
unfolding revoke_loop
revoke_loop-Revokes id now [] ks' h = cc
revoke_loop-Revokes id now (d ∷ ds) ks' h = elim (Bool-cases (bytes_eq d.id id)) [
  | inl b ↦
      let live : d.revoked ≡ false = ground (arith, b) in
      record {
        before = [];
        target = d;
        behind = ds;
        split = refl;
        named = bytes_eq_sound d.id id b;
        active = live;
        marked = ground (arith, b, live);
      }
  | inr b ↦ elim (Result-cases (revoke_loop id now ds)) [
    | inl (es, e) ↦
        let r = revoke_loop-Revokes id now ds es e in
        let longer : ks' ≡ d ∷ es = ground (arith, b, e) in
        record {
          before = d ∷ r.before;
          target = r.target;
          behind = r.behind;
          split = ap (λ l. d ∷ l) r.split;
          named = r.named;
          active = r.active;
          marked = longer ∙ ap (λ l. d ∷ l) r.marked;
        }
    | inr (x, e) ↦ absurd (ground (arith, b, e))
  ]
]

touched : (ks : List DbRecord) → AreTouched ks ks
touched [] = refl
touched (d ∷ ds) = ((refl, inr refl), touched ds)

same_touched : {ks ks' : List DbRecord} → ks' ≡ ks → AreTouched ks ks'
same_touched {ks} e = rw e (touched ks)

given_time :
    (b : Bool) (t : ℕ) (d : DbRecord)
    → d.revoked ≡ b
    → IsTouched d (if b then d else record d { last_used = t })
given_time true t d e = (refl, inr refl)
given_time false t d e = (refl, inl e)

touch-IsTouched : (o : Option ℕ) (d : DbRecord) → IsTouched d (touch o d)
touch-IsTouched none d = (refl, inr refl)
touch-IsTouched (some t) d = given_time d.revoked t d refl

apply_usage-AreTouched :
    (snapshot : Usage) (ks : List DbRecord) → AreTouched ks (apply_usage snapshot ks)
unfolding apply_usage
apply_usage-AreTouched snapshot [] = refl
apply_usage-AreTouched snapshot (d ∷ ds) =
    (touch-IsTouched (get_usage d.id snapshot) d, apply_usage-AreTouched snapshot ds)

module _ (sha256 : Bytes → Bytes) where
  flush-AreTouched :
      (f : Faults) (snapshot : Usage) (w : World)
      → AreTouched (keys_of w.file) (keys_of (flush_snapshot f snapshot w).1.file)
  flush-AreTouched f snapshot w = elim (Result-cases (flush_snapshot f snapshot w).0) [
    | inl (tt, h) ↦
        rw (flush-ok_keys f snapshot w h) (apply_usage-AreTouched snapshot (keys_of w.file))
    | inr (x, h) ↦ same_touched (flush-err_keys f snapshot w h)
  ]

  flushed :
      (f : Faults) (w : World) (buf : Usage)
      → AreTouched (keys_of w.file) (keys_of (flush_usage f (record w { usage_buf = buf })).1.file)
  unfolding flush_usage
  flushed f w [] = touched (keys_of w.file)
  flushed f w (u ∷ us) = flush-AreTouched f (u ∷ us) (record w { usage_buf = [] })

  -- Whatever system calls fail, Create leaves the records as they were or adds one active record of
  -- a new id at the end; Revoke leaves them or marks one active record of its id as revoked at its
  -- time, and nothing else; Verify and List leave them; and FlushUsage changes nothing but the time
  -- of use of active records.
  pub step-Does : (w : World) (c : Call) → Does c (keys_of w.file) (keys_of (step sha256 w c).file)
  unfolding step to_db_record
  step-Does w (creates f e now label) = elim (Result-cases (create sha256 f e now label w).0) [
    | inl ((body, rec), h) ↦
        let (k, g, a, _) = create-ok_keys sha256 f e now label w h in
        inr (record {
          added = to_db_record rec;
          at_end = k;
          active = a;
          new_id = not_contained rec.id (keys_of w.file) (generate_id_fresh _ e.ids rec.id g);
        })
    | inr (x, h) ↦ inl (create-err_keys sha256 f e now label w h)
  ]
  step-Does w (revokes f now id) = elim (Result-cases (revoke f now id w).0) [
    | inl (tt, h) ↦
        inr (revoke_loop-Revokes id now (keys_of w.file) _ (revoke-ok_keys f now id w h))
    | inr (x, h) ↦ inl (revoke-err_keys f now id w h)
  ]
  step-Does w (verifies f now presented) =
      ap (λ (o : Option Contents). keys_of o) (file-verify sha256 f now presented w)
  step-Does w (lists f) = ap (λ (v : World). keys_of v.file) (list_world f w)
  step-Does w (flushes f) = flushed f w w.usage_buf
