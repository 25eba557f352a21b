-- ===== src/Keystore/Locking.antt =====
-- internal/keystore: the lock of lock.go under the atomic rename of writeDB, between processes.
-- `flock` locks the file that was opened, and `os.Rename` puts another file at the path, so the
-- steps name files by their inode. An update is a read of the path, a change and a rename.
use raxd.Prelude.{ℕ, suc, ◌-◌, ◌≡◌, List, Option, none, some, if◌then◌else◌, ◌==◌}
use raxd.Keystore.{DbRecord}

-- Where a process stands: within Create, Revoke or FlushUsage, which lock exclusively, or within List
-- or Verify, which share the lock.
pub data Phase : Type 0 where
  outside : Phase
  opened : ℕ → Phase
  opened_shared : ℕ → Phase
  sharing : ℕ → Phase
  locked : ℕ → Phase
  loaded : ℕ → List DbRecord → Phase
  renamed : ℕ → Phase
  returned : Phase

-- `path` is the inode of keys.db and `fresh` the next unused one; `holder` is who has the exclusive
-- lock of an inode, and `sharers` how many share it.
pub record System : Type 0 where
  pub path : ℕ
  pub fresh : ℕ
  pub contents : ℕ → List DbRecord
  pub holder : ℕ → Option ℕ
  pub sharers : ℕ → ℕ
  pub phase : ℕ → Phase

abbrev pub at {ℓ} : {A : Type ℓ} → (ℕ → A) → ℕ → A → ℕ → A
at f i v j = if j == i then v else f j

abbrev pub goes : System → ℕ → Phase → System
goes s p ph = record s { phase = at s.phase p ph }

-- `update p` is what process p does to the records between its read and its write.
pub data Step (update : ℕ → List DbRecord → List DbRecord) : System → System → Type 0 where
  opens : {s : System} (p : ℕ) → s.phase p ≡ outside → Step update s (goes s p (opened s.path))
  locks :
      {s : System} (p i : ℕ)
      → s.phase p ≡ opened i
      → s.holder i ≡ none
      → s.sharers i ≡ 0
      → Step update s (goes (record s { holder = at s.holder i (some p) }) p (locked i))
  reads :
      {s : System} (p i : ℕ)
      → s.phase p ≡ locked i
      → Step update s (goes s p (loaded i (s.contents s.path)))
  renames :
      {s : System} (p i : ℕ) (ks : List DbRecord)
      → s.phase p ≡ loaded i ks
      → Step update s (
          goes
            (record s {
              path = s.fresh;
              fresh = suc s.fresh;
              contents = at s.contents s.fresh (update p ks);
            })
            p
            (renamed i))
  unlocks :
      {s : System} (p i : ℕ)
      → s.phase p ≡ renamed i
      → Step update s (goes (record s { holder = at s.holder i none }) p returned)
  -- An error of flock, of the read, of the change, or of the write before its rename.
  fails_to_lock : {s : System} (p i : ℕ) → s.phase p ≡ opened i → Step update s (goes s p returned)
  fails_early :
      {s : System} (p i : ℕ)
      → s.phase p ≡ locked i
      → Step update s (goes (record s { holder = at s.holder i none }) p returned)
  fails_late :
      {s : System} (p i : ℕ) (ks : List DbRecord)
      → s.phase p ≡ loaded i ks
      → Step update s (goes (record s { holder = at s.holder i none }) p returned)
  opens_shared :
      {s : System} (p : ℕ) → s.phase p ≡ outside → Step update s (goes s p (opened_shared s.path))
  shares :
      {s : System} (p i : ℕ)
      → s.phase p ≡ opened_shared i
      → s.holder i ≡ none
      → Step update s
          (goes (record s { sharers = at s.sharers i (suc (s.sharers i)) }) p (sharing i))
  fails_to_share :
      {s : System} (p i : ℕ) → s.phase p ≡ opened_shared i → Step update s (goes s p returned)
  -- After its read of the path, well or not.
  stops_sharing :
      {s : System} (p i : ℕ)
      → s.phase p ≡ sharing i
      → Step update s (goes (record s { sharers = at s.sharers i (s.sharers i - 1) }) p returned)

pub data Reach (update : ℕ → List DbRecord → List DbRecord) (s : System) : System → Type 0 where
  here : Reach update s s
  next : {t u : System} → Reach update s t → Step update t u → Reach update s u

-- One file, at inode 0, and no process inside.
abbrev pub start : List DbRecord → System
start ks = record {
  path = 0;
  fresh = 1;
  contents = λ i. ks;
  holder = λ i. none;
  sharers = λ i. 0;
  phase = λ p. outside;
}
