-- ===== src/FileUpload/Write/Quota.antt =====
-- The quota of the upload root: a write that succeeds leaves no more bytes than the limit.
use raxd.Prelude.{
  ℕ, ◌+◌, ◌-◌, ◌<◌, ◌^◌, ◌≡◌, ◌≤◌, ap, Bool, false, none, some, [], ◌∷◌, Bytes, arith, ◌⊎◌, length,
  inl, inr, Option-cases,
}
use raxd.Prelude.Exec.{ok, Result-cases}
use raxd.Prelude.Int.{ℤ, pos, sub_ℕ, to_int64}
use raxd.FileUpload.{Config, Input, Written}
use raxd.FileUpload.Path.{dir_of}
use raxd.FileUpload.Root.{
  FilePath, Node, Tree, Faults, find, size, total, node_at, resolve, stat, mkdir_all,
}
use raxd.FileUpload.Root.Laws.{size_of, total-put}
use raxd.FileUpload.Root.Growth.{mkdir_all-Grows, node_at-put, resolve-Keeps}
use raxd.FileUpload.Write.{random_tmp_name, do_write, check_target, exceeds, write_with_quota}
use raxd.FileUpload.Write.Temp.{written_file, tmp, staged, do_write-ok}

-- What the check of the target found: nothing that counts, or a node of this size.
replaced_source :
    (f : Faults) (path : Bytes) (t : Tree) (overwrite b : Bool) (replaced : ℕ)
    → check_target overwrite (stat f path t) ≡ ok (b, replaced)
    → (replaced ≡ 0)
      ⊎ ((q : FilePath) × (n : Node) × (resolve t path ≡ some q)
          × (node_at t q ≡ some n)
          × (size n ≡ replaced))
unfolding stat
replaced_source f path t overwrite b replaced h = elim (Option-cases (resolve t path)) [
  | inl e ↦ inl (ground arith)
  | inr (q, e) ↦ elim (Option-cases (node_at t q)) [
    | inl k ↦ inl (ground arith)
    | inr (n, k) ↦ ground arith
  ]
]

size_of-node_at :
    (q : FilePath) (t : Tree) (n : Node) → node_at t q ≡ some n → size n ≤ size_of (find q t)
unfolding node_at
size_of-node_at [] t n h = ground arith
size_of-node_at (x ∷ q) t n h = ground arith

-- A difference that is no negative number and fits is not changed.
small_int64 : (a b : ℕ) → a < 2 ^ 63 → b ≤ a → to_int64 (sub_ℕ a b) ≡ pos (a - b)
unfolding to_int64
small_int64 a b w z = ground arith

-- The test of the quota, where what is replaced is at least what the test subtracts.
exceeds_le :
    (limit : ℤ) (current replaced added m after freed : ℕ)
    → limit ≡ pos m
    → current + added < 2 ^ 63
    → replaced ≤ current + added
    → exceeds current replaced added limit ≡ false
    → after + freed ≡ current + added
    → replaced ≤ freed
    → after ≤ m
unfolding exceeds
exceeds_le limit current replaced added m after freed l w z h e k =
    ground (arith, small_int64 (current + added) replaced w z)

module _ (f : Faults) (drawn : Bytes) (cfg : Config) (input : Input) (t : Tree) where
  abbrev pub made : Tree
  made = (mkdir_all (dir_of input.rel_path) t).1

  pub quota_run :
      {r : Written}
      → (write_with_quota f drawn cfg input t).0 ≡ ok r
      → (b : Bool) × (replaced : ℕ) × (check_target input.overwrite (stat f input.rel_path t)
          ≡ ok (b, replaced))
        × (exceeds (total t) replaced (length input.contents) cfg.max_total_bytes ≡ false)
        × ((do_write f drawn (dir_of input.rel_path) input b made).0 ≡ ok r)
        × ((write_with_quota f drawn cfg input t).1
            ≡ (do_write f drawn (dir_of input.rel_path) input b made).1)
  unfolding write_with_quota
  quota_run h = elim (Result-cases (check_target input.overwrite (stat f input.rel_path t))) [
    | inl ((b, replaced), e) ↦ (b, replaced, e, ground arith, ground arith, ground arith)
    | inr (x, e) ↦ absurd (ground arith)
  ]

  -- What the check counted as replaced is what the rename replaces, or less.
  replaced_le :
      (b : Bool) (replaced : ℕ) (q : FilePath)
      → check_target input.overwrite (stat f input.rel_path t) ≡ ok (b, replaced)
      → find (tmp drawn (dir_of input.rel_path)) made ≡ none
      → resolve (staged drawn (dir_of input.rel_path) input made) input.rel_path ≡ some q
      → replaced ≤ size_of (find q made)
  replaced_le b replaced q c fresh e =
      elim (replaced_source f input.rel_path t input.overwrite b replaced c) [
        | inl z ↦ omega arith
        | inr (p, n, at_p, node, sized) ↦
            let grown = mkdir_all-Grows (dir_of input.rel_path) t in
            let there = resolve-Keeps t made input.rel_path grown.keeps at_p in
            let same =
              resolve-Keeps made (staged drawn (dir_of input.rel_path) input made) input.rel_path
                (node_at-put (random_tmp_name drawn) (dir_of input.rel_path) (written_file input)
                  made fresh)
                there in
            let p≡q : p ≡ q = cc in
            let counted = size_of-node_at p made n (grown.keeps p n node) in
            omega (arith, ap (λ (x : FilePath). size_of (find x made)) p≡q)
      ]

  -- A write under a limit on the total that succeeds, where the bytes in the root and those to write
  -- are together fewer than 2 ^ 63, leaves at most that many bytes in the root.
  pub write_with_quota-le :
      (m : ℕ) {r : Written}
      → cfg.max_total_bytes ≡ pos m
      → total t + length input.contents < 2 ^ 63
      → (write_with_quota f drawn cfg input t).0 ≡ ok r
      → total (write_with_quota f drawn cfg input t).1 ≤ m
  write_with_quota-le m c w h =
      let (b, replaced, checked, fits, written, e) = quota_run h in
      let (q, fresh, at_q, _, e') =
        do_write-ok f drawn (dir_of input.rel_path) input b made written in
      let below = replaced_le b replaced q checked fresh at_q in
      let moved = total-put q (written_file input) made in
      let same = (mkdir_all-Grows (dir_of input.rel_path) t).same_total in
      rw (e, e')
        (exceeds_le cfg.max_total_bytes (total t) replaced (length input.contents) m _
          (size_of (find q made)) c w (omega (arith, moved, same, below)) fits
          (omega (arith, moved, same)) below)
