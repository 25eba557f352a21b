-- ===== src/FileUpload/Write/Outcomes.antt =====
-- Write on every branch: what an error leaves, what a success changes, and sequences of writes.
use raxd.Prelude.{
  sym, ℕ, ◌≡◌, ap, Bool, true, false, none, some, Bytes, arith, ◌⊎◌, if◌then◌else◌, length, inl,
  inr, Option-cases, Bool-cases,
}
use raxd.Prelude.Exec.{ok, err, Result-cases}
use raxd.Prelude.Int.{pos, eqb_ℤ}
use raxd.FileUpload.{Config, Input, Written, UploadError}
use raxd.FileUpload.Path.{dir_of}
use raxd.FileUpload.Root.{
  Node, total, FilePath, file, Tree, Faults, path_eq, find, node_at, resolve, stat, mkdir_all,
}
use raxd.FileUpload.Root.Laws.{find-put}
use raxd.FileUpload.Root.Following.{named_by, resolve-named_by}
use raxd.FileUpload.Root.Growth.{Keeps, Grows, Grows-refl, mkdir_all-Grows, resolve-Keeps}
use raxd.FileUpload.Write.{do_write, check_target, write_under_root, write_with_quota, write}
use raxd.FileUpload.Write.Temp.{written_file, do_write-ok, do_write-err, do_write-result}
use raxd.FileUpload.Write.Quota.{quota_run}

target_free :
    (f : Faults) (path : Bytes) (t : Tree) {b : Bool} {replaced : ℕ}
    → f.stat_fails ≡ false
    → check_target false (stat f path t) ≡ ok (b, replaced)
    → (b ≡ false) × ((q : FilePath) → resolve t path ≡ some q → node_at t q ≡ none)
unfolding stat
target_free f path t k h = (
  ground arith,
  λ q e. elim (Option-cases (node_at t q)) [ inl n ↦ n | inr (n, e') ↦ absurd (ground arith) ],
)

free_before :
    (t u : Tree) (path : Bytes)
    → Keeps t u
    → ((q : FilePath) → resolve u path ≡ some q → node_at u q ≡ none)
    → (q : FilePath) → resolve t path ≡ some q
    → node_at t q ≡ none
free_before t u path keeps free q e = elim (Option-cases (node_at t q)) [
  | inl n ↦ n
  | inr (n, e') ↦ absurd (ground (arith, keeps q n, free q (resolve-Keeps t u path keeps e)))
]

module _ (f : Faults) (drawn : Bytes) (cfg : Config) (input : Input) (t : Tree) where
  abbrev made : Tree
  made = (mkdir_all (dir_of input.rel_path) t).1

  under_root_err :
      {e : UploadError}
      → f.remove_fails ≡ false
      → (write_under_root f drawn cfg input t).0 ≡ err e
      → ((write_under_root f drawn cfg input t).1 ≡ t)
        ⊎ ((write_under_root f drawn cfg input t).1 ≡ made)
  unfolding write_under_root
  under_root_err {e} k h = ground (
    arith,
    do_write-err f drawn (dir_of input.rel_path) input true made {e = e} k,
    do_write-err f drawn (dir_of input.rel_path) input false made {e = e} k,
  )

  with_quota_err :
      {e : UploadError}
      → f.remove_fails ≡ false
      → (write_with_quota f drawn cfg input t).0 ≡ err e
      → ((write_with_quota f drawn cfg input t).1 ≡ t)
        ⊎ ((write_with_quota f drawn cfg input t).1 ≡ made)
  unfolding write_with_quota
  with_quota_err {e} k h =
      elim (Result-cases (check_target input.overwrite (stat f input.rel_path t))) [
        | inl ((b, replaced), c) ↦
            ground (arith, do_write-err f drawn (dir_of input.rel_path) input b made {e = e} k)
        | inr (x, c) ↦ ground arith
      ]

  either-Grows : (u : Tree) → (u ≡ t) ⊎ (u ≡ made) → Grows t u
  either-Grows u (inl e) = rw e (Grows-refl t)
  either-Grows u (inr e) = rw e (mkdir_all-Grows (dir_of input.rel_path) t)

  write_err :
      {e : UploadError}
      → f.remove_fails ≡ false
      → (write f drawn cfg input t).0 ≡ err e
      → ((write f drawn cfg input t).1 ≡ t) ⊎ ((write f drawn cfg input t).1 ≡ made)
  unfolding write
  write_err {e} k h = ground (arith, under_root_err {e = e} k, with_quota_err {e = e} k)

  -- At most directories were made.
  pub write_err_keeps :
      {e : UploadError}
      → f.remove_fails ≡ false
      → (write f drawn cfg input t).0 ≡ err e
      → Grows t (write f drawn cfg input t).1
  write_err_keeps k h = either-Grows (write f drawn cfg input t).1 (write_err k h)

  -- A write that fails, where the temporary file can be removed, leaves every node that was in the
  -- tree in its place, and the bytes in total as they were.
  pub write_err_node :
      {e : UploadError} (p : FilePath) (n : Node)
      → f.remove_fails ≡ false
      → (write f drawn cfg input t).0 ≡ err e
      → node_at t p ≡ some n
      → (node_at (write f drawn cfg input t).1 p ≡ some n)
        × (total (write f drawn cfg input t).1 ≡ total t)
  write_err_node p n k h e = let kept = write_err_keeps k h in (kept.keeps p n e, kept.same_total)

  under_root_run :
      {r : Written}
      → (write_under_root f drawn cfg input t).0 ≡ ok r
      → (b : Bool) × (replaced : ℕ) × (check_target input.overwrite (stat f input.rel_path made)
          ≡ ok (b, replaced))
        × ((do_write f drawn (dir_of input.rel_path) input b made).0 ≡ ok r)
        × ((write_under_root f drawn cfg input t).1
            ≡ (do_write f drawn (dir_of input.rel_path) input b made).1)
  unfolding write_under_root
  under_root_run h =
      elim (Result-cases (check_target input.overwrite (stat f input.rel_path made))) [
        | inl ((b, replaced), e) ↦ (b, replaced, e, ground arith, ground arith)
        | inr (x, e) ↦ absurd (ground arith)
      ]

  write_ok :
      {r : Written}
      → (write f drawn cfg input t).0 ≡ ok r
      → (b : Bool) × ((do_write f drawn (dir_of input.rel_path) input b made).0 ≡ ok r)
        × ((write f drawn cfg input t).1
            ≡ (do_write f drawn (dir_of input.rel_path) input b made).1)
  unfolding write
  write_ok {r} h = elim (Bool-cases (eqb_ℤ cfg.max_total_bytes (pos 0))) [
    | inl z ↦
        let (b, _, _, run, e) = under_root_run {r = r} (ground arith) in (b, run, ground arith)
    | inr n ↦
        let (b, _, _, _, run, e) = quota_run f drawn cfg input t {r = r} (ground arith) in
        (b, run, ground arith)
  ]

  write_target :
      {r : Written}
      → input.overwrite ≡ false
      → f.stat_fails ≡ false
      → (write f drawn cfg input t).0 ≡ ok r
      → ((q : FilePath) → resolve t input.rel_path ≡ some q → node_at t q ≡ none)
        × (r ≡ record {
          rel_path = input.rel_path;
          size = length input.contents;
          overwritten = false;
          mode = input.mode;
        })
  unfolding write
  write_target {r} o k h = elim (Bool-cases (eqb_ℤ cfg.max_total_bytes (pos 0))) [
    | inl z ↦
        let (b, replaced, c, run, e) = under_root_run {r = r} (ground arith) in
        let (b_false, free) =
          target_free f input.rel_path made {b = b} {replaced = replaced} k (rw o at c) in
        (
          free_before t made input.rel_path (mkdir_all-Grows (dir_of input.rel_path) t).keeps free,
          rw b_false at (do_write-result f drawn (dir_of input.rel_path) input b made run),
        )
    | inr n ↦
        let (b, replaced, c, _, run, e) = quota_run f drawn cfg input t {r = r} (ground arith) in
        let (b_false, free) =
          target_free f input.rel_path t {b = b} {replaced = replaced} k (rw o at c) in
        (free, rw b_false at (do_write-result f drawn (dir_of input.rel_path) input b made run))
  ]

  -- A write that succeeds leaves the requested bytes and mode at the node that the requested path
  -- names, read by its components; at every other path the tree has what it had, with the parent
  -- directories made. The reply names the path, the size and the mode.
  pub write_ok_effect :
      {r : Written}
      → (write f drawn cfg input t).0 ≡ ok r
      → ((p : FilePath)
          → find p (write f drawn cfg input t).1 ≡ (
              if path_eq p (named_by input.rel_path)
              then some (file input.contents input.mode)
              else find p made))
        × (r.rel_path ≡ input.rel_path)
        × (r.size ≡ length input.contents)
        × (r.mode ≡ input.mode)
  write_ok_effect {r} h =
      let (b, run, e) = write_ok h in
      let (q, _, at_q, _, e') = do_write-ok f drawn (dir_of input.rel_path) input b made run in
      let shape = do_write-result f drawn (dir_of input.rel_path) input b made run in
      let named = resolve-named_by _ input.rel_path q at_q in
      (
        λ p. rw (e, e', sym named) (find-put q p (written_file input) made),
        ap (λ (x : Written). x.rel_path) shape,
        ap (λ (x : Written). x.size) shape,
        ap (λ (x : Written). x.mode) shape,
      )

  -- Without permission to overwrite, and where Stat does not fail, a write that succeeds reports
  -- no overwriting, and nothing was before at the path that the requested one leads to.
  pub write_no_overwrite :
      {r : Written} (q : FilePath)
      → input.overwrite ≡ false
      → f.stat_fails ≡ false
      → resolve t input.rel_path ≡ some q
      → (write f drawn cfg input t).0 ≡ ok r
      → (r.overwritten ≡ false) × (node_at t q ≡ none)
  write_no_overwrite {r} q o k e h =
      let (free, shape) = write_target {r = r} o k h in
      (ap (λ (x : Written). x.overwritten) shape, free q e)
