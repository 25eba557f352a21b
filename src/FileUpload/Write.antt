-- ===== src/FileUpload/Write.antt =====
-- internal/fileupload/upload.go: Write and what it calls, as actions on the upload root. Write
-- holds the mutex of quota.go for the whole of writeWithQuota, so such calls follow one another.
pub mod Temp
pub mod Quota
pub mod Outcomes
pub mod History
use raxd.Prelude.{
  ℕ, ◌+◌, Bool, true, false, not, Option, none, some, List, [], ◌∷◌, ◌++◌, Bytes, codes,
  if◌then◌else◌, length, take,
}
use raxd.Prelude.Exec.{Result, ok, err, pure, raise, lift, ◌>>=◌, ◌>>◌, attempt}
use raxd.Prelude.Int.{ℤ, pos, sub_ℕ, ltb_ℤ, eqb_ℤ, to_int64}
use raxd.Keystore.Crypto.{hex}
use raxd.FileUpload.{
  Config, Input, Written, UploadError, traversal, exists, is_dir, too_large, quota_exceeded, io,
}
use raxd.FileUpload.Path.{is_local, dir_of}
use raxd.FileUpload.Root.{
  FilePath, Node, dir, other, file, Tree, Action, Faults, stat, mkdir_all, open_new, set_file,
  remove, rename, total,
}

unfoldable pub random_tmp_name : Bytes → Bytes
unfolding hex
random_tmp_name drawn = codes ".raxd-upload-" ++ hex drawn

-- The check of an existing target: whether it is overwritten, and how many bytes it frees.
abbrev pub check_target : Bool → Option Node → Result UploadError (Bool × ℕ)
check_target overwrite none = ok (false, 0)
check_target overwrite (some dir) = err is_dir
check_target overwrite (some other) = if overwrite then ok (true, 0) else err exists
check_target overwrite (some (file contents mode)) =
    if overwrite then ok (true, length contents) else err exists

abbrev pub cleaning : Faults → FilePath → Result UploadError (Unit {0}) → Action (Unit {0})
cleaning f tmp (ok u) t = (ok u, t)
cleaning f tmp (err e) t = (remove f tmp >> raise e) t

abbrev pub cleanup_unless : Faults → FilePath → Action (Unit {0}) → Action (Unit {0})
cleanup_unless f tmp m t = let (r, t') = m t in cleaning f tmp r t'

-- The deferred cleanup runs on every error after the temporary file was made.
unfoldable pub do_write : Faults → Bytes → FilePath → Input → Bool → Action Written
unfolding open_new set_file remove rename
do_write f drawn d input overwritten = do
  attempt f.rand_fails (pure tt) (io "generate temp name")
  let tmp = random_tmp_name drawn ∷ d
  attempt f.create_fails (pure tt) (io "create temp file")
  open_new tmp
  attempt f.chmod_fails (remove f tmp) (io "chmod")
  set_file tmp [] input.mode
  attempt f.write_fails
      (set_file tmp (take f.short_write input.contents) input.mode >> remove f tmp) (io "write")
  set_file tmp input.contents input.mode
  attempt f.sync_fails (remove f tmp) (io "sync")
  attempt f.close_fails (remove f tmp) (io "close")
  attempt f.rename_fails (remove f tmp) (io "rename")
  cleanup_unless f tmp (rename tmp input.rel_path)
  pure (record {
    rel_path = input.rel_path;
    size = length input.contents;
    overwritten = overwritten;
    mode = input.mode;
  })

unfoldable pub write_under_root : Faults → Bytes → Config → Input → Action Written
write_under_root f drawn cfg input = do
  attempt f.open_fails (pure tt) (io "open upload root")
  attempt f.mkdir_fails (pure tt) (io "create directories")
  mkdir_all (dir_of input.rel_path)
  (overwritten, replaced) ← λ t. (check_target input.overwrite (stat f input.rel_path t), t)
  do_write f drawn (dir_of input.rel_path) input overwritten

-- current - replaced + len(data) > max_total_bytes, on int64.
unfoldable pub exceeds : ℕ → ℕ → ℕ → ℤ → Bool
exceeds current replaced added limit = ltb_ℤ limit (to_int64 (sub_ℕ (current + added) replaced))

abbrev pub check_quota : ℕ → ℕ → Config → Action (Unit {0})
check_quota added replaced cfg t =
    (if exceeds (total t) replaced added cfg.max_total_bytes then err quota_exceeded else ok tt, t)

unfoldable pub write_with_quota : Faults → Bytes → Config → Input → Action Written
write_with_quota f drawn cfg input = do
  attempt f.open_fails (pure tt) (io "open upload root")
  (overwritten, replaced) ← λ t. (check_target input.overwrite (stat f input.rel_path t), t)
  attempt f.walk_fails (pure tt) (io "quota: walk upload root")
  check_quota (length input.contents) replaced cfg
  attempt f.mkdir_fails (pure tt) (io "create directories")
  mkdir_all (dir_of input.rel_path)
  do_write f drawn (dir_of input.rel_path) input overwritten

unfoldable pub write : Faults → Bytes → Config → Input → Action Written
write f drawn cfg input =
    if ltb_ℤ cfg.max_file_bytes (pos (length input.contents))
    then raise too_large
    else if not (is_local input.rel_path)
    then raise traversal
    else if eqb_ℤ cfg.max_total_bytes (pos 0)
    then write_under_root f drawn cfg input
    else write_with_quota f drawn cfg input
