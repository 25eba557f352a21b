-- ===== src/FileUpload/Write/Temp.antt =====
-- doWrite: the temporary file becomes the target on success, and is gone after an error.
use raxd.Prelude.{
  ◌≡◌, Bool, false, none, some, [], ◌∷◌, Bytes, arith, length, take, inl, inr, Option-cases,
}
use raxd.Prelude.Exec.{ok, err}
use raxd.FileUpload.{Input, Written, UploadError}
use raxd.FileUpload.Root.{
  FilePath, Node, file, Tree, Faults, find, put, node_at, is_dir_node, resolve,
}
use raxd.FileUpload.Root.Laws.{find-put, delete-put, put-put, path_eq_refl}
use raxd.FileUpload.Write.{random_tmp_name, do_write}

abbrev pub written_file : Input → Node
written_file input = file input.contents input.mode

abbrev pub tmp : Bytes → FilePath → FilePath
tmp drawn d = random_tmp_name drawn ∷ d

-- The tree while the temporary file holds the contents.
abbrev pub staged : Bytes → FilePath → Input → Tree → Tree
staged drawn d input t = put (tmp drawn d) (written_file input) t

module _ (f : Faults) (drawn : Bytes) (d : FilePath) (input : Input) (overwritten : Bool)
    (t : Tree) where
  pub do_write-err :
      {e : UploadError}
      → f.remove_fails ≡ false
      → (do_write f drawn d input overwritten t).0 ≡ err e
      → (do_write f drawn d input overwritten t).1 ≡ t
  unfolding do_write
  do_write-err k h = ground (
    arith,
    put-put (tmp drawn d) (file [] 384) (file [] input.mode) t,
    put-put (tmp drawn d) (file [] input.mode) (file (take f.short_write input.contents) input.mode)
        t,
    put-put (tmp drawn d) (file [] input.mode) (written_file input) t,
    delete-put (tmp drawn d) (file [] 384) t,
    delete-put (tmp drawn d) (file [] input.mode) t,
    delete-put (tmp drawn d) (file (take f.short_write input.contents) input.mode) t,
    delete-put (tmp drawn d) (written_file input) t,
  )

  pub do_write-ok :
      {r : Written}
      → (do_write f drawn d input overwritten t).0 ≡ ok r
      → (q : FilePath) × (find (tmp drawn d) t ≡ none)
        × (resolve (staged drawn d input t) input.rel_path ≡ some q)
        × (is_dir_node (node_at (staged drawn d input t) q) ≡ false)
        × ((do_write f drawn d input overwritten t).1 ≡ put q (written_file input) t)
  unfolding do_write
  do_write-ok h = elim (Option-cases (resolve (staged drawn d input t) input.rel_path)) [
    | inl e ↦ absurd (
        ground (
          arith,
          put-put (tmp drawn d) (file [] 384) (file [] input.mode) t,
          put-put (tmp drawn d) (file [] input.mode) (written_file input) t,
        ))
    | inr (q, e) ↦ (
      q,
      ground (arith),
      e,
      ground (
        arith,
        put-put (tmp drawn d) (file [] 384) (file [] input.mode) t,
        put-put (tmp drawn d) (file [] input.mode) (written_file input) t,
      ),
      ground (
        arith,
        put-put (tmp drawn d) (file [] 384) (file [] input.mode) t,
        put-put (tmp drawn d) (file [] input.mode) (written_file input) t,
        find-put (tmp drawn d) (tmp drawn d) (written_file input) t,
        path_eq_refl (tmp drawn d),
        delete-put (tmp drawn d) (written_file input) t,
      ),
    )
  ]

  pub do_write-result :
      {r : Written}
      → (do_write f drawn d input overwritten t).0 ≡ ok r
      → r ≡ record {
        rel_path = input.rel_path;
        size = length input.contents;
        overwritten = overwritten;
        mode = input.mode;
      }
  unfolding do_write
  do_write-result h = ground arith
