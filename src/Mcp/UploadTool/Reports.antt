-- ===== src/Mcp/UploadTool/Reports.antt =====
-- The audit of upload_file, and what a call that is refused leaves in the upload root.
use raxd.Prelude.{
  ℕ, ◌%◌, ◌≡◌, ◌≢◌, false, some, [], ◌∷◌, Bytes, arith, ◌⊎◌, inl, inr, Option-cases, length,
}
use raxd.Prelude.Exec.{ok, err, Result-cases}
use raxd.Prelude.Int.{pos}
use raxd.FileUpload.{Config, Input, UploadError}
use raxd.FileUpload.Root.{FilePath, Node, Tree, node_at, total}
use raxd.FileUpload.Root.Growth.{Grows, Grows-refl}
use raxd.FileUpload.Write.{write}
use raxd.FileUpload.Write.Outcomes.{write_err_keeps}
use raxd.Server.Audit.{Message, success, fail, deny}
use raxd.Mcp.Caller.{Caller, finals}
use raxd.Mcp.Base64.{decode_string, decoded_len, length-decode_string}
use raxd.Mcp.UploadTool.{
  UploadInput, UploadOutput, Site, Host, upload_handler, over, too_large_message, mode_of,
  write_input, upload_record,
}

abbrev pub site : Tree → Site
site t = record { audits = []; tree = t }

module _ (host : Host) (cfg : Config) (caller : Caller) (input : UploadInput) (t : Tree) where
  -- A call that returns an output has written one record that is no warning: a success.
  pub upload_handler-success :
      {o : UploadOutput}
      → (upload_handler host cfg caller input (site t)).0 ≡ ok o
      → finals (upload_handler host cfg caller input (site t)).1.audits ≡ success ∷ []
  unfolding upload_handler
  upload_handler-success h = ground arith

  -- A call that returns an error has written one record that is no warning: a deny or a fail.
  pub upload_handler-error :
      {e : Message}
      → (upload_handler host cfg caller input (site t)).0 ≡ err e
      → (finals (upload_handler host cfg caller input (site t)).1.audits ≡ deny ∷ [])
        ⊎ (finals (upload_handler host cfg caller input (site t)).1.audits ≡ fail ∷ [])
  unfolding upload_handler
  upload_handler-error h = ground arith

  -- Let the process not be root, and let the content decode to exactly as many bytes as the limit,
  -- a number that three does not divide. Then the call is refused as too large, with one deny
  -- record, and the upload root is as before: the test by DecodedLen counts the padding.
  pub full_size_refused :
      (m : ℕ) {decoded : Bytes}
      → host.is_root ≡ false
      → cfg.max_file_bytes ≡ pos m
      → m % 3 ≢ 0
      → decode_string input.content ≡ some decoded
      → length decoded ≡ m
      → upload_handler host cfg caller input (site t) ≡ (
        err too_large_message,
        record { audits = upload_record caller input.path deny too_large_message ∷ []; tree = t },
      )
  unfolding upload_handler over decoded_len
  full_size_refused m r c n d l = ground (arith, length-decode_string input.content d)

  tree_cases :
      (d : Bytes) (m : ℕ)
      → decode_string input.content ≡ some d
      → mode_of cfg input.mode ≡ some m
      → ((upload_handler host cfg caller input (site t)).1.tree ≡ t)
        ⊎ ((upload_handler host cfg caller input (site t)).1.tree
            ≡ (write host.faults host.drawn cfg (write_input input d m) t).1)
  unfolding upload_handler
  tree_cases d m de me = ground arith

  error_tree :
      {e : Message}
      → (upload_handler host cfg caller input (site t)).0 ≡ err e
      → ((upload_handler host cfg caller input (site t)).1.tree ≡ t)
        ⊎ ((i : Input) × (x : UploadError) × ((write host.faults host.drawn cfg i t).0 ≡ err x)
            × ((upload_handler host cfg caller input (site t)).1.tree
                ≡ (write host.faults host.drawn cfg i t).1))
  unfolding upload_handler
  error_tree h = elim (Option-cases (decode_string input.content)) [
    | inl n ↦ inl (ground arith)
    | inr (d, de) ↦ elim (Option-cases (mode_of cfg input.mode)) [
      | inl n ↦ inl (ground arith)
      | inr (m, me) ↦
          elim (Result-cases (write host.faults host.drawn cfg (write_input input d m) t).0) [
            | inl (r, k) ↦ inl (ground arith)
            | inr (x, k) ↦ elim (tree_cases d m de me) [
              | inl s ↦ inl s
              | inr s ↦ inr (write_input input d m, x, k, s)
            ]
          ]
    ]
  ]

  error-Grows :
      {e : Message}
      → host.faults.remove_fails ≡ false
      → (upload_handler host cfg caller input (site t)).0 ≡ err e
      → Grows t (upload_handler host cfg caller input (site t)).1.tree
  error-Grows k h = elim (error_tree h) [
    | inl s ↦ rw s (Grows-refl t)
    | inr (i, x, w, s) ↦ rw s (write_err_keeps host.faults host.drawn cfg i t k w)
  ]

  -- Where the temporary file can be removed, a call that returns an error leaves every node of the
  -- upload root in its place, and the bytes in total as they were.
  pub upload_handler-error_node :
      {e : Message} (p : FilePath) (n : Node)
      → host.faults.remove_fails ≡ false
      → (upload_handler host cfg caller input (site t)).0 ≡ err e
      → node_at t p ≡ some n
      → (node_at (upload_handler host cfg caller input (site t)).1.tree p ≡ some n)
        × (total (upload_handler host cfg caller input (site t)).1.tree ≡ total t)
  upload_handler-error_node p n k h e =
      let grown = error-Grows k h in (grown.keeps p n e, grown.same_total)
