-- ===== src/Mcp/UploadTool/Steps.antt =====
-- What upload_file writes to the audit and to the upload root, from any state.
use raxd.Prelude.{
  ℕ, length, ◌≡◌, refl, Option, none, some, List, [], ◌∷◌, arith, ◌⊎◌, inl, inr, Bytes,
  Option-cases,
}
use raxd.Prelude.Exec.{Result, ok, err, pure, when, ◌>>=◌, ◌>>◌}
use raxd.FileUpload.{
  Config, Input, Written, UploadError, traversal, exists, is_dir, too_large, bad_mode,
  quota_exceeded, io,
}
use raxd.FileUpload.Write.{write}
use raxd.Server.Audit.{AuditRecord, Message, deny, text}
use raxd.Mcp.Caller.{Caller}
use raxd.Mcp.Caller.Accounts.{Accounted-refl, Steps, Closes, >>=-Steps, >>=-Closes, when-Steps}
use raxd.Mcp.Base64.{decode_string, decoded_len}
use raxd.Mcp.UploadTool.{
  UploadInput, UploadOutput, Site, Host, Handler, upload_handler, upload_record, refuse, or_refuse,
  warn_root, deny_root, root_check, over, too_large_message, check_size, read_content, mode_of,
  write_input, write_file, report,
}

abbrev log : Site → List AuditRecord
log s = s.audits

module _ (host : Host) (cfg : Config) (caller : Caller) (input : UploadInput) where
  abbrev IsStep : {A : Type 0} → Handler A → Type 0
  IsStep m = Steps caller log m

  refuse-Steps : (A : Type 0) (reason e : Message) → IsStep (refuse {A = A} caller input reason e)
  refuse-Steps A reason e t = record {
    new = upload_record caller input.path deny reason ∷ [];
    written = refl;
    signed = ((refl, refl), tt);
    final = refl;
  }

  or_refuse-Steps :
      (A : Type 0) (reason : Message) (o : Option A) → IsStep (or_refuse caller input reason o)
  or_refuse-Steps A reason (some a) t = Accounted-refl caller t.audits
  or_refuse-Steps A reason none t = refuse-Steps A reason reason t

  warn_root-Steps : IsStep (warn_root caller input)
  warn_root-Steps t = record { new = _; written = refl; signed = ((refl, refl), tt); final = refl }

  deny_root-Steps : IsStep (deny_root caller input)
  deny_root-Steps t = record { new = _; written = refl; signed = ((refl, refl), tt); final = refl }

  root_check-Steps : IsStep (root_check host cfg caller input)
  root_check-Steps =
      when-Steps caller log host.is_root
        (warn_root caller input >> when cfg.deny_root (deny_root caller input))
        (>>=-Steps caller log (warn_root caller input)
          (λ u. when cfg.deny_root (deny_root caller input)) warn_root-Steps
          (λ u. when-Steps caller log cfg.deny_root (deny_root caller input) deny_root-Steps))

  check_size-Steps : (n : ℕ) → IsStep (check_size cfg caller input n)
  check_size-Steps n =
      when-Steps caller log (over cfg.max_file_bytes n) _
        (refuse-Steps (Unit {0}) too_large_message too_large_message)

  abbrev decoding : Handler Bytes
  decoding =
      or_refuse caller input (text "invalid base64 content" ∷ []) (decode_string input.content)

  abbrev sized : Bytes → Handler Bytes
  sized decoded = do check_size cfg caller input (length decoded); pure decoded

  read_content-Steps : IsStep (read_content cfg caller input)
  unfolding read_content
  read_content-Steps =
      >>=-Steps caller log (check_size cfg caller input (decoded_len (length input.content)))
        (λ u. decoding >>= sized) (check_size-Steps (decoded_len (length input.content)))
        (λ u.
          >>=-Steps caller log decoding sized
            (or_refuse-Steps Bytes _ (decode_string input.content))
            (λ d.
              >>=-Steps caller log (check_size cfg caller input (length d)) (λ v. pure d)
                (check_size-Steps (length d)) (λ v t. Accounted-refl caller t.audits)))

  report-Closes : (r : Result UploadError Written) → Closes caller log (report caller input r)
  report-Closes (ok o) t = record {
    new = _;
    written = refl;
    signed = ((refl, refl), tt);
    final = refl;
  }
  report-Closes (err traversal) t = record {
    new = _;
    written = refl;
    signed = ((refl, refl), tt);
    final = refl;
  }
  report-Closes (err exists) t = record {
    new = _;
    written = refl;
    signed = ((refl, refl), tt);
    final = refl;
  }
  report-Closes (err is_dir) t = record {
    new = _;
    written = refl;
    signed = ((refl, refl), tt);
    final = refl;
  }
  report-Closes (err too_large) t = record {
    new = _;
    written = refl;
    signed = ((refl, refl), tt);
    final = refl;
  }
  report-Closes (err bad_mode) t = record {
    new = _;
    written = refl;
    signed = ((refl, refl), tt);
    final = refl;
  }
  report-Closes (err quota_exceeded) t = record {
    new = _;
    written = refl;
    signed = ((refl, refl), tt);
    final = refl;
  }
  report-Closes (err (io s)) t = record {
    new = _;
    written = refl;
    signed = ((refl, refl), tt);
    final = refl;
  }

  abbrev writes : Bytes → ℕ → Handler UploadOutput
  writes d m s =
      let (r, s') = write_file host cfg (write_input input d m) s in report caller input r s'

  abbrev choosing : Handler ℕ
  choosing = or_refuse caller input (text "invalid file mode" ∷ []) (mode_of cfg input.mode)

  -- From any state, a call writes records of its caller, of which one is no warning.
  pub upload_handler-Closes : Closes caller log (upload_handler host cfg caller input)
  unfolding upload_handler
  upload_handler-Closes =
      >>=-Closes caller log (root_check host cfg caller input)
        (λ u. read_content cfg caller input >>= λ d. choosing >>= writes d) root_check-Steps
        (λ u.
          >>=-Closes caller log (read_content cfg caller input) (λ d. choosing >>= writes d)
            read_content-Steps
            (λ d.
              >>=-Closes caller log choosing (writes d)
                (or_refuse-Steps ℕ (text "invalid file mode" ∷ []) (mode_of cfg input.mode))
                (λ m t.
                  report-Closes (write_file host cfg (write_input input d m) t).0
                    (write_file host cfg (write_input input d m) t).1)))

  tree_cases :
      (t : Site) (d : Bytes) (m : ℕ)
      → decode_string input.content ≡ some d
      → mode_of cfg input.mode ≡ some m
      → ((upload_handler host cfg caller input t).1.tree ≡ t.tree)
        ⊎ ((upload_handler host cfg caller input t).1.tree
            ≡ (write host.faults host.drawn cfg (write_input input d m) t.tree).1)
  unfolding upload_handler
  tree_cases t d m de me = ground arith

  -- A call leaves the upload root as it was, or as one Write leaves it.
  pub upload_handler_tree :
      (t : Site)
      → ((upload_handler host cfg caller input t).1.tree ≡ t.tree)
        ⊎ ((i : Input) × ((upload_handler host cfg caller input t).1.tree
              ≡ (write host.faults host.drawn cfg i t.tree).1))
  unfolding upload_handler
  upload_handler_tree t = elim (Option-cases (decode_string input.content)) [
    | inl n ↦ inl (ground arith)
    | inr (d, de) ↦ elim (Option-cases (mode_of cfg input.mode)) [
      | inl n ↦ inl (ground arith)
      | inr (m, me) ↦ elim (tree_cases t d m de me) [
        | inl e ↦ inl e
        | inr e ↦ inr (write_input input d m, e)
      ]
    ]
  ]
