-- ===== src/Cli/Serve/Modes.antt =====
-- The default mode of uploads, which Load and serve both check.
use raxd.Prelude.{ℕ, ◌≡◌, ◌≢◌, sym, ◌∙◌, ◌⊎◌, inl, inr, Option, none, some, List, Bytes, arith}
use raxd.Prelude.Exec.{Exec, Result, ok, err, ◌>>=◌, ◌>>◌, Result-cases}
use raxd.FileUpload.{Config as UploadRunConfig}
use raxd.FileUpload.Mode.{parse_mode}
use raxd.Config.{
  ExecConfig, Config, ConfigError, Parsers, ReadEnd, read, no_file, unreadable, Viper, load,
}
use raxd.Config.Bounds.{build_config-parse_mode}
use raxd.Config.Paths.{PathSet, PathsError, paths, ensure_dirs, make_dir}
use raxd.Keystore.{StoreError}
use raxd.Keystore.Store.{open_store}
use raxd.Cli.{Line}
use raxd.Server.Limiters.{Buckets}
use raxd.Server.Pipeline.{McpHandler}
use raxd.Cli.Serve.{
  ServeError, bad_mode, Host, Start, run_serve, get_paths, on_dirs, get_config, check_store,
  get_mode, run_to_end, serve_with, make_upload_root, tls_dir_error, upload_root_error,
  root_or_default,
}

-- How an action in sequence ends with an error.
>>=-err :
    {E S A B : Type 0} (m : Exec E S A) (f : A → Exec E S B) (s : S) {e : E}
    → ((m >>= f) s).0 ≡ err e
    → ((m s).0 ≡ err e) ⊎ ((a : A) × ((m s).0 ≡ ok a) × ((f a (m s).1).0 ≡ err e))
>>=-err m f s h = elim (Result-cases (m s).0) [
  | inl (a, x) ↦ inr (a, x, ground arith)
  | inr (x, y) ↦ inl (ground arith)
]

module _ {L W : Type 0} (b : Buckets L)
    (mcp_handler : ExecConfig → UploadRunConfig → Option (McpHandler W)) (st : Start) where
  load_parse_mode :
      (p : Parsers) (r : ReadEnd) (v : Viper) {cfg : Config}
      → load p r v ≡ ok cfg
      → (m : ℕ) × (parse_mode cfg.upload.default_mode ≡ some m)
  unfolding load
  load_parse_mode p unreadable v h = cc
  load_parse_mode p no_file v {cfg} h = build_config-parse_mode p v cfg h
  load_parse_mode p read v {cfg} h = build_config-parse_mode p v cfg h

  -- None of the other steps has this error.
  abbrev Other : {A : Type 0} → Exec ServeError (Host L W) A → Type 0
  Other m = (h : Host L W) → (m h).0 ≢ err bad_mode

  get_paths-Other : (r : Result PathsError PathSet) → Other (get_paths b mcp_handler st r)
  get_paths-Other (ok p) h = λ x. cc
  get_paths-Other (err e) h = λ x. cc

  on_dirs-Other :
      (m : Exec PathsError (List Bytes) (Unit {0})) (lines : PathsError → List Line)
      → Other (on_dirs b mcp_handler st m lines)
  on_dirs-Other m lines h = elim (Result-cases (m h.dirs).0) [
    | inl (u, e) ↦ λ x. ground (arith)
    | inr (y, e) ↦ λ x. ground (arith)
  ]

  get_config-Other : (r : Result ConfigError Config) → Other (get_config b mcp_handler st r)
  get_config-Other (ok c) h = λ x. cc
  get_config-Other (err e) h = λ x. cc

  check_store-Other : (r : Result StoreError (Unit {0})) → Other (check_store b mcp_handler st r)
  check_store-Other (ok u) h = λ x. cc
  check_store-Other (err e) h = λ x. cc

  get_mode-Other : (o : Option ℕ) (m : ℕ) → o ≡ some m → Other (get_mode b mcp_handler st o)
  get_mode-Other none m e h = λ x. cc
  get_mode-Other (some n) m e h = λ x. cc

  serve_with-Other :
      (p : PathSet) (cfg : Config) (mode : ℕ) → Other (serve_with b mcp_handler st p cfg mode)
  unfolding serve_with run_to_end
  serve_with-Other p cfg mode h = λ x. ground arith

  >>=-Other :
      {A B : Type 0} (m : Exec ServeError (Host L W) A) (f : A → Exec ServeError (Host L W) B)
      → Other m
      → ((a : A) (h : Host L W) → (m h).0 ≡ ok a → (f a (m h).1).0 ≢ err bad_mode)
      → Other (m >>= f)
  >>=-Other m f n k h = λ x. elim (>>=-err m f h x) [ inl e ↦ n h e | inr (a, e, y) ↦ k a h e y ]

  got_config :
      (r : Result ConfigError Config) (cfg : Config) (h : Host L W)
      → (get_config b mcp_handler st r h).0 ≡ ok cfg
      → r ≡ ok cfg
  got_config (ok c) cfg h e = cc
  got_config (err x) cfg h e = cc

  from_mode-Other :
      (q : PathSet) (cfg : Config) (m : ℕ)
      → parse_mode cfg.upload.default_mode ≡ some m
      → Other (do
        mode ← get_mode b mcp_handler st (parse_mode cfg.upload.default_mode)
        serve_with b mcp_handler st q cfg mode)
  from_mode-Other q cfg m e =
      >>=-Other (get_mode b mcp_handler st (parse_mode cfg.upload.default_mode)) _
        (get_mode-Other (parse_mode cfg.upload.default_mode) m e)
        (λ mode h x.
          serve_with-Other q cfg mode
            (get_mode b mcp_handler st (parse_mode cfg.upload.default_mode) h).1)

  from_store-Other :
      (q : PathSet) (cfg : Config) (m : ℕ)
      → parse_mode cfg.upload.default_mode ≡ some m
      → Other (do
        λ h. check_store b mcp_handler st (open_store st.open_faults h.site.store) h
        make_upload_root b mcp_handler st q cfg
        mode ← get_mode b mcp_handler st (parse_mode cfg.upload.default_mode)
        serve_with b mcp_handler st q cfg mode)
  from_store-Other q cfg m e =
      >>=-Other (λ h. check_store b mcp_handler st (open_store st.open_faults h.site.store) h) _
        (λ h. check_store-Other (open_store st.open_faults h.site.store) h)
        (λ u h x.
          >>=-Other (make_upload_root b mcp_handler st q cfg) _
            (on_dirs-Other (make_dir st.mkdir_fails (root_or_default q cfg.upload.upload_root))
              (upload_root_error b mcp_handler st))
            (λ u2 g y. from_mode-Other q cfg m e (make_upload_root b mcp_handler st q cfg g).1)
            (check_store b mcp_handler st (open_store st.open_faults h.site.store) h).1)

  -- Let the configuration be what Load gives. Then serve never ends with the error for a default
  -- mode that ParseMode refuses, whatever fails.
  pub run_serve-parse_mode :
      (h : Host L W) (p : Parsers) (r : ReadEnd) (v : PathSet → Viper)
      → ((paths : PathSet) → st.load paths ≡ load p r (v paths))
      → (run_serve b mcp_handler st h).0 ≢ err bad_mode
  unfolding run_serve
  run_serve-parse_mode h p r v l =
      >>=-Other (get_paths b mcp_handler st (paths st.env)) _ (get_paths-Other (paths st.env))
        (λ q g e.
          >>=-Other
            (on_dirs b mcp_handler st (ensure_dirs st.mkdir_fails q)
              (λ x. tls_dir_error b mcp_handler st))
            _ (on_dirs-Other (ensure_dirs st.mkdir_fails q) (λ x. tls_dir_error b mcp_handler st))
            (λ u g2 e2.
              >>=-Other (get_config b mcp_handler st (st.load q)) _ (get_config-Other (st.load q))
                (λ cfg g3 e3.
                  let (m, e4) =
                    load_parse_mode p r (v q) (sym (l q) ∙ got_config (st.load q) cfg g3 e3) in
                  from_store-Other q cfg m e4 (get_config b mcp_handler st (st.load q) g3).1)
                (on_dirs b mcp_handler st (ensure_dirs st.mkdir_fails q)
                  (λ x. tls_dir_error b mcp_handler st) g2).1)
            (get_paths b mcp_handler st (paths st.env) g).1)
        h
