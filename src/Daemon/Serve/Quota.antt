-- ===== src/Daemon/Serve/Quota.antt =====
-- The quota of the upload root through the command serve.
use raxd.Prelude.{
  ℕ, Bool, ◌++◌, if◌then◌else◌, ◌≡◌, ◌≤◌, ◌<◌, ◌+◌, ◌^◌, refl, sym, ◌∙◌, false, Option, none, some,
  List, [], ◌∷◌, Bytes, arith, inl, inr,
}
use raxd.Prelude.Exec.{Exec, Result, ok, err, ◌>>=◌, ◌>>◌, Result-cases}
use raxd.Prelude.Int.{pos}
use raxd.FileUpload.Mode.{parse_mode}
use raxd.FileUpload.Root.{Tree, total}
use raxd.Config.{Config, ConfigError}
use raxd.Config.Paths.{PathSet, PathsError, paths, ensure_dirs, make_dir}
use raxd.Keystore.{StoreError}
use raxd.Keystore.Store.{open_store, list}
use raxd.Server.Limiters.{Buckets}
use raxd.Server.Lifecycle.{Server, ServerError, Step, run, new_server}
use raxd.Mcp.Server.{Sdk, Machine, Daemon}
use raxd.Cli.{Line}
use raxd.Cli.Serve.{
  ServeError, Host, Start, Action, root_or_default, upload_run_config, run_serve, serve_with,
  run_to_end, get_paths, on_dirs, get_config, check_store, get_mode, ended, no_keys, started,
  warning_lines, start_lines, make_server, make_upload_root, tls_dir_error, upload_root_error,
}
use raxd.Daemon.{mcp_of}
use raxd.Daemon.Quota.{run-within_quota}
use raxd.Daemon.Serve.{mcp_handler, setting}

module _ {L : Type 0} (b : Buckets L) (sdk : Sdk) (meets : ℕ → Machine) (ver : Bytes) where
  module _ (st : Start) (m k : ℕ) where
    abbrev IsWithin : Host L Daemon → Type 0
    IsWithin h = total h.site.inner.tree ≤ m

    abbrev Keeps : {A : Type 0} → Action L Daemon A → Type 0
    Keeps a = (h : Host L Daemon) → IsWithin h → IsWithin (a h).1

    continue-Keeps :
        {A B : Type 0} (x : Result ServeError A × Host L Daemon) (f : A → Action L Daemon B)
        → IsWithin x.1
        → ((a : A) → x.0 ≡ ok a → Keeps (f a))
        → IsWithin (let (r, s) = x in raxd.Prelude.Exec.continue r f s).1
    continue-Keeps (ok a, s) f i k = k a refl s i
    continue-Keeps (err e, s) f i k = i

    >>=-Keeps :
        {A B : Type 0} (a : Action L Daemon A) (f : A → Action L Daemon B)
        → Keeps a
        → ((h : Host L Daemon) (x : A) → (a h).0 ≡ ok x → Keeps (f x))
        → Keeps (a >>= f)
    >>=-Keeps a f k l h i = continue-Keeps (a h) f (k h i) (l h)

    on_dirs-Keeps :
        (a : Exec PathsError (List Bytes) (Unit {0})) (lines : PathsError → List Line)
        → Keeps (on_dirs b (mcp_handler sdk meets ver) st a lines)
    on_dirs-Keeps a lines h i = elim (Result-cases (a h.dirs).0) [
      | inl (u, e) ↦ ground (arith, e)
      | inr (x, e) ↦ ground (arith, e)
    ]

    get_paths-Keeps :
        (r : Result PathsError PathSet) → Keeps (get_paths b (mcp_handler sdk meets ver) st r)
    get_paths-Keeps (ok p) h i = i
    get_paths-Keeps (err e) h i = i

    get_config-Keeps :
        (r : Result ConfigError Config) → Keeps (get_config b (mcp_handler sdk meets ver) st r)
    get_config-Keeps (ok p) h i = i
    get_config-Keeps (err e) h i = i

    got_config :
        (r : Result ConfigError Config) (cfg : Config) (h : Host L Daemon)
        → (get_config b (mcp_handler sdk meets ver) st r h).0 ≡ ok cfg
        → r ≡ ok cfg
    got_config (ok c) cfg h e = cc
    got_config (err x) cfg h e = cc

    check_store-Keeps :
        (r : Result StoreError (Unit {0})) → Keeps (check_store b (mcp_handler sdk meets ver) st r)
    check_store-Keeps (ok u) h i = i
    check_store-Keeps (err e) h i = i

    get_mode-Keeps : (o : Option ℕ) → Keeps (get_mode b (mcp_handler sdk meets ver) st o)
    get_mode-Keeps none h i = i
    get_mode-Keeps (some n) h i = i

    make_server-Keeps :
        (cfg : Config) (p : PathSet) → Keeps (make_server b (mcp_handler sdk meets ver) st cfg p)
    make_server-Keeps cfg p h i = elim (Result-cases (new_server st.crypto cfg p h.tls).0) [
      | inl (u, e) ↦ ground (arith, e)
      | inr (x, e) ↦ ground (arith, e)
    ]

    ended-Keeps :
        (srv : Server) (steps : List Step) (r : Result ServerError (Unit {0}))
        → Keeps (ended b (mcp_handler sdk meets ver) st srv steps r)
    ended-Keeps srv steps (ok u) h i = i
    ended-Keeps srv steps (err e) h i = i

    abbrev warn_if : Action L Daemon Bool
    warn_if h = (ok (no_keys (list st.list_faults h.site.store).0), h)

    -- What the configuration says of the upload root.
    abbrev IsLimited : Config → Type 0
    IsLimited cfg = (cfg.upload.max_total_bytes ≡ pos m) × (cfg.upload.max_file_bytes ≡ pos k)

    module _ (positive : 0 < m) (fits : m + k < 2 ^ 63)
        (removes : (n : ℕ) → (meets n).upload_host.faults.remove_fails ≡ false)
        (behaves : (n : ℕ) (t : Tree) → total t ≤ m → total ((meets n).leaves t) ≤ m) where
      run_to_end-Keeps :
          (p : PathSet) (cfg : Config) (mode : ℕ) (srv : Server) (warn : Bool)
          → IsLimited cfg
          → Keeps (
              run_to_end b
                (mcp_handler sdk meets ver)
                st
                (mcp_handler sdk meets ver cfg.exec (upload_run_config p cfg mode))
                srv
                warn)
      unfolding run_to_end upload_run_config
      run_to_end-Keeps p cfg mode srv warn q h i =
          let c = setting b sdk meets ver srv cfg.exec (upload_run_config p cfg mode) in
          let ran = run b (mcp_of c) srv st.events h.site in
          ended-Keeps srv ran.1.0 ran.0
            (record h {
              site = ran.1.1;
              steps = h.steps ++ ran.1.0;
              console =
                  (h.console ++ (if started ran.1.0 then start_lines srv warn else []))
                  ++ warning_lines st.warning_text ran.1.0;
            })
            (run-within_quota c m k q.0 positive q.1 fits removes behaves st.events h.site i)

      serve_with-Keeps :
          (p : PathSet) (cfg : Config) (mode : ℕ)
          → IsLimited cfg
          → Keeps (serve_with b (mcp_handler sdk meets ver) st p cfg mode)
      unfolding serve_with
      serve_with-Keeps p cfg mode q =
          >>=-Keeps (make_server b (mcp_handler sdk meets ver) st cfg p)
            (λ srv. warn_if >>= λ warn.
              run_to_end b (mcp_handler sdk meets ver) st
                (mcp_handler sdk meets ver cfg.exec (upload_run_config p cfg mode)) srv warn)
            (make_server-Keeps cfg p)
            (λ h srv e.
              >>=-Keeps warn_if
                (λ warn.
                  run_to_end b (mcp_handler sdk meets ver) st
                    (mcp_handler sdk meets ver cfg.exec (upload_run_config p cfg mode)) srv warn)
                (λ g i. i) (λ g warn y. run_to_end-Keeps p cfg mode srv warn q))

      abbrev with_store : PathSet → Config → Action L Daemon (Unit {0})
      with_store p cfg = do
        make_upload_root b (mcp_handler sdk meets ver) st p cfg
        mode ← get_mode b (mcp_handler sdk meets ver) st (parse_mode cfg.upload.default_mode)
        serve_with b (mcp_handler sdk meets ver) st p cfg mode

      with_store-Keeps : (p : PathSet) (cfg : Config) → IsLimited cfg → Keeps (with_store p cfg)
      with_store-Keeps p cfg q =
          >>=-Keeps (make_upload_root b (mcp_handler sdk meets ver) st p cfg)
            (λ u.
              get_mode b (mcp_handler sdk meets ver) st (parse_mode cfg.upload.default_mode)
              >>= λ mode. serve_with b (mcp_handler sdk meets ver) st p cfg mode)
            (on_dirs-Keeps (make_dir st.mkdir_fails (root_or_default p cfg.upload.upload_root))
              (upload_root_error b (mcp_handler sdk meets ver) st))
            (λ h u e.
              >>=-Keeps
                (get_mode b (mcp_handler sdk meets ver) st (parse_mode cfg.upload.default_mode))
                (λ mode. serve_with b (mcp_handler sdk meets ver) st p cfg mode)
                (get_mode-Keeps (parse_mode cfg.upload.default_mode))
                (λ g mode x. serve_with-Keeps p cfg mode q))

      abbrev opening : Action L Daemon (Unit {0})
      opening h =
          check_store b (mcp_handler sdk meets ver) st (open_store st.open_faults h.site.store) h

      with_config-Keeps :
          (p : PathSet) (cfg : Config) → IsLimited cfg → Keeps (opening >> with_store p cfg)
      with_config-Keeps p cfg q =
          >>=-Keeps opening (λ u. with_store p cfg)
            (λ h. check_store-Keeps (open_store st.open_faults h.site.store) h)
            (λ h u e. with_store-Keeps p cfg q)

      -- Let every configuration that Load gives have the positive limit `m` on the total and `k` on a
      -- file, with m + k below 2 ^ 63. Let temporary files be removable, and let whatever else works
      -- on the upload root while commands run, their processes included, make no symbolic links in it
      -- and keep a root of at most `m` bytes at that. Then the command serve, however it ends and
      -- whatever requests it answers, leaves an upload root that has no symbolic links and at most
      -- `m` bytes with at most `m` bytes.
      pub run_serve-within_quota :
          ((p : PathSet) (cfg : Config) → st.load p ≡ ok cfg → IsLimited cfg)
          → (h : Host L Daemon) → total h.site.inner.tree ≤ m
          → total (run_serve b (mcp_handler sdk meets ver) st h).1.site.inner.tree ≤ m
      unfolding run_serve
      run_serve-within_quota load =
          >>=-Keeps (get_paths b (mcp_handler sdk meets ver) st (paths st.env)) _
            (get_paths-Keeps (paths st.env))
            (λ h p e.
              >>=-Keeps
                (on_dirs b (mcp_handler sdk meets ver) st (ensure_dirs st.mkdir_fails p)
                  (λ x. tls_dir_error b (mcp_handler sdk meets ver) st))
                _
                (on_dirs-Keeps (ensure_dirs st.mkdir_fails p)
                  (λ x. tls_dir_error b (mcp_handler sdk meets ver) st))
                (λ g u y.
                  >>=-Keeps (get_config b (mcp_handler sdk meets ver) st (st.load p)) _
                    (get_config-Keeps (st.load p))
                    (λ k cfg z.
                      with_config-Keeps p cfg (load p cfg (got_config (st.load p) cfg k z)))))
