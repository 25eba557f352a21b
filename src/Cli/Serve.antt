-- ===== src/Cli/Serve.antt =====
-- internal/cli/serve.go: the command serve.
pub mod Endings
pub mod Modes
use raxd.Prelude.{
  ℕ, Bool, true, false, not, ◌&&◌, ◌||◌, Option, none, some, List, [], ◌∷◌, ◌++◌, Bytes, codes,
  String, if◌then◌else◌,
}
use raxd.Prelude.Exec.{Exec, Result, ok, err, pure, raise, ◌>>=◌, ◌>>◌}
use raxd.Prelude.Int.{ℤ}
use raxd.Server.Audit.{Message, text, bytes, number}
use raxd.Keystore.{Record, World, Faults, StoreError}
use raxd.Keystore.Store.{open_store, list}
use raxd.FileUpload.{Config as UploadRunConfig}
use raxd.FileUpload.Mode.{parse_mode}
use raxd.Config.{ExecConfig, Config, ConfigError, load}
use raxd.Config.Paths.{Environment, PathsError, PathSet, paths, ensure_dirs, make_dir, join}
use raxd.Server.Limiters.{Buckets}
use raxd.Server.Pipeline.{Site, McpHandler}
use raxd.Server.Tls.{Crypto, Disk}
use raxd.Service.Launchd.{has_infix}
use raxd.Server.Lifecycle.{
  CertInfo, Sentinel, tls_cert, port_in_use, other, ServerError, is_tls_cert, is_port_in_use,
  Server, new_server, Step, calls_on_listen, Events, run,
}
use raxd.Cli.{Line, stderr, warning, blank}

pub data ServeError : Type 0 where
  of_paths : PathsError → ServeError
  of_config : ConfigError → ServeError
  of_store : StoreError → ServeError
  of_server : ServerError → ServeError
  bad_mode : ServeError

-- The host: its directories, the files of the certificate, the state of the server, what Run did,
-- and what was printed by the command and by Run. The lines of the audit, which the logger writes to
-- standard error as well, are kept as records in the site.
pub record Host (L W : Type 0) : Type 0 where
  pub dirs : List Bytes
  pub tls : Disk
  pub site : Site L W
  pub steps : List Step
  pub console : List Line

-- What one start meets. `load` is config.Load at the paths; the directories that os.MkdirAll cannot
-- make; the faults of Open and of List.
pub record Start : Type 0 where
  pub env : Environment
  pub mkdir_fails : Bytes → Bool
  pub load : PathSet → Result ConfigError Config
  pub open_faults : Faults
  pub list_faults : Faults
  pub crypto : Crypto
  pub events : Events
  -- Error texts that the program prints as they are.
  pub paths_text : PathsError → Message
  pub config_text : ConfigError → Message
  pub server_text : ServerError → Message
  pub warning_text : Step → Message

abbrev pub Action : Type 0 → Type 0 → Type 0 → Type 0
Action L W A = Exec ServeError (Host L W) A

abbrev pub error_line : Message → Line
error_line m = stderr (text "error: " ∷ m)

abbrev pub hint_line : Message → Line
hint_line m = stderr (text "  hint: " ∷ m)

abbrev pub loaded_or : Bool → String
loaded_or true = "generated"
loaded_or false = "loaded"

unfoldable pub print_start_block : CertInfo → Server → List Line
print_start_block ci srv =
    stderr
      (text "  cert      " ∷ text (loaded_or ci.generated) ∷ text "  " ∷ bytes ci.cert_path ∷ [])
    ∷ stderr (
        text "  key       "
        ∷ text (loaded_or ci.generated)
        ∷ text "  "
        ∷ bytes ci.key_path
        ∷ text (if ci.generated then "  (0600)" else "")
        ∷ [])
    ∷ stderr (text "  tls       TLS 1.3 only" ∷ [])
    ∷ stderr (text "  listening https://" ∷ bytes srv.bind_addr ∷ text ":" ∷ number srv.port ∷ [])
    ∷ []

-- The text of an error, sentinel by sentinel.
abbrev pub sentinel_text : Sentinel → Bytes
sentinel_text tls_cert = codes "TLS certificate or key is corrupted or unreadable"
sentinel_text port_in_use = codes "address already in use"
sentinel_text (other s) = s

unfoldable pub error_text : ServerError → Bytes
error_text [] = []
error_text (e ∷ []) = sentinel_text e
error_text (e ∷ f ∷ es) = sentinel_text e ++ (codes ": " ++ error_text (f ∷ es))

unfoldable pub print_start_error : ServerError → PathSet → List Line
unfolding error_text has_infix
print_start_error e paths =
    if is_tls_cert e || has_infix (codes "TLS certificate") (error_text e)
    then error_line (text "TLS certificate or key is corrupted or unreadable" ∷ [])
      ∷ hint_line (
          text "remove the files in "
          ∷ bytes paths.tls_dir
          ∷ text " and run \"raxd serve\" again to regenerate"
          ∷ [])
      ∷ []
    else error_line (text "failed to generate TLS certificate" ∷ [])
      ∷ hint_line
          (text "check available disk space and write permissions for " ∷ bytes paths.tls_dir ∷ [])
      ∷ []

abbrev pub root_or_default : PathSet → Bytes → Bytes
root_or_default paths [] = join paths.state_dir (codes "uploads")
root_or_default paths (c ∷ cs) = c ∷ cs

-- The configuration of uploads that the tool is given.
unfoldable pub upload_run_config : PathSet → Config → ℕ → UploadRunConfig
unfolding join
upload_run_config paths cfg mode = record {
  upload_root = root_or_default paths cfg.upload.upload_root;
  max_file_bytes = cfg.upload.max_file_bytes;
  max_total_bytes = cfg.upload.max_total_bytes;
  default_mode = mode;
  deny_root = cfg.upload.deny_root;
}

abbrev pub no_keys : Result StoreError (List Record) → Bool
no_keys (ok []) = true
no_keys (ok (r ∷ rs)) = false
no_keys (err e) = false

-- What the hook of OnListen prints.
abbrev pub start_lines : Server → Bool → List Line
start_lines srv warn =
    print_start_block srv.cert_info srv
    ++ ((if warn
          then stderr (text "  warning   no API keys found — all connections will be rejected" ∷ [])
            ∷ stderr (text "  hint      create a key with \"raxd key create --name <label>\"" ∷ [])
            ∷ []
          else [])
        ++ stderr (text "  press Ctrl+C to stop" ∷ []) ∷ stderr blank ∷ [])

abbrev pub shutdown_lines : List Line
shutdown_lines =
    stderr (text "  shutting down  signal received" ∷ [])
    ∷ stderr (text "  draining       waiting for active connections to finish" ∷ [])
    ∷ stderr (text "  flushing       usage data flushed" ∷ [])
    ∷ stderr (text "  stopped" ∷ [])
    ∷ stderr blank
    ∷ []

-- The warnings of the logger in Run.
abbrev warned : (Step → Message) → Step → List Line
warned say Step.binds = []
warned say calls_on_listen = []
warned say Step.serves = []
warned say Step.shuts_down = []
warned say Step.warns_of_shutdown =
    warning "shutdown error" (("err", say Step.warns_of_shutdown) ∷ []) ∷ []
warned say Step.calls_hook = []
warned say Step.flushes = []
warned say Step.warns_of_flush =
    warning "flush usage error" (("err", say Step.warns_of_flush) ∷ []) ∷ []

unfoldable pub warning_lines : (Step → Message) → List Step → List Line
warning_lines say [] = []
warning_lines say (x ∷ xs) = warned say x ++ warning_lines say xs

-- Whether the hook of OnListen has run.
unfoldable pub started : List Step → Bool
started [] = false
started (calls_on_listen ∷ ss) = true
started (Step.binds ∷ ss) = started ss
started (Step.serves ∷ ss) = started ss
started (Step.shuts_down ∷ ss) = started ss
started (Step.warns_of_shutdown ∷ ss) = started ss
started (Step.calls_hook ∷ ss) = started ss
started (Step.flushes ∷ ss) = started ss
started (Step.warns_of_flush ∷ ss) = started ss

module _ {L W : Type 0} (b : Buckets L)
    (mcp_handler : ExecConfig → UploadRunConfig → Option (McpHandler W)) (st : Start) where
  abbrev pub print : List Line → Action L W (Unit {0})
  print lines h = (ok tt, record h { console = h.console ++ lines })

  -- `if err != nil { print; return err }`
  abbrev pub or_print : {A : Type 0} → Result ServeError A → List Line → Action L W A
  or_print (ok a) lines = pure a
  or_print (err e) lines = do print lines; raise e

  abbrev pub get_paths : Result PathsError PathSet → Action L W PathSet
  get_paths (ok p) = pure p
  get_paths (err e) = do print (error_line (st.paths_text e) ∷ []); raise (of_paths e)

  abbrev pub on_dirs :
      Exec PathsError (List Bytes) (Unit {0}) → (PathsError → List Line) → Action L W (Unit {0})
  on_dirs m lines h =
      let (r, dirs) = m h.dirs in
      or_print (elim r [ ok u ↦ ok u | err e ↦ err (of_paths e) ])
        (elim r [ ok u ↦ [] | err e ↦ lines e ]) (record h { dirs = dirs })

  abbrev pub tls_dir_error : List Line
  tls_dir_error =
      error_line (text "cannot create TLS directory: permission denied" ∷ [])
      ∷ hint_line (text "check that the current user has write access to ~/.local/state/raxd/" ∷ [])
      ∷ []

  abbrev pub get_config : Result ConfigError Config → Action L W Config
  get_config (ok c) = pure c
  get_config (err e) = do
    print (
        error_line (st.config_text e)
        ∷ hint_line (
            text
              "set a valid address in config.yaml (field: bind_addr), for example \"127.0.0.1\" or \"0.0.0.0\""
            ∷ [])
        ∷ [])
    raise (of_config e)

  abbrev pub check_store : Result StoreError (Unit {0}) → Action L W (Unit {0})
  check_store (ok u) = pure tt
  check_store (err e) = do
    print (
        error_line (text "key store is corrupted or unreadable" ∷ [])
        ∷ hint_line
            (text "check file permissions on the keys.db path shown in \"raxd status\"" ∷ [])
        ∷ hint_line (
            text
              "do not attempt to repair the file manually — contact support if data recovery is needed"
            ∷ [])
        ∷ [])
    raise (of_store e)

  abbrev pub get_mode : Option ℕ → Action L W ℕ
  get_mode (some m) = pure m
  get_mode none = do
    print (error_line (text "invalid upload.default_mode" ∷ []) ∷ [])
    raise bad_mode

  abbrev pub get_server : PathSet → Result ServerError Server → Action L W Server
  get_server p (ok srv) = pure srv
  get_server p (err e) = do print (print_start_error e p); raise (of_server e)

  abbrev pub make_server : Config → PathSet → Action L W Server
  make_server cfg p h =
      let (r, d) = new_server st.crypto cfg p h.tls in get_server p r (record h { tls = d })

  abbrev pub run_error : Server → ServerError → List Line
  run_error srv e =
      if is_port_in_use e || has_infix (codes "address already in use") (error_text e)
      then error_line (
          text "cannot bind to "
          ∷ bytes srv.bind_addr
          ∷ text ":"
          ∷ number srv.port
          ∷ text ": address already in use"
          ∷ [])
        ∷ hint_line (
            text "check what is using port "
            ∷ number srv.port
            ∷ text " with \"lsof -i :"
            ∷ number srv.port
            ∷ text "\" and stop it, or change the port with \"raxd config port <PORT>\""
            ∷ [])
        ∷ []
      else error_line (st.server_text e) ∷ []

  abbrev pub end_lines : Bool → List Line
  end_lines true = shutdown_lines
  end_lines false = []

  abbrev pub ended : Server → List Step → Result ServerError (Unit {0}) → Action L W (Unit {0})
  ended srv steps (ok u) = print (end_lines (started steps))
  ended srv steps (err e) = do print (run_error srv e); raise (of_server e)

  -- From Run on. The lines of the hook are printed while Run runs, after the port is bound.
  unfoldable pub run_to_end : Option (McpHandler W) → Server → Bool → Action L W (Unit {0})
  unfolding run started warning_lines print_start_block error_text has_infix
  run_to_end mcp srv warn h =
      let (r, (steps, site)) = run b mcp srv st.events h.site in
      ended srv steps r (record h {
        site = site;
        steps = h.steps ++ steps;
        console =
            (h.console ++ (if started steps then start_lines srv warn else []))
            ++ warning_lines st.warning_text steps;
      })

  -- From the start of the server on. cmdexec.Config has the fields of ExecConfig, and the error of
  -- internalmcp.NewHandler is left out, since it never returns one.
  unfoldable pub serve_with : PathSet → Config → ℕ → Action L W (Unit {0})
  unfolding new_server upload_run_config print_start_error run_to_end
  serve_with p cfg mode = do
    srv ← make_server cfg p
    warn ← λ h. (ok (no_keys (list st.list_faults h.site.store).0), h)
    run_to_end (mcp_handler cfg.exec (upload_run_config p cfg mode)) srv warn

  abbrev pub upload_root_error : PathsError → List Line
  upload_root_error e =
      error_line (text "cannot create upload root directory: " ∷ st.paths_text e) ∷ []

  abbrev pub make_upload_root : PathSet → Config → Action L W (Unit {0})
  make_upload_root p cfg =
      on_dirs (make_dir st.mkdir_fails (root_or_default p cfg.upload.upload_root)) upload_root_error

  unfoldable pub run_serve : Action L W (Unit {0})
  unfolding paths ensure_dirs serve_with join
  run_serve = do
    p ← get_paths (paths st.env)
    on_dirs (ensure_dirs st.mkdir_fails p) (λ e. tls_dir_error)
    cfg ← get_config (st.load p)
    λ h. check_store (open_store st.open_faults h.site.store) h
    make_upload_root p cfg
    mode ← get_mode (parse_mode cfg.upload.default_mode)
    serve_with p cfg mode
