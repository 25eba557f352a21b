-- ===== src/Cli/Serve/Endings.antt =====
-- How serve ends, and what it prints then.
use raxd.Prelude.{
  ◌≡◌, ◌≢◌, refl, inl, inr, Bool, true, Option, List, [], ◌∷◌, ◌++◌, Bytes, arith, if◌then◌else◌,
}
use raxd.Prelude.Exec.{Result, ok, err, Result-cases}
use raxd.Server.Audit.{Message, text, bytes}
use raxd.Keystore.{StoreError}
use raxd.Keystore.Store.{flush_usage}
use raxd.FileUpload.{Config as UploadRunConfig}
use raxd.Config.{ExecConfig, Config}
use raxd.Config.Paths.{PathSet}
use raxd.Server.Limiters.{Buckets}
use raxd.Server.Pipeline.{Site, McpHandler}
use raxd.Server.Tls.{Crypto, Disk, load_or_create_cert}
use raxd.Server.Lifecycle.{
  Server, ServerError, new_server, Events, bound, bind_fails, cancelled, run, answer_all, tls_cert,
  bind_error, sentinel_of, Step,
}
use raxd.Cli.{Line, warning, append_none}
use raxd.Cli.Serve.{
  ServeError, Host, Start, print_start_error, error_line, hint_line, started, start_lines,
  warning_lines, shutdown_lines, run_to_end, run_error,
}

-- What is printed of an error that wraps ErrTLSCert.
abbrev pub corrupted_lines : PathSet → List Line
corrupted_lines p =
    error_line (text "TLS certificate or key is corrupted or unreadable" ∷ [])
    ∷ hint_line (
        text "remove the files in "
        ∷ bytes p.tls_dir
        ∷ text " and run \"raxd serve\" again to regenerate"
        ∷ [])
    ∷ []

wrapped_lines :
    (e : ServerError) (p : PathSet) → print_start_error (tls_cert ∷ e) p ≡ corrupted_lines p
unfolding print_start_error
wrapped_lines e p = refl

new_server-err :
    (c : Crypto) (cfg : Config) (p : PathSet) (d : Disk) {e : ServerError}
    → (new_server c cfg p d).0 ≡ err e
    → (es : ServerError) × (e ≡ tls_cert ∷ es)
unfolding new_server
new_server-err c cfg p d h = elim (Result-cases (load_or_create_cert c d).0) [
  | inl (r, l) ↦ absurd (ground arith)
  | inr (x, l) ↦ (sentinel_of x ∷ [], ground arith)
]

-- Whatever makes New fail, a disk on which no pair can be made included, serve says that the files
-- are corrupted and are to be removed: the lines for a failed generation are never printed.
pub new_server-print_start_error :
    (c : Crypto) (cfg : Config) (p : PathSet) (d : Disk) {e : ServerError}
    → (new_server c cfg p d).0 ≡ err e
    → print_start_error e p ≡ corrupted_lines p
new_server-print_start_error c cfg p d h =
    let (es, q) = new_server-err c cfg p d h in rw q (wrapped_lines es p)

-- What Run warns of where the flush fails.
abbrev pub warnings_of : (Step → Message) → Bool → List Line
warnings_of say shutdown_fails =
    (if shutdown_fails
      then warning "shutdown error" (("err", say Step.warns_of_shutdown) ∷ []) ∷ []
      else [])
    ++ warning "flush usage error" (("err", say Step.warns_of_flush) ∷ []) ∷ []

module _ {L W : Type 0} (b : Buckets L) (mcp : Option (McpHandler W)) (srv : Server) (ev : Events)
    (s : Site L W) where
  run_not_bound :
      (msg : Bytes)
      → ev.listen ≡ bind_fails msg
      → run b mcp srv ev s ≡ (err (bind_error msg), ([], s))
  unfolding run
  run_not_bound msg l = ground arith

  run_flush_fails :
      (say : Step → Message) {x : StoreError}
      → ev.listen ≡ bound
      → ev.serving ≡ cancelled
      → (flush_usage ev.flush_faults (answer_all b mcp srv ev.requests s).store).0 ≡ err x
      → ((run b mcp srv ev s).0 ≡ ok tt)
        × (started (run b mcp srv ev s).1.0 ≡ true)
        × (warning_lines say (run b mcp srv ev s).1.0 ≡ warnings_of say ev.shutdown_fails)
  unfolding run started warning_lines
  run_flush_fails say l c f = (ground arith, ground arith, ground arith)

module _ {L W : Type 0} (b : Buckets L)
    (mcp_handler : ExecConfig → UploadRunConfig → Option (McpHandler W)) (st : Start)
    (mcp : Option (McpHandler W)) (srv : Server) (warn : Bool) (h : Host L W) where
  abbrev ending : Result ServeError (Unit {0}) × Host L W
  ending = run_to_end b mcp_handler st mcp srv warn h

  -- Let the port not be bound. Then serve ends with an error, has printed no start block, and the
  -- state of the server is as before.
  pub not_bound :
      (msg : Bytes)
      → st.events.listen ≡ bind_fails msg
      → (ending.0 ≢ ok tt)
        × (ending.1.site ≡ h.site)
        × (e : ServerError) × (ending.1.console ≡ h.console ++ run_error b mcp_handler st srv e)
  unfolding run_to_end started
  not_bound msg l =
      let e = run_not_bound b mcp srv st.events h.site msg l in
      (
        λ x. ground (arith, e),
        ground (arith, e),
        bind_error msg,
        ground (arith, e, append_none h.console, append_none (h.console ++ [])),
      )

  -- Let the port be bound, the context be cancelled, and the flush at the end fail. Then serve ends
  -- without an error: after the start block, the warning of Shutdown if it failed, and the warning of
  -- the failed flush, its last lines say that the usage data was flushed. The lines of the audit are
  -- not counted here.
  pub unflushed_said_flushed :
      {x : StoreError}
      → st.events.listen ≡ bound
      → st.events.serving ≡ cancelled
      → (flush_usage st.events.flush_faults
          (answer_all b mcp srv st.events.requests h.site).store).0
        ≡ err x
      → (ending.0 ≡ ok tt)
        × (ending.1.console
            ≡ ((h.console ++ start_lines srv warn)
                ++ warnings_of st.warning_text st.events.shutdown_fails)
              ++ shutdown_lines)
  unfolding run_to_end
  unflushed_said_flushed l c f =
      let (r, t, ws) = run_flush_fails b mcp srv st.events h.site st.warning_text l c f in
      (ground (arith, r), ground (arith, r, t, ws))
