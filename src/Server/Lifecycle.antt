-- ===== src/Server/Lifecycle.antt =====
-- internal/server/server.go: New and Run, with isAddrInUse.
pub mod Shutdown
use raxd.Prelude.{
  ℕ, Bool, true, false, Option, none, some, List, [], ◌∷◌, ◌++◌, Bytes, codes, ◌||◌, if◌then◌else◌,
}
use raxd.Prelude.Exec.{Result, ok, err}
use raxd.Prelude.Int.{ℤ}
use raxd.Keystore.{World, Faults, StoreError}
use raxd.Keystore.Store.{flush_usage}
use raxd.Server.Limiters.{Buckets, Limiters, new_limiters}
use raxd.Server.Request.{Request, background}
use raxd.Server.Pipeline.{Reply, Site, Config as ChainConfig, Outside, McpHandler, handler}
use raxd.Server.Tls.{TlsError, Crypto, Disk, CertResult, loaded, generated, load_or_create_cert}
use raxd.Config.{Config}
use raxd.Config.Paths.{PathSet}
use raxd.Service.Launchd.{has_infix}

pub record CertInfo : Type 0 where
  pub cert_path : Bytes
  pub key_path : Bytes
  pub generated : Bool

-- The sentinels of the package; `other` is an error that wraps none, with its text.
pub data Sentinel : Type 0 where
  tls_cert port_in_use : Sentinel
  other : Bytes → Sentinel

-- An error, as the sentinels that it wraps, the outermost first.
abbrev pub ServerError : Type 0
ServerError = List Sentinel

-- errors.Is
abbrev pub is_tls_cert : ServerError → Bool
is_tls_cert [] = false
is_tls_cert (tls_cert ∷ es) = true
is_tls_cert (port_in_use ∷ es) = is_tls_cert es
is_tls_cert (other s ∷ es) = is_tls_cert es

abbrev pub is_port_in_use : ServerError → Bool
is_port_in_use [] = false
is_port_in_use (port_in_use ∷ es) = true
is_port_in_use (tls_cert ∷ es) = is_port_in_use es
is_port_in_use (other s ∷ es) = is_port_in_use es

abbrev pub sentinel_of : TlsError → Sentinel
sentinel_of TlsError.corrupt = tls_cert
sentinel_of TlsError.generation = other (codes "failed to generate TLS certificate")

-- The server that New returns, as far as Run and the command read it.
pub record Server : Type 0 where
  pub bind_addr : Bytes
  pub port : ℤ
  pub chain : ChainConfig
  pub cert_info : CertInfo

abbrev pub is_generated : CertResult → Bool
is_generated loaded = false
is_generated CertResult.generated = true

abbrev pub chain_of : Config → ChainConfig
chain_of cfg = record {
  host_allow = cfg.host_allow;
  origin_allow = cfg.origin_allow;
  max_body_bytes = cfg.max_body_bytes;
}

abbrev pub new_of : Config → PathSet → Result TlsError CertResult → Result ServerError Server
new_of cfg paths (err e) = err (tls_cert ∷ sentinel_of e ∷ [])
new_of cfg paths (ok cr) = ok (record {
  bind_addr = cfg.bind_addr;
  port = cfg.port;
  chain = chain_of cfg;
  cert_info = record {
    cert_path = paths.tls_dir ++ codes "/cert.pem";
    key_path = paths.tls_dir ++ codes "/key.pem";
    generated = is_generated cr;
  };
})

-- New; the limiters that it makes are those of the site that Run is given.
unfoldable pub new_server : Crypto → Config → PathSet → Disk → Result ServerError Server × Disk
unfolding load_or_create_cert
new_server c cfg paths d = let (r, e) = load_or_create_cert c d in (new_of cfg paths r, e)

-- net.Listen, with the text of its error.
pub data Listen : Type 0 where
  bound : Listen
  bind_fails : Bytes → Listen

-- How the wait of Run ends: the context is cancelled, or Serve returned before, with
-- ErrServerClosed or another error.
pub data Serving : Type 0 where
  cancelled closed : Serving
  serve_fails : Bytes → Serving

-- What Run has done, in order.
pub data Step : Type 0 where
  binds calls_on_listen serves shuts_down warns_of_shutdown calls_hook flushes warns_of_flush : Step

-- What one run meets; the requests are those that the handler has answered when Shutdown returns.
pub record Events : Type 0 where
  pub listen : Listen
  pub serving : Serving
  pub shutdown_fails : Bool
  pub has_hook : Bool
  pub requests : List (Outside × Request)
  pub flush_faults : Faults

unfoldable pub is_addr_in_use : Bytes → Bool
unfolding has_infix
is_addr_in_use msg =
    has_infix (codes "address already in use") msg
    || has_infix (codes "bind: address already in use") msg

-- The address in the text of the error is left out.
abbrev pub bind_error : Bytes → ServerError
bind_error msg = if is_addr_in_use msg then port_in_use ∷ [] else other msg ∷ []

module _ {L W : Type 0} (b : Buckets L) (mcp_handler : Option (McpHandler W)) (srv : Server) where
  -- Each request passes the chain.
  unfoldable pub answer_all : List (Outside × Request) → Site L W → Site L W
  answer_all [] s = s
  answer_all ((o, r) ∷ rs) s = answer_all rs (handler b o srv.chain mcp_handler r background s).1

  abbrev pub flush_step : Result StoreError (Unit {0}) → List Step
  flush_step (ok u) = flushes ∷ []
  flush_step (err e) = flushes ∷ warns_of_flush ∷ []

  abbrev pub shutdown_steps : Events → List Step
  shutdown_steps ev =
      shuts_down
      ∷ ((if ev.shutdown_fails then warns_of_shutdown ∷ [] else [])
          ++ (if ev.has_hook then calls_hook ∷ [] else []))

  abbrev pub after_serving :
      Events → Serving → Site L W → Result ServerError (Unit {0}) × (List Step × Site L W)
  after_serving ev closed s = (ok tt, ([], s))
  after_serving ev (serve_fails msg) s = (err (other msg ∷ []), ([], s))
  after_serving ev cancelled s =
      let (r, w) = flush_usage ev.flush_faults s.store in
      (ok tt, (shutdown_steps ev ++ flush_step r, record s { store = w }))

  abbrev pub after_listen :
      Events → Listen → Site L W → Result ServerError (Unit {0}) × (List Step × Site L W)
  after_listen ev (bind_fails msg) s = (err (bind_error msg), ([], s))
  after_listen ev bound s =
      let (r, (steps, t)) = after_serving ev ev.serving (answer_all ev.requests s) in
      (r, (binds ∷ calls_on_listen ∷ serves ∷ steps, t))

  unfoldable pub run : Events → Site L W → Result ServerError (Unit {0}) × (List Step × Site L W)
  unfolding answer_all flush_usage
  run ev s = after_listen ev ev.listen s
