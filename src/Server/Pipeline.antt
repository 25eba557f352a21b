-- ===== src/Server/Pipeline.antt =====
-- internal/server: the middlewares of auth.go and middleware.go, the handlers of handlers.go, and
-- the chain that New of server.go builds of them.
pub mod Gate
pub mod Revoked
pub mod Passing
use raxd.Prelude.{
  ℕ, Bool, true, false, not, ◌&&◌, Option, none, some, List, [], ◌∷◌, ◌++◌, Bytes, bytes_eq, codes,
  if◌then◌else◌,
}
use raxd.Prelude.Int.{ℤ}
use raxd.Keystore.{Record, World, Faults, StoreError, corrupt}
use raxd.Keystore.Exec.{Result, ok, err}
use raxd.Keystore.Crypto.{fingerprint}
use raxd.Keystore.Store.{verify}
use raxd.Server.Audit.{
  AuditRecord, Message, text, Verdict, success, fail, deny, rate_limited, no_record,
}
use raxd.Server.Limiters.{Buckets, Limiters, allow}
use raxd.Server.Request.{
  Request, Context, background, Net, Pattern, healthz, mcp, anything, redirect, is_empty, dash,
  or_dash, fingerprint_from_ctx, bearer_token, ip_only, host_of, contains, origin_allowed,
}

pub data Reply : Type 0 where
  status : ℕ → Bytes → Reply
  -- The handler panics.
  panics : Reply

-- The state of a server: the store, the limiters, the audit records of connections, the oldest
-- first, and the state of the handler at /mcp.
pub record Site (L W : Type 0) : Type 0 where
  pub store : World
  pub limiters : Limiters L
  pub audits : List AuditRecord
  pub inner : W

-- `config.Config` as far as the chain reads it.
pub record Config : Type 0 where
  pub host_allow : List Bytes
  pub origin_allow : List Bytes
  pub max_body_bytes : ℤ

abbrev pub http_error : ℕ → Reply
http_error code = status code []

abbrev pub Handler : Type 0 → Type 0 → Type 0
Handler L W = Request → Context → Site L W → Reply × Site L W

-- The handler that is mounted at /mcp.
abbrev pub McpHandler : Type 0 → Type 0
McpHandler W = Request → Context → W → Reply × W

module _ (sha256 : Bytes → Bytes) where
  abbrev pub unavailable : Bytes → StoreError → Bytes
  unavailable token corrupt = dash
  unavailable token e = fingerprint sha256 token

  abbrev pub known_fingerprint : Bytes → Bytes → Bytes
  known_fingerprint token [] = fingerprint sha256 token
  known_fingerprint token (c ∷ cs) = c ∷ cs

abbrev pub limit_reason : Bytes → Message
limit_reason fp =
    if bytes_eq fp dash
    then text "rate limit exceeded (ip)" ∷ []
    else text "rate limit exceeded (key)" ∷ []

-- What one request meets: the faults of the store, the time, and the functions from outside.
pub record Outside : Type 0 where
  pub net : Net
  pub sha256 : Bytes → Bytes
  pub faults : Faults
  pub now : ℕ

module _ {L W : Type 0} where
  abbrev pub audited : Bytes → Request → Verdict → Message → Site L W → Site L W
  audited fp r result reason s = record s {
    audits =
        s.audits
        ++ record no_record {
          fingerprint = fp;
          remote_addr = r.remote_addr;
          result = result;
          reason = reason;
        }
          ∷ [];
  }

  -- An audit record, then http.Error.
  abbrev pub rejects : Bytes → Request → Verdict → Message → ℕ → Site L W → Reply × Site L W
  rejects fp r result reason code s = (http_error code, audited fp r result reason s)

  unfoldable pub host_origin_middleware : Net → Config → Handler L W → Handler L W
  host_origin_middleware net cfg next r ctx s =
      if not (contains net cfg.host_allow (ip_only (host_of r.host_header r.host)))
      then rejects dash r deny (text "invalid host header" ∷ []) 403 s
      else if not (is_empty r.origin) && not (origin_allowed net cfg.origin_allow r.origin)
      then rejects dash r deny (text "invalid origin header" ∷ []) 403 s
      else next r ctx s

  module _ (sha256 : Bytes → Bytes) where
    abbrev pub verified :
        Bytes → Handler L W → Request → Result (Option Record) → Site L W → Reply × Site L W
    verified token next r (err e) s =
        rejects (unavailable sha256 token e) r deny (text "key store unavailable" ∷ []) 403 s
    verified token next r (ok none) s =
        rejects (fingerprint sha256 token) r fail (text "authentication failed" ∷ []) 401 s
    verified token next r (ok (some rec)) s =
        next r
          (record {
            fingerprint = known_fingerprint sha256 token rec.fingerprint;
            key_id = rec.id;
            remote_addr = r.remote_addr;
          })
          s

    abbrev pub with_token :
        Faults → ℕ → Handler L W → Request → Option Bytes → Site L W → Reply × Site L W
    with_token f now next r none s = rejects dash r fail (text "no authorization header" ∷ []) 401 s
    with_token f now next r (some token) s =
        let (result, store) = verify sha256 f now token s.store in
        verified token next r result (record s { store = store })

    unfoldable pub auth_middleware : Net → Faults → ℕ → Handler L W → Handler L W
    auth_middleware net f now next r ctx s =
        with_token f now next r (bearer_token net r.authorization) s

  abbrev pub admitted : Bool → Handler L W → Request → Context → Site L W → Reply × Site L W
  admitted true next r ctx s = next r ctx s
  admitted false next r ctx s =
      rejects (fingerprint_from_ctx ctx) r rate_limited (limit_reason (fingerprint_from_ctx ctx))
        429 s

  unfoldable pub rate_limit_middleware : Buckets L → ℕ → Handler L W → Handler L W
  rate_limit_middleware b now next r ctx s =
      let (allowed, l) =
        allow b now (fingerprint_from_ctx ctx) (ip_only r.remote_addr) s.limiters in
      admitted allowed next r ctx (record s { limiters = l })

  unfoldable pub auth_success_audit_middleware : Handler L W → Handler L W
  auth_success_audit_middleware next r ctx s =
      next r ctx (audited (fingerprint_from_ctx ctx) r success [] s)

  abbrev pub recovered : Reply × Site L W → Reply × Site L W
  recovered (status code body, s) = (status code body, s)
  recovered (panics, s) = (http_error 500, s)

  unfoldable pub recover_middleware : Handler L W → Handler L W
  recover_middleware next r ctx s = recovered (next r ctx s)

  unfoldable pub body_limit_middleware : ℤ → Handler L W → Handler L W
  body_limit_middleware limit next r ctx s = next (record r { body_limit = some limit }) ctx s

  abbrev pub health_handler : Handler L W
  health_handler r ctx s = (status 200 (codes "pong"), s)

  abbrev pub dispatch_handler : Handler L W
  dispatch_handler r ctx s = (status 501 (codes "not implemented"), s)

  -- The handler at /mcp has a state of its own: it calls no method of the store.
  abbrev pub mcp_or_dispatch : Option (McpHandler W) → Handler L W
  mcp_or_dispatch none r ctx s = dispatch_handler r ctx s
  mcp_or_dispatch (some h) r ctx s =
      let (reply, inner) = h r ctx s.inner in (reply, record s { inner = inner })

  abbrev pub by_pattern : Option (McpHandler W) → Pattern → Handler L W
  by_pattern mcp_handler healthz r ctx s = health_handler r ctx s
  by_pattern mcp_handler mcp r ctx s = mcp_or_dispatch mcp_handler r ctx s
  by_pattern mcp_handler anything r ctx s = dispatch_handler r ctx s
  by_pattern mcp_handler redirect r ctx s = (status 301 [], s)

  unfoldable pub mux : Net → Option (McpHandler W) → Handler L W
  mux net mcp_handler r ctx s = by_pattern mcp_handler (net.pattern r) r ctx s

  -- The handler that New gives to http.Server.
  unfoldable pub handler : Buckets L → Outside → Config → Option (McpHandler W) → Handler L W
  unfolding host_origin_middleware auth_middleware rate_limit_middleware
      auth_success_audit_middleware recover_middleware body_limit_middleware mux
  handler b o cfg mcp_handler = body_limit_middleware cfg.max_body_bytes (
      recover_middleware (
        host_origin_middleware o.net cfg (
          auth_middleware o.sha256 o.net o.faults o.now (
            rate_limit_middleware b o.now
              (auth_success_audit_middleware (mux o.net mcp_handler))))))
