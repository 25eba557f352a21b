-- ===== src/Server/Pipeline/Revoked.antt =====
-- The chain over a store in which a key was revoked.
use raxd.Prelude.{ℕ, ◌≡◌, ◌≢◌, true, Option, List, Bytes}
use raxd.Keystore.{World, Faults}
use raxd.Keystore.Exec.{ok}
use raxd.Keystore.Store.{ids_of, revoke}
use raxd.Keystore.Atomic.{keys_of}
use raxd.Keystore.History.{Call, run}
use raxd.Keystore.Revocation.{unique}
use raxd.Keystore.Verification.{revoked_for_good}
use raxd.Server.Limiters.{Buckets}
use raxd.Server.Request.{Request, Context}
use raxd.Server.Pipeline.{Site, Config, Outside, McpHandler}
use raxd.Server.Pipeline.Gate.{Admitted}

-- Let ids on disk be distinct, let Revoke of an id succeed, and let the store of the server be what
-- any further calls leave. Then a request that is admitted presents a key with another id.
pub admitted-not_revoked :
    {L W : Type 0} (b : Buckets L) (o : Outside) (cfg : Config)
    (mcp_handler : Option (McpHandler W)) (r : Request) (ctx : Context) (s : Site L W) (w : World)
    (f : Faults) (now : ℕ) (id : Bytes) (cs : List Call)
    → unique (ids_of (keys_of w.file)) ≡ true
    → (revoke f now id w).0 ≡ ok tt
    → s.store ≡ run o.sha256 (revoke f now id w).1 cs
    → (a : Admitted b o cfg mcp_handler r ctx s) → a.rec.id ≢ id
admitted-not_revoked b o cfg mcp_handler r ctx s w f now id cs u h e a =
    revoked_for_good o.sha256 w f o.faults now o.now id a.token cs {r = a.rec} u h
      (rw e at a.verified)
