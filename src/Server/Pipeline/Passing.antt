-- ===== src/Server/Pipeline/Passing.antt =====
-- What one request does to the store and to the state of the handler at /mcp.
use raxd.Prelude.{◌≡◌, Option, some, Bytes, arith, ◌⊎◌, inl, inr, Option-cases}
use raxd.Keystore.Store.{verify}
use raxd.Server.Limiters.{Buckets}
use raxd.Server.Request.{Request, Context, bearer_token}
use raxd.Server.Pipeline.{Site, Config, Outside, McpHandler, known_fingerprint, handler}
use raxd.Server.Pipeline.Gate.{Admitted, answer}

module _ {L W : Type 0} (b : Buckets L) (o : Outside) (cfg : Config)
    (mcp_handler : Option (McpHandler W)) (r : Request) (ctx : Context) (s : Site L W) where
  store_cases :
      (token : Bytes)
      → bearer_token o.net r.authorization ≡ some token
      → ((answer b o cfg mcp_handler r ctx s).1.store ≡ s.store)
        ⊎ ((answer b o cfg mcp_handler r ctx s).1.store
            ≡ (verify o.sha256 o.faults o.now token s.store).1)
  unfolding handler
  store_cases token p = ground arith

  -- The store is left as it is, or as one Verify leaves it.
  pub answer_store :
      ((answer b o cfg mcp_handler r ctx s).1.store ≡ s.store)
      ⊎ ((token : Bytes) × ((answer b o cfg mcp_handler r ctx s).1.store
            ≡ (verify o.sha256 o.faults o.now token s.store).1))
  unfolding handler
  answer_store = elim (Option-cases (bearer_token o.net r.authorization)) [
    | inl p ↦ inl (ground arith)
    | inr (token, p) ↦ elim (store_cases token p) [ inl e ↦ inl e | inr e ↦ inr (token, e) ]
  ]

  -- The request and the context that reach the handler at /mcp.
  abbrev pub limited_request : Request
  limited_request = record r { body_limit = some cfg.max_body_bytes }

  abbrev pub context_of : Admitted b o cfg mcp_handler r ctx s → Context
  context_of a = record {
    fingerprint = known_fingerprint o.sha256 a.token a.rec.fingerprint;
    key_id = a.rec.id;
    remote_addr = r.remote_addr;
  }

  pub inner_cases :
      (a : Admitted b o cfg mcp_handler r ctx s) (h : McpHandler W)
      → mcp_handler ≡ some h
      → ((answer b o cfg mcp_handler r ctx s).1.inner ≡ s.inner)
        ⊎ ((answer b o cfg mcp_handler r ctx s).1.inner
            ≡ (h limited_request (context_of a) s.inner).1)
  unfolding handler
  inner_cases a h e =
      ground (arith, a.host_known, a.origin_known, a.presented, a.verified, a.tokens_left)

  -- The state of the handler at /mcp is left as it is, or as one call of the handler leaves it.
  pub Admitted_inner :
      (a : Admitted b o cfg mcp_handler r ctx s)
      → ((answer b o cfg mcp_handler r ctx s).1.inner ≡ s.inner)
        ⊎ ((h : McpHandler W) × (mcp_handler ≡ some h)
            × ((answer b o cfg mcp_handler r ctx s).1.inner
                ≡ (h limited_request (context_of a) s.inner).1))
  unfolding handler
  Admitted_inner a = elim (Option-cases mcp_handler) [
    | inl n ↦
        inl (ground (arith, a.host_known, a.origin_known, a.presented, a.verified, a.tokens_left))
    | inr (h, e) ↦ elim (inner_cases a h e) [ inl x ↦ inl x | inr x ↦ inr (h, e, x) ]
  ]
