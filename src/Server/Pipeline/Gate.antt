-- ===== src/Server/Pipeline/Gate.antt =====
-- What the chain lets through, and what one request leaves in the audit.
use raxd.Prelude.{
  ℕ, ◌≡◌, refl, Bool, true, false, not, ◌&&◌, Option, none, some, [], ◌∷◌, ◌++◌, Bytes, arith, ◌⊎◌,
  inl, inr, Option-cases, Bool-cases,
}
use raxd.Prelude.Exec.{Result-cases}
use raxd.Keystore.{Record}
use raxd.Keystore.Exec.{Result, ok}
use raxd.Keystore.Crypto.{fingerprint}
use raxd.Keystore.Store.{verify}
use raxd.Server.Audit.{
  AuditRecord, Message, text, Verdict, success, fail, deny, warn, rate_limited, other, no_record,
}
use raxd.Server.Limiters.{Buckets, allow}
use raxd.Server.Request.{
  Request, Context, host_of, ip_only, contains, is_empty, origin_allowed, bearer_token, dash,
  or_dash,
}
use raxd.Server.Pipeline.{
  Reply, status, panics, Site, Config, Outside, McpHandler, known_fingerprint, limit_reason,
  unavailable, recovered, handler,
}

abbrev pub is_success : Verdict → Bool
is_success success = true
is_success fail = false
is_success deny = false
is_success warn = false
is_success rate_limited = false
is_success (other s) = false

module _ {L W : Type 0} (b : Buckets L) (o : Outside) (cfg : Config)
    (mcp_handler : Option (McpHandler W)) (r : Request) (ctx : Context) (s : Site L W) where
  abbrev pub answer : Reply × Site L W
  answer = handler b o cfg mcp_handler r ctx s

  -- One record that is no success, an empty reply, and the handler at /mcp is not called.
  pub record Refused : Type 0 where
    pub entry : AuditRecord
    pub code : ℕ
    pub no_success : is_success entry.result ≡ false
    pub one_entry : answer.1.audits ≡ s.audits ++ entry ∷ []
    pub untouched : answer.1.inner ≡ s.inner
    pub reply : answer.0 ≡ status code []

  -- One record of success, which names the key that Verify found; the host and the origin are
  -- allowed, and both buckets had a token.
  pub record Admitted : Type 0 where
    pub token : Bytes
    pub rec : Record
    pub host_known : contains o.net cfg.host_allow (ip_only (host_of r.host_header r.host)) ≡ true
    pub origin_known :
        (not (is_empty r.origin) && not (origin_allowed o.net cfg.origin_allow r.origin)) ≡ false
    pub presented : bearer_token o.net r.authorization ≡ some token
    pub verified : (verify o.sha256 o.faults o.now token s.store).0 ≡ ok (some rec)
    pub tokens_left :
        (allow b o.now
          (or_dash (known_fingerprint o.sha256 token rec.fingerprint))
          (ip_only r.remote_addr)
          s.limiters).0
        ≡ true
    pub one_entry :
        answer.1.audits
        ≡ s.audits
          ++ record no_record {
            fingerprint = or_dash (known_fingerprint o.sha256 token rec.fingerprint);
            remote_addr = r.remote_addr;
            result = success;
          }
            ∷ []

  abbrev entry_of : Bytes → Verdict → Message → AuditRecord
  entry_of fp result reason = record no_record {
    fingerprint = fp;
    remote_addr = r.remote_addr;
    result = result;
    reason = reason;
  }

  refused :
      (entry : AuditRecord) (code : ℕ)
      → is_success entry.result ≡ false
      → answer.1.audits ≡ s.audits ++ entry ∷ []
      → answer.1.inner ≡ s.inner
      → answer.0 ≡ status code []
      → Refused ⊎ Admitted
  refused entry code n e i p = inl (record {
    entry = entry;
    code = code;
    no_success = n;
    one_entry = e;
    untouched = i;
    reply = p;
  })

  abbrev result_of : Bytes → Result (Option Record)
  result_of token = (verify o.sha256 o.faults o.now token s.store).0

  abbrev tokens : Bytes → Record → Bool
  tokens token rec =
      (allow b o.now (or_dash (known_fingerprint o.sha256 token rec.fingerprint))
        (ip_only r.remote_addr) s.limiters).0

  limited :
      (token : Bytes) (rec : Record)
      → contains o.net cfg.host_allow (ip_only (host_of r.host_header r.host)) ≡ true
      → (not (is_empty r.origin) && not (origin_allowed o.net cfg.origin_allow r.origin)) ≡ false
      → bearer_token o.net r.authorization ≡ some token
      → result_of token ≡ ok (some rec)
      → Refused ⊎ Admitted
  unfolding handler
  limited token rec h g p v = elim (Bool-cases (tokens token rec)) [
    | inl t ↦ inr (record {
      token = token;
      rec = rec;
      host_known = h;
      origin_known = g;
      presented = p;
      verified = v;
      tokens_left = t;
      one_entry = ground arith;
    })
    | inr t ↦
        let fp = or_dash (known_fingerprint o.sha256 token rec.fingerprint) in
        refused (entry_of fp rate_limited (limit_reason fp)) 429 refl (ground arith) (ground arith)
          (ground arith)
  ]

  with_known_host :
      contains o.net cfg.host_allow (ip_only (host_of r.host_header r.host)) ≡ true
      → (not (is_empty r.origin) && not (origin_allowed o.net cfg.origin_allow r.origin)) ≡ false
      → Refused ⊎ Admitted
  unfolding handler
  with_known_host h g = elim (Option-cases (bearer_token o.net r.authorization)) [
    | inl p ↦
        refused (entry_of dash fail (text "no authorization header" ∷ [])) 401 refl (ground arith)
          (ground arith) (ground arith)
    | inr (token, p) ↦ elim (Result-cases (result_of token)) [
      | inl (none, v) ↦
          refused (entry_of (fingerprint o.sha256 token) fail (text "authentication failed" ∷ []))
            401 refl (ground arith) (ground arith) (ground arith)
      | inl (some rec, v) ↦ limited token rec h g p v
      | inr (e, v) ↦
          refused (entry_of (unavailable o.sha256 token e) deny (text "key store unavailable" ∷ []))
            403 refl (ground arith) (ground arith) (ground arith)
    ]
  ]

  -- Every request is either refused, with one audit record that is no success, an empty reply and
  -- no call of the handler at /mcp, or it is admitted, with one record of success that has the
  -- fingerprint of its key: then the host and the origin are allowed, Verify found a record for the
  -- bearer token, and the limiters let the key and the address through.
  pub gate : Refused ⊎ Admitted
  unfolding handler
  gate =
      elim (Bool-cases (contains o.net cfg.host_allow (ip_only (host_of r.host_header r.host)))) [
        | inr h ↦
            refused (entry_of dash deny (text "invalid host header" ∷ [])) 403 refl (ground arith)
              (ground arith) (ground arith)
        | inl h ↦
            elim (Bool-cases
              (not (is_empty r.origin) && not (origin_allowed o.net cfg.origin_allow r.origin))) [
                | inl g ↦
                    refused (entry_of dash deny (text "invalid origin header" ∷ [])) 403 refl
                      (ground arith) (ground arith) (ground arith)
                | inr g ↦ with_known_host h g
              ]
      ]

  recovered_replies :
      (x : Reply × Site L W) → (code : ℕ) × (body : Bytes) × ((recovered x).0 ≡ status code body)
  recovered_replies (status code body, t) = (code, body, refl)
  recovered_replies (panics, t) = (500, [], refl)

  -- Every request gets a reply, also where the handler at /mcp panics.
  pub handler-replies : (code : ℕ) × (body : Bytes) × (answer.0 ≡ status code body)
  unfolding handler
  handler-replies = recovered_replies _
