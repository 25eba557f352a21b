-- ===== src/Daemon/Revocation.antt =====
-- What a revoked key can make the daemon do.
use raxd.Prelude.{
  ℕ, ◌≡◌, ◌≢◌, ◌∙◌, refl, sym, ap, true, List, [], ◌∷◌, ◌++◌, Bytes, All, ◌⊎◌, inl, inr,
}
use raxd.Keystore.{World, Faults}
use raxd.Prelude.Exec.{ok}
use raxd.Keystore.Store.{ids_of, revoke, verify}
use raxd.Keystore.Atomic.{keys_of}
use raxd.Keystore.History.{Call, verifies, step, run}
use raxd.Keystore.Revocation.{unique}
use raxd.Server.Request.{Request, background}
use raxd.Server.Pipeline.{Site, Outside}
use raxd.Server.Pipeline.Passing.{answer_store}
use raxd.Server.Pipeline.Revoked.{admitted-not_revoked}
use raxd.Server.Lifecycle.{answer_all}
use raxd.Mcp.Server.{Daemon}
use raxd.Daemon.{Setting, mcp_of}
use raxd.Daemon.Authority.{LetIn, IsServed, after, acts-Served}

run-append :
    (sha256 : Bytes → Bytes) (w : World) (cs ds : List Call)
    → run sha256 w (cs ++ ds) ≡ run sha256 (run sha256 w cs) ds
unfolding run
run-append sha256 w [] ds = refl
run-append sha256 w (c ∷ cs) ds = run-append sha256 (step sha256 w c) cs ds

module _ {L : Type 0} (c : Setting L) (sha256 : Bytes → Bytes) where
  abbrev pub Hashes : Outside × Request → Type 0
  Hashes x = x.0.sha256 ≡ sha256

  after_calls :
      (o : Outside) (r : Request) (s : Site L Daemon)
      → o.sha256 ≡ sha256
      → (cs : List Call) × ((after c o r s).store ≡ run sha256 s.store cs)
  unfolding run step
  after_calls o r s q = elim (answer_store c.buckets o c.server.chain (mcp_of c) r background s) [
    | inl e ↦ ([], e)
    | inr (token, e) ↦ (
      verifies o.faults o.now token ∷ [],
      e ∙ ap (λ h. (verify h o.faults o.now token s.store).1) q,
    )
  ]

  answer_all_calls :
      (rs : List (Outside × Request)) (s : Site L Daemon)
      → All Hashes rs
      → (cs : List Call) × ((answer_all c.buckets (mcp_of c) c.server rs s).store
          ≡ run sha256 s.store cs)
  unfolding answer_all run
  answer_all_calls [] s a = ([], refl)
  answer_all_calls ((o, r) ∷ rs) s a =
      let (cs, e) = after_calls o r s a.0 in
      let (ds, f) = answer_all_calls rs (after c o r s) a.1 in
      (cs ++ ds, f ∙ (ap (λ w. run sha256 w ds) e ∙ sym (run-append sha256 s.store cs ds)))

  -- Let ids on disk be distinct, let Revoke of an id succeed, let the store of the server be what
  -- any further calls leave, and let any requests be answered. Then the next request does nothing to
  -- the upload root, to processes or to the audit of tools, or a key with another id was found for
  -- it, in whose name it was served.
  pub revoked-powerless :
      (w : World) (f : Faults) (now : ℕ) (id : Bytes) (cs : List Call) (s : Site L Daemon)
      (rs : List (Outside × Request)) (o : Outside) (r : Request)
      → unique (ids_of (keys_of w.file)) ≡ true
      → (revoke f now id w).0 ≡ ok tt
      → s.store ≡ run sha256 (revoke f now id w).1 cs
      → All Hashes rs
      → o.sha256 ≡ sha256
      → let t = answer_all c.buckets (mcp_of c) c.server rs s in
        ((after c o r t).inner ≡ t.inner)
        ⊎ ((a : LetIn c o r t) × (a.rec.id ≢ id) × IsServed c o r t a)
  revoked-powerless w f now id cs s rs o r u h e a q =
      let t = answer_all c.buckets (mcp_of c) c.server rs s in
      elim (acts-Served c o r t) [
        | inl x ↦ inl x
        | inr (p, v) ↦
            let (ds, g) = answer_all_calls rs s a in
            let reached =
              g
              ∙ (ap (λ x. run sha256 x ds) e
                  ∙ sym (run-append sha256 (revoke f now id w).1 cs ds)) in
            inr (
              p,
              admitted-not_revoked c.buckets o c.server.chain (mcp_of c) r background t w f now id
                  (cs ++ ds) u h (rw q reached) p,
              v,
            )
      ]
