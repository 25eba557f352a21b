-- ===== src/Daemon/Authority.antt =====
-- Who makes the daemon act.
use raxd.Prelude.{◌≡◌, refl, length, ◌⊎◌, inl, inr}
use raxd.Server.Request.{Request, background}
use raxd.Server.Pipeline.{Site, Outside}
use raxd.Server.Pipeline.Gate.{Admitted, answer, gate}
use raxd.Server.Pipeline.Passing.{limited_request, context_of, inner_cases}
use raxd.Mcp.Server.{Daemon, caller_of, new_handler}
use raxd.Mcp.Server.Calls.{Served, call_tools-Served}
use raxd.Daemon.{Setting, mcp_of}

module _ {L : Type 0} (c : Setting L) (o : Outside) (r : Request) (s : Site L Daemon) where
  abbrev pub LetIn : Type 0
  LetIn = Admitted c.buckets o c.server.chain (mcp_of c) r background s

  abbrev pub after : Site L Daemon
  after = (answer c.buckets o c.server.chain (mcp_of c) r background s).1

  abbrev pub IsServed : LetIn → Type 0
  IsServed a =
      Served c.meets c.version c.exec_cfg c.upl_cfg
        (caller_of (context_of c.buckets o c.server.chain (mcp_of c) r background s a)) s.inner
        after.inner
        (length
          (c.sdk.reads (limited_request c.buckets o c.server.chain (mcp_of c) r background s)))

  -- An admitted request does nothing or has its calls of tools made in its name.
  pub Admitted-Served : (a : LetIn) → (after.inner ≡ s.inner) ⊎ IsServed a
  unfolding new_handler
  Admitted-Served a =
      elim (inner_cases c.buckets o c.server.chain (mcp_of c) r background s a
        (new_handler c.meets c.version c.exec_cfg c.upl_cfg c.sdk) refl) [
          | inl e ↦ inl e
          | inr e ↦ inr (
              rw e (
                call_tools-Served c.meets c.version c.exec_cfg c.upl_cfg
                  (caller_of (context_of c.buckets o c.server.chain (mcp_of c) r background s a))
                  (c.sdk.reads
                    (limited_request c.buckets o c.server.chain (mcp_of c) r background s))
                  s.inner))
        ]

  -- A request that changes the upload root, starts a process or calls a tool is admitted: Verify
  -- found its key. All that it writes to the audit of tools is signed with the fingerprint of that
  -- key and the address of the request, with one record besides warnings to each call, and it starts
  -- only processes that Run permits.
  pub acts-Served : (after.inner ≡ s.inner) ⊎ ((a : LetIn) × IsServed a)
  acts-Served = elim (gate c.buckets o c.server.chain (mcp_of c) r background s) [
    | inl x ↦ inl x.untouched
    | inr a ↦ elim (Admitted-Served a) [ inl e ↦ inl e | inr v ↦ inr (a, v) ]
  ]
