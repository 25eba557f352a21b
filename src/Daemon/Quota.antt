-- ===== src/Daemon/Quota.antt =====
-- The quota of the upload root through a run of the server.
use raxd.Prelude.{ℕ, ◌+◌, ◌^◌, ◌≡◌, ◌≤◌, ◌<◌, refl, false, List, [], ◌∷◌, arith, ◌⊎◌, inl, inr}
use raxd.Prelude.Int.{pos}
use raxd.FileUpload.Root.{Tree, total}
use raxd.Server.Request.{Request, background}
use raxd.Server.Pipeline.{Site, Outside}
use raxd.Server.Pipeline.Gate.{gate}
use raxd.Server.Pipeline.Passing.{limited_request, context_of, inner_cases}
use raxd.Server.Lifecycle.{Events, answer_all, run}
use raxd.Mcp.Server.{Daemon, caller_of, new_handler}
use raxd.Mcp.Server.Calls.{call_tools-le}
use raxd.Daemon.{Setting, mcp_of}
use raxd.Daemon.Authority.{LetIn, after}

module _ {L : Type 0} (c : Setting L) (m k : ℕ) (limited : c.upl_cfg.max_total_bytes ≡ pos m)
    (positive : 0 < m) (small : c.upl_cfg.max_file_bytes ≡ pos k) (fits : m + k < 2 ^ 63)
    (removes : (n : ℕ) → (c.meets n).upload_host.faults.remove_fails ≡ false)
    (behaves : (n : ℕ) (t : Tree) → total t ≤ m → total ((c.meets n).leaves t) ≤ m) where
  Admitted-le :
      (o : Outside) (r : Request) (s : Site L Daemon)
      → LetIn c o r s
      → total s.inner.tree ≤ m
      → total (after c o r s).inner.tree ≤ m
  unfolding new_handler
  Admitted-le o r s a h =
      elim (inner_cases c.buckets o c.server.chain (mcp_of c) r background s a
        (new_handler c.meets c.version c.exec_cfg c.upl_cfg c.sdk) refl) [
          | inl e ↦ rw e h
          | inr e ↦ rw e (
              call_tools-le c.meets c.version c.exec_cfg c.upl_cfg
                (caller_of (context_of c.buckets o c.server.chain (mcp_of c) r background s a)) m k
                limited positive small fits removes behaves
                (c.sdk.reads (limited_request c.buckets o c.server.chain (mcp_of c) r background s))
                s.inner h)
        ]

  after-le :
      (o : Outside) (r : Request) (s : Site L Daemon)
      → total s.inner.tree ≤ m
      → total (after c o r s).inner.tree ≤ m
  after-le o r s h = elim (gate c.buckets o c.server.chain (mcp_of c) r background s) [
    | inl x ↦ rw x.untouched h
    | inr a ↦ Admitted-le o r s a h
  ]

  answer_all-le :
      (rs : List (Outside × Request)) (s : Site L Daemon)
      → total s.inner.tree ≤ m
      → total (answer_all c.buckets (mcp_of c) c.server rs s).inner.tree ≤ m
  unfolding answer_all
  answer_all-le [] s h = h
  answer_all-le ((o, r) ∷ rs) s h = answer_all-le rs (after c o r s) (after-le o r s h)

  run_inner :
      (ev : Events) (s : Site L Daemon)
      → ((run c.buckets (mcp_of c) c.server ev s).1.1.inner ≡ s.inner)
        ⊎ ((run c.buckets (mcp_of c) c.server ev s).1.1.inner
            ≡ (answer_all c.buckets (mcp_of c) c.server ev.requests s).inner)
  unfolding run
  run_inner ev s = ground arith

  -- With a positive limit on the total of the upload root that with the limit on a file is below
  -- 2 ^ 63, where temporary files can be removed and commands keep a root within the limit, a root within the limit when Run starts is within it when Run ends, whatever requests were
  -- answered, and whatever else failed.
  pub run-within_quota :
      (ev : Events) (s : Site L Daemon)
      → total s.inner.tree ≤ m
      → total (run c.buckets (mcp_of c) c.server ev s).1.1.inner.tree ≤ m
  run-within_quota ev s h = elim (run_inner ev s) [
    | inl e ↦ rw e h
    | inr e ↦ rw e (answer_all-le ev.requests s h)
  ]
