-- ===== src/Server/Lifecycle/Shutdown.antt =====
-- What Run leaves when it ends.
use raxd.Prelude.{◌≡◌, refl, Option, List, [], ◌∷◌, ◌++◌, arith, All}
use raxd.Prelude.Exec.{ok}
use raxd.Keystore.Store.{flush_usage, verify}
use raxd.Keystore.Atomic.{keys_of}
use raxd.Keystore.Flush.{IsUsedAt, verify-flush}
use raxd.Server.Limiters.{Buckets}
use raxd.Server.Request.{Request, background, Context}
use raxd.Server.Pipeline.{Site, Config, Outside, McpHandler, handler}
use raxd.Server.Pipeline.Gate.{Admitted, answer}
use raxd.Server.Lifecycle.{Server, Events, bound, cancelled, answer_all, run}

-- An admitted request leaves the store as Verify does.
admitted_store :
    {L W : Type 0} (b : Buckets L) (o : Outside) (cfg : Config)
    (mcp_handler : Option (McpHandler W)) (r : Request) (ctx : Context) (s : Site L W)
    → (a : Admitted b o cfg mcp_handler r ctx s)
    → (answer b o cfg mcp_handler r ctx s).1.store
      ≡ (verify o.sha256 o.faults o.now a.token s.store).1
unfolding handler
admitted_store b o cfg mcp_handler r ctx s a =
    ground (arith, a.host_known, a.origin_known, a.presented, a.verified, a.tokens_left)

module _ {L W : Type 0} (b : Buckets L) (mcp_handler : Option (McpHandler W)) (srv : Server) where
  answer_all-append :
      (rs : List (Outside × Request)) (o : Outside) (r : Request) (s : Site L W)
      → answer_all b mcp_handler srv (rs ++ (o, r) ∷ []) s
        ≡ (answer b o srv.chain mcp_handler r background (answer_all b mcp_handler srv rs s)).1
  unfolding answer_all
  answer_all-append [] o r s = refl
  answer_all-append ((p, q) ∷ rs) o r s =
      answer_all-append rs o r (handler b p srv.chain mcp_handler q background s).1

  run_cancelled :
      (ev : Events) (s : Site L W)
      → ev.listen ≡ bound
      → ev.serving ≡ cancelled
      → ((run b mcp_handler srv ev s).0 ≡ ok tt)
        × ((run b mcp_handler srv ev s).1.1.store
            ≡ (flush_usage ev.flush_faults (answer_all b mcp_handler srv ev.requests s).store).1)
  unfolding run
  run_cancelled ev s l c = ground arith

  -- Let the port be bound and the context be cancelled, let the last request that was answered have
  -- been admitted, and let the flush at the end work. Then Run ends without an error, and every
  -- active record on disk with the id of the key of that request has its time as the time of use.
  pub run-IsUsedAt :
      (ev : Events) (s : Site L W) (rs : List (Outside × Request)) (o : Outside) (r : Request)
      → ev.listen ≡ bound
      → ev.serving ≡ cancelled
      → ev.requests ≡ rs ++ (o, r) ∷ []
      → (a : Admitted b o srv.chain mcp_handler r background (answer_all b mcp_handler srv rs s))
      → (flush_usage ev.flush_faults (answer_all b mcp_handler srv ev.requests s).store).0 ≡ ok tt
      → ((run b mcp_handler srv ev s).0 ≡ ok tt)
        × All (IsUsedAt a.rec.id o.now) (keys_of (run b mcp_handler srv ev s).1.1.store.file)
  run-IsUsedAt ev s rs o r l c q a f =
      let (done, e) = run_cancelled ev s l c in
      let before = answer_all b mcp_handler srv rs s in
      let last : (answer_all b mcp_handler srv ev.requests s).store
          ≡ (verify o.sha256 o.faults o.now a.token before.store).1 =
        rw (q, answer_all-append rs o r s)
          (admitted_store b o srv.chain mcp_handler r background before a) in
      (
        done,
        rw (e, last)
            (verify-flush o.sha256 o.faults ev.flush_faults o.now a.token before.store {r = a.rec}
              a.verified (rw last at f)),
      )
