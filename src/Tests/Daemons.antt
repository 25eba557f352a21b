-- ===== src/Tests/Daemons.antt =====
-- The daemon on concrete requests, and the reaping on a concrete system.
use raxd.Prelude.{
  ℕ, ◌+◌, ◌-◌, ◌≡◌, ◌≢◌, ◌≤◌, ◌⊎◌, refl, some, [], ◌∷◌, bytes_eq, codes, ltb, if◌then◌else◌, arith,
}
use raxd.Prelude.Exec.{ok}
use raxd.Prelude.Int.{ℤ, pos, negsuc}
use raxd.Keystore.{from_db_record}
use raxd.Keystore.Crypto.{hash_key, generate_id, hex, contains, generate_body, raw_url, fingerprint}
use raxd.Keystore.Disk.{acquire_lock, read_db, write_db}
use raxd.Keystore.Usage.{get_usage, set_usage}
use raxd.Keystore.Store.{
  create, revoke, revoke_loop, verify_loop, verify, apply_usage, flush_snapshot, flush_usage,
}
use raxd.Keystore.History.{step, run}
use raxd.CmdExec.Group.{Kernel}
use raxd.FileUpload.Root.{total}
use raxd.Server.Pipeline.{Site, status}
use raxd.Server.Lifecycle.{answer_all}
use raxd.Config.{Config}
use raxd.Config.Paths.{PathSet}
use raxd.Mcp.Server.{Sdk, Machine, Daemon, calls_execute_command}
use raxd.Cli.Serve.{Start, Host, run_serve}
use raxd.Daemon.{Setting}
use raxd.Daemon.Authority.{LetIn, IsServed, after, acts-Served}
use raxd.Daemon.Revocation.{revoked-powerless}
use raxd.Daemon.Serve.{mcp_handler}
use raxd.Daemon.Serve.Quota.{run_serve-within_quota}
use raxd.Tests.Keys.{same, quiet, two_keys, history}
use raxd.Tests.Requests.{two_tokens, meets, with_key_b, accepted, later}
use raxd.Tests.Starts.{server, unflushed, empty_disk}
use raxd.Tests.Commands as Commands
use raxd.Tests.Uploads as Uploads

abbrev runs_ls : Sdk
runs_ls = record {
  reads = λ r. calls_execute_command Commands.call ∷ [];
  answers = λ r replies. status 200 [];
}

abbrev machines : ℕ → Machine
machines n = record { exec_host = Commands.host; upload_host = Uploads.host; leaves = λ t. t }

abbrev setting : Setting ℕ
setting = record {
  buckets = two_tokens;
  server = server;
  sdk = runs_ls;
  meets = machines;
  version = codes "1.0";
  exec_cfg = Commands.limits;
  upl_cfg = Uploads.limits;
}

abbrev daemon : Daemon
daemon = record { audits = []; spawned = []; tree = Uploads.tree; calls = 0 }

abbrev revoked : Site ℕ Daemon
revoked = record { store = later.store; limiters = later.limiters; audits = []; inner = daemon }

acts-Served_example :
    ((after setting meets with_key_b revoked).inner ≡ daemon)
    ⊎ ((a : LetIn setting meets with_key_b revoked) × IsServed setting meets with_key_b revoked a)
acts-Served_example = acts-Served setting meets with_key_b revoked

revoked-powerless_example :
    let t =
      answer_all two_tokens
        (raxd.Daemon.mcp_of setting)
        server
        ((meets, with_key_b) ∷ [])
        revoked in
    ((after setting meets with_key_b t).inner ≡ t.inner)
    ⊎ ((a : LetIn setting meets with_key_b t) × (a.rec.id ≢ codes "a")
        × IsServed setting meets with_key_b t a)
unfolding run step revoke create acquire_lock read_db write_db flush_usage flush_snapshot verify
    contains bytes_eq revoke_loop verify_loop hash_key generate_id hex set_usage apply_usage
    get_usage generate_body raw_url fingerprint from_db_record
revoked-powerless_example =
    revoked-powerless setting same two_keys quiet 5 (codes "a") history revoked
      ((meets, with_key_b) ∷ []) meets with_key_b refl refl refl (refl, tt) refl

abbrev plain_start : Start
plain_start = record unflushed { load = λ p. ok accepted }

abbrev daemon_host : Host ℕ Daemon
daemon_host = record { dirs = []; tls = empty_disk; site = revoked; steps = []; console = [] }

limit_of_load :
    (p : PathSet) (cfg : Config)
    → plain_start.load p ≡ ok cfg
    → (cfg.upload.max_total_bytes ≡ pos 2304) × (cfg.upload.max_file_bytes ≡ pos 2304)
unfolding bytes_eq
limit_of_load p cfg e = (ground (arith, e), ground (arith, e))

run_serve-within_quota_example :
    total
      (run_serve two_tokens
        (mcp_handler runs_ls machines (codes "1.0"))
        plain_start
        daemon_host).1.site.inner.tree
    ≤ 2304
unfolding total
run_serve-within_quota_example =
    run_serve-within_quota two_tokens runs_ls machines (codes "1.0") plain_start 2304 2304
      (omega arith) (omega arith) (λ n. refl) (λ n t h. h) limit_of_load daemon_host (omega arith)

-- A clock and the children that are left in the one group.
abbrev State : Type 0
State = ℕ × ℕ

abbrev wait4 : ℕ → State → ℤ × State
wait4 g (now, n) = if ltb 0 n then (pos 7, (now + 1, n - 1)) else (negsuc 0, (now + 1, n))

abbrev system : Kernel State
system = record {
  now = λ k. k.0;
  set_child_subreaper = λ k. k;
  start = λ setpgid k. some (7, k);
  wait = λ cancel pid k. cancel k;
  wait4 = wait4;
  kill = λ g k. k;
  sleep = λ n k. (k.0 + n, k.1);
}
