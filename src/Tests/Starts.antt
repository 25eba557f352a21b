-- ===== src/Tests/Starts.antt =====
-- Starts of the server on concrete disks, and its end.
use raxd.Prelude.{
  ℕ, ◌≡◌, ◌≢◌, ◌<◌, refl, true, false, none, some, [], ◌∷◌, ◌++◌, Bytes, bytes_eq, codes, length,
  All, arith,
}
use raxd.Prelude.Exec.{ok, err}
use raxd.Prelude.Int.{pos}
use raxd.Keystore.{io}
use raxd.Keystore.Atomic.{keys_of}
use raxd.Keystore.Flush.{IsUsedAt}
use raxd.Server.Tls.{
  File, Disk, PemFaults, Crypto, generated, loaded, load_or_create_cert, generate_self_signed,
  write_pem,
}
use raxd.Server.Tls.Pair.{
  Settled, generated_then_loaded, load_or_create_cert-Settled, empty_pair_replaced,
}
use raxd.Keystore.Crypto.{hash_key, generate_id, hex, contains, generate_body, raw_url, fingerprint}
use raxd.Keystore.Disk.{acquire_lock, read_db, write_db}
use raxd.Keystore.Usage.{get_usage, set_usage}
use raxd.Keystore.Store.{revoke_loop, verify_loop, verify, apply_usage, flush_snapshot, flush_usage}
use raxd.Keystore.{from_db_record}
use raxd.Prelude.Dict.{get, set}
use raxd.Server.Limiters.{used, take_token, allow}
use raxd.Server.Request.{
  background, strip_prefix, bearer_token, split_host, has_byte, split_at, ip_only,
}
use raxd.Server.Request.{contains as host_contains, origin_allowed}
use raxd.Server.Pipeline.{handler}
use raxd.Server.Pipeline.Gate.{Admitted}
use raxd.Server.Lifecycle.{Server, Events, bound, cancelled, answer_all, run}
use raxd.Server.Lifecycle.Shutdown.{run-IsUsedAt}
use raxd.Config.{read, load}
use raxd.Cli.Serve.{Start, Host, run_serve, run_to_end, start_lines, shutdown_lines, bad_mode}
use raxd.Cli.Serve.Endings.{warnings_of, unflushed_said_flushed}
use raxd.Cli.Serve.Modes.{run_serve-parse_mode}
use raxd.Tests.Keys.{record_b, quiet, no_rename}
use raxd.Tests.Requests.{two_tokens, meets, allowed, counts, with_key_b, site, values, parsers}
use raxd.Tests.Lines.{at_home}

abbrev works : PemFaults
works = record {
  create_fails = false;
  chmod_fails = false;
  encode_fails = false;
  part = [];
  sync_fails = false;
  close_fails = false;
  rename_fails = false;
}

abbrev pub makes : Crypto
makes = record {
  generated = some (codes "CERT", codes "KEY");
  pairs = λ cert key. bytes_eq key (codes "KEY");
  stat_cert_fails = false;
  stat_key_fails = false;
  read_fails = false;
  remove_fails = false;
  key_faults = works;
  cert_faults = works;
}

abbrev no_cert : Crypto
no_cert = record makes { cert_faults = record works { sync_fails = true } }

abbrev pub empty_disk : Disk
empty_disk = record { cert = none; key = none; temps = [] }

abbrev empty_file : File
empty_file = record { mode = 384; contents = [] }

abbrev empty_files : Disk
empty_files = record { cert = some empty_file; key = some empty_file; temps = [] }

sizes :
    (cert key : Bytes) → makes.generated ≡ some (cert, key) → (0 < length cert) × (0 < length key)
sizes cert key e = ground arith

generated_then_loaded_example :
    load_or_create_cert makes (load_or_create_cert makes empty_disk).1
    ≡ (ok loaded, (load_or_create_cert makes empty_disk).1)
unfolding load_or_create_cert generate_self_signed write_pem bytes_eq
generated_then_loaded_example =
    generated_then_loaded makes makes empty_disk refl sizes (λ cert key. refl) refl refl refl

load_or_create_cert-Settled_example :
    Settled no_cert empty_disk (load_or_create_cert no_cert empty_disk).1
load_or_create_cert-Settled_example = load_or_create_cert-Settled no_cert empty_disk refl refl refl

empty_pair_replaced_example : load_or_create_cert makes empty_files ≡ (
  ok generated,
  record empty_files {
    cert = some (record { mode = 420; contents = codes "CERT" });
    key = some (record { mode = 384; contents = codes "KEY" });
  },
)
unfolding write_pem bytes_eq
empty_pair_replaced_example =
    empty_pair_replaced makes empty_files empty_file empty_file (codes "CERT") (codes "KEY") refl
      refl refl refl refl refl refl refl

abbrev pub server : Server
server = record {
  bind_addr = codes "127.0.0.1";
  port = pos 8443;
  chain = allowed;
  cert_info = record { cert_path = codes "/c"; key_path = codes "/k"; generated = true };
}

abbrev pub one_request : Events
one_request = record {
  listen = bound;
  serving = cancelled;
  shutdown_fails = true;
  has_hook = false;
  requests = (meets, with_key_b) ∷ [];
  flush_faults = quiet;
}

abbrev taken_in : Admitted two_tokens meets allowed counts with_key_b background site
unfolding run answer_all acquire_lock read_db write_db flush_usage flush_snapshot verify contains
    bytes_eq revoke_loop verify_loop hash_key generate_id hex set_usage apply_usage get_usage
    generate_body raw_url fingerprint handler allow take_token used get set bearer_token ip_only
    host_contains origin_allowed strip_prefix split_host has_byte split_at from_db_record
taken_in = record {
  token = codes "kb";
  rec = record_b;
  host_known = refl;
  origin_known = refl;
  presented = refl;
  verified = refl;
  tokens_left = refl;
  one_entry = refl;
}

run-IsUsedAt_example :
    ((run two_tokens counts server one_request site).0 ≡ ok tt)
    × All
        (IsUsedAt (codes "b") 9)
        (keys_of (run two_tokens counts server one_request site).1.1.store.file)
unfolding run answer_all acquire_lock read_db write_db flush_usage flush_snapshot verify contains
    bytes_eq revoke_loop verify_loop hash_key generate_id hex set_usage apply_usage get_usage
    generate_body raw_url fingerprint handler allow take_token used get set bearer_token ip_only
    host_contains origin_allowed strip_prefix split_host has_byte split_at from_db_record taken_in
run-IsUsedAt_example =
    run-IsUsedAt two_tokens counts server one_request site [] meets with_key_b refl refl refl
      taken_in refl

abbrev pub unflushed : Start
unflushed = record {
  env = at_home;
  mkdir_fails = λ d. false;
  load = λ p. load parsers read values;
  open_faults = quiet;
  list_faults = quiet;
  crypto = makes;
  events = record one_request { flush_faults = no_rename };
  paths_text = λ e. [];
  config_text = λ e. [];
  server_text = λ e. [];
  warning_text = λ s. [];
}

abbrev host : Host ℕ ℕ
host = record { dirs = []; tls = empty_disk; site = site; steps = []; console = [] }

unflushed_said_flushed_example :
    ((run_to_end two_tokens (λ exec upload. counts) unflushed counts server false host).0 ≡ ok tt)
    × ((run_to_end two_tokens (λ exec upload. counts) unflushed counts server false host).1.console
        ≡ (([] ++ start_lines server false)
            ++ warnings_of (λ s. []) unflushed.events.shutdown_fails)
          ++ shutdown_lines)
unfolding run answer_all acquire_lock read_db write_db flush_usage flush_snapshot verify contains
    bytes_eq revoke_loop verify_loop hash_key generate_id hex set_usage apply_usage get_usage
    generate_body raw_url fingerprint handler allow take_token used get set bearer_token ip_only
    host_contains origin_allowed strip_prefix split_host has_byte split_at from_db_record
unflushed_said_flushed_example =
    unflushed_said_flushed two_tokens (λ exec upload. counts) unflushed counts server false host
      {x = io "cannot commit key store"} refl refl refl

run_serve-parse_mode_example :
    (run_serve two_tokens (λ exec upload. counts) unflushed host).0 ≢ err bad_mode
run_serve-parse_mode_example =
    run_serve-parse_mode two_tokens (λ exec upload. counts) unflushed host parsers read
      (λ p. values) (λ p. refl)
