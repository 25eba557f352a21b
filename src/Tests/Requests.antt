-- ===== src/Tests/Requests.antt =====
-- The chain of handlers, the limiters and the audit lines on concrete requests, and the bounds of
-- a configuration.
use raxd.Prelude.{
  ℕ, ◌+◌, ◌-◌, ◌≡◌, refl, true, Option, some, none, List, [], ◌∷◌, bytes_eq, codes, ltb,
  if◌then◌else◌, ◌⊎◌,
}
use raxd.Prelude.Int.{pos}
use raxd.Prelude.Dict.{get, set}
use raxd.Keystore.{from_db_record}
use raxd.Keystore.Crypto.{hash_key, generate_id, hex, contains, generate_body, raw_url, fingerprint}
use raxd.Keystore.Disk.{acquire_lock, read_db, write_db}
use raxd.Keystore.Usage.{get_usage, set_usage}
use raxd.Keystore.Store.{
  create, revoke, revoke_loop, verify_loop, verify, apply_usage, flush_snapshot, flush_usage,
}
use raxd.Keystore.History.{step, run}
use raxd.Server.Limiters.{Buckets, new_limiters, used, take_token, allow}
use raxd.Server.Limiters.Isolation.{Event, asks, sweeps, only, after, key_isolation}
use raxd.Server.Request.{
  Request, background, Net, mcp, anything, strip_prefix, bearer_token, split_host, has_byte,
  split_at, ip_only,
}
use raxd.Server.Request.{contains as host_contains, origin_allowed}
use raxd.Server.Pipeline.{
  Reply, status, panics, Site, Outside, McpHandler, handler, host_origin_middleware,
  auth_middleware, rate_limit_middleware, auth_success_audit_middleware, recover_middleware,
  body_limit_middleware, mux,
}
use raxd.Server.Pipeline.Gate.{Refused, Admitted, gate}
use raxd.Config.{Parsers, Viper, string, parse_duration}
use raxd.Tests.Keys.{same, quiet, two_keys, history, record_b}

abbrev pub two_tokens : Buckets ℕ
two_tokens = record { fresh = 2; allow_at = λ now n. (ltb 0 n, n - 1) }

abbrev pub net : Net
net = record {
  to_lower = λ s. s;
  trim_space = λ s. s;
  url_hostname = λ s. some s;
  pattern = λ r. if bytes_eq r.path (codes "/mcp") then mcp else anything;
}

abbrev pub meets : Outside
meets = record { net = net; sha256 = same; faults = quiet; now = 9 }

abbrev pub allowed : raxd.Server.Pipeline.Config
allowed = record {
  host_allow = codes "localhost" ∷ [];
  origin_allow = [];
  max_body_bytes = pos 4096;
}

abbrev pub counts : Option (McpHandler ℕ)
counts = some (λ r ctx n. (status 200 (codes "done"), n + 1))

abbrev pub with_key_b : Request
with_key_b = record {
  method = codes "POST";
  path = codes "/mcp";
  remote_addr = codes "10.0.0.1:50000";
  host = codes "localhost:8443";
  host_header = [];
  origin = [];
  authorization = codes "Bearer kb";
  body = [];
  body_limit = none;
}

abbrev pub site : Site ℕ ℕ
site = record { store = two_keys; limiters = new_limiters 600; audits = []; inner = 0 }

abbrev pub later : Site ℕ ℕ
later = record site { store = run same (revoke quiet 5 (codes "a") two_keys).1 history }

gate_example :
    Refused two_tokens meets allowed counts with_key_b background site
    ⊎ Admitted two_tokens meets allowed counts with_key_b background site
gate_example = gate two_tokens meets allowed counts with_key_b background site

abbrev pub let_in : Admitted two_tokens meets allowed counts with_key_b background later
unfolding run step create revoke acquire_lock read_db write_db flush_usage flush_snapshot verify
    contains bytes_eq revoke_loop verify_loop hash_key generate_id hex set_usage apply_usage
    get_usage generate_body raw_url fingerprint handler allow take_token used get set bearer_token
    ip_only host_contains origin_allowed strip_prefix split_host has_byte split_at from_db_record
let_in = record {
  token = codes "kb";
  rec = record_b;
  host_known = refl;
  origin_known = refl;
  presented = refl;
  verified = refl;
  tokens_left = refl;
  one_entry = refl;
}

abbrev busy : List Event
busy =
    asks 1 (codes "fa") (codes "10.0.0.1")
    ∷ asks 2 (codes "fb") (codes "10.0.0.2")
    ∷ sweeps 3
    ∷ asks 4 (codes "fa") (codes "10.0.0.1")
    ∷ []

key_isolation_example :
    get (codes "fb") (after two_tokens busy (new_limiters 600)).per_key
    ≡ get (codes "fb") (after two_tokens (only (codes "fb") busy) (new_limiters 600)).per_key
key_isolation_example = key_isolation two_tokens 600 (codes "fb") busy

abbrev pub values : Viper
values = record {
  get = λ key. string (codes "5s");
  get_string = λ key.
      if bytes_eq (codes key) (codes "upload.default_mode")
      then codes "0600"
      else codes "127.0.0.1";
  get_int = λ key. pos 1;
  get_int64 = λ key. if bytes_eq (codes key) (codes "max_body_bytes") then pos 4096 else pos 2304;
  get_float64 = λ key. codes "5";
  get_bool = λ key. true;
  get_string_slice = λ key. [];
}

abbrev pub parsers : Parsers
parsers = record { parses_ip = λ s. true; parse_duration = λ s. some (pos 5) }

abbrev pub accepted : raxd.Config.Config
accepted = record {
  port = pos 1;
  bind_addr = codes "127.0.0.1";
  rate_limit = codes "5";
  rate_burst = pos 1;
  origin_allow = [];
  host_allow = [];
  read_timeout = pos 5;
  read_header_timeout = pos 5;
  write_timeout = pos 5;
  idle_timeout = pos 5;
  max_header_bytes = pos 1;
  max_body_bytes = pos 4096;
  exec = raxd.Config.exec_config values;
  upload = raxd.Config.upload_config values;
}
