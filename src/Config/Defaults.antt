-- ===== src/Config/Defaults.antt =====
-- internal/config/config.go: the defaults that Load sets, and what they amount to.
use raxd.Prelude.{◌≡◌, refl, Bool, false, some, List, [], ◌∷◌, Bytes, String, codes, true}
use raxd.Prelude.Exec.{ok}
use raxd.Prelude.Int.{ℤ, pos, to_int64}
use raxd.FileUpload.Mode.{parse_mode_str, parse_int}
use raxd.Config.{
  Viper, Parsers, Config, string, parse_duration, ceiling, build_config, no_file, load,
}

-- A value by its type in Go.
pub data Default : Type 0 where
  integer : ℤ → Default
  float : Bytes → Default
  text : Bytes → Default
  texts : List Bytes → Default
  flag : Bool → Default

abbrev local : List Bytes
local = codes "localhost" ∷ codes "127.0.0.1" ∷ codes "::1" ∷ []

-- The calls of SetDefault, in their order.
abbrev defaults : List (String × Default)
defaults =
    ("port", integer (pos 7822))
    ∷ ("bind_addr", text (codes "127.0.0.1"))
    ∷ ("rate_limit", float (codes "10.0"))
    ∷ ("rate_burst", integer (pos 20))
    ∷ ("origin_allow", texts local)
    ∷ ("host_allow", texts local)
    ∷ ("read_timeout", text (codes "30s"))
    ∷ ("read_header_timeout", text (codes "10s"))
    ∷ ("write_timeout", text (codes "30s"))
    ∷ ("idle_timeout", text (codes "120s"))
    ∷ ("max_header_bytes", integer (pos 1_048_576))
    ∷ ("max_body_bytes", integer (pos 1_048_576))
    ∷ ("exec.allowlist", texts [])
    ∷ ("exec.default_timeout_ms", integer (pos 30_000))
    ∷ ("exec.max_timeout_ms", integer (pos 300_000))
    ∷ ("exec.default_cwd", text (codes "/tmp"))
    ∷ ("exec.env_whitelist", texts (codes "PATH" ∷ codes "HOME" ∷ codes "LANG" ∷ codes "TERM" ∷ []))
    ∷ ("exec.max_args", integer (pos 256))
    ∷ ("exec.max_arg_len", integer (pos 131_072))
    ∷ ("exec.max_output_bytes", integer (pos 1_048_576))
    ∷ ("exec.deny_root", flag false)
    ∷ ("upload.root", text [])
    ∷ ("upload.max_file_bytes", integer (pos 716_800))
    ∷ ("upload.max_total_bytes", integer (pos 0))
    ∷ ("upload.default_mode", text (codes "0600"))
    ∷ ("upload.overwrite_default", flag false)
    ∷ ("upload.deny_root", flag false)
    ∷ []

-- The getters give the default of a key.
abbrev Gives : Viper → String → Default → Type 0
Gives v key (integer n) = (v.get_int key ≡ n) × (v.get_int64 key ≡ n)
Gives v key (float x) = v.get_float64 key ≡ x
Gives v key (text s) = (v.get key ≡ string s) × (v.get_string key ≡ s)
Gives v key (texts ss) = v.get_string_slice key ≡ ss
Gives v key (flag b) = v.get_bool key ≡ b

-- For keys that are not set, viper gives the default.
abbrev GivesAll : Viper → List (String × Default) → Type 0
GivesAll v [] = Unit {0}
GivesAll v ((key, x) ∷ rest) = Gives v key x × GivesAll v rest

-- The configuration of a host without a config file.
abbrev default_config : Config
default_config = record {
  port = pos 7822;
  bind_addr = codes "127.0.0.1";
  rate_limit = codes "10.0";
  rate_burst = pos 20;
  origin_allow = local;
  host_allow = local;
  read_timeout = pos 30_000_000_000;
  read_header_timeout = pos 10_000_000_000;
  write_timeout = pos 30_000_000_000;
  idle_timeout = pos 120_000_000_000;
  max_header_bytes = pos 1_048_576;
  max_body_bytes = pos 1_048_576;
  exec = record {
    allowlist = [];
    default_timeout_ms = pos 30_000;
    max_timeout_ms = pos 300_000;
    default_cwd = codes "/tmp";
    env_whitelist = codes "PATH" ∷ codes "HOME" ∷ codes "LANG" ∷ codes "TERM" ∷ [];
    max_args = pos 256;
    max_arg_len = pos 131_072;
    max_output_bytes = pos 1_048_576;
    deny_root = false;
  };
  upload = record {
    upload_root = [];
    max_file_bytes = pos 716_800;
    max_total_bytes = pos 0;
    default_mode = codes "0600";
    overwrite_default = false;
    deny_root = false;
  };
}

-- Let viper give the defaults, and let the parsers read their address and durations. Then Load
-- without a config file succeeds with the default configuration: the defaults pass every check.
load_without_file :
    (p : Parsers) (v : Viper)
    → GivesAll v defaults
    → p.parses_ip (codes "127.0.0.1") ≡ true
    → p.parse_duration (codes "30s") ≡ some (pos 30_000_000_000)
    → p.parse_duration (codes "10s") ≡ some (pos 10_000_000_000)
    → p.parse_duration (codes "120s") ≡ some (pos 120_000_000_000)
    → load p no_file v ≡ ok default_config
unfolding load build_config parse_duration ceiling to_int64 parse_mode_str parse_int
load_without_file p v g ip d30 d10 d120 =
    rw
      (
        g.1.0.1, ip, g.1.1.1.1.1.1.0.0, d30, g.1.1.1.1.1.1.1.0.0, d10, g.1.1.1.1.1.1.1.1.0.0, d30,
        g.1.1.1.1.1.1.1.1.1.0.0, d120, g.1.1.1.1.1.1.1.1.1.1.1.0.1,
        g.1.1.1.1.1.1.1.1.1.1.1.1.1.1.1.1.1.1.1.1.1.1.0.1,
        g.1.1.1.1.1.1.1.1.1.1.1.1.1.1.1.1.1.1.1.1.1.1.1.0.1,
        g.1.1.1.1.1.1.1.1.1.1.1.1.1.1.1.1.1.1.1.1.1.1.1.1.0.1, g.0.0, g.1.1.0, g.1.1.1.0.0,
        g.1.1.1.1.0, g.1.1.1.1.1.0, g.1.1.1.1.1.1.1.1.1.1.0.0, g.1.1.1.1.1.1.1.1.1.1.1.1.0,
        g.1.1.1.1.1.1.1.1.1.1.1.1.1.0.0, g.1.1.1.1.1.1.1.1.1.1.1.1.1.1.0.0,
        g.1.1.1.1.1.1.1.1.1.1.1.1.1.1.1.0.1, g.1.1.1.1.1.1.1.1.1.1.1.1.1.1.1.1.0,
        g.1.1.1.1.1.1.1.1.1.1.1.1.1.1.1.1.1.0.0, g.1.1.1.1.1.1.1.1.1.1.1.1.1.1.1.1.1.1.0.0,
        g.1.1.1.1.1.1.1.1.1.1.1.1.1.1.1.1.1.1.1.0.0, g.1.1.1.1.1.1.1.1.1.1.1.1.1.1.1.1.1.1.1.1.0,
        g.1.1.1.1.1.1.1.1.1.1.1.1.1.1.1.1.1.1.1.1.1.0.1,
        g.1.1.1.1.1.1.1.1.1.1.1.1.1.1.1.1.1.1.1.1.1.1.1.1.1.0,
        g.1.1.1.1.1.1.1.1.1.1.1.1.1.1.1.1.1.1.1.1.1.1.1.1.1.1.0,
      )
      refl
