-- ===== src/Config.antt =====
-- internal/config/config.go: Load, buildConfig and parseDuration, on the values that viper gives.
pub mod Bounds
pub mod Defaults
pub mod Paths
use raxd.Prelude.{
  ℕ, ◌+◌, ◌*◌, ◌/◌, ◌-◌, suc, Bool, true, false, not, ◌&&◌, ◌||◌, Option, none, some, List, [], ◌∷◌,
  Bytes, String, if◌then◌else◌,
}
use raxd.Prelude.Exec.{Result, ok, err}
use raxd.Prelude.Int.{ℤ, pos, negsuc, pos_part, neg_part, sub_ℕ, ltb_ℤ, to_int64, scale}
use raxd.FileUpload.Mode.{parse_mode_str}

-- What v.Get returns, by its type.
pub data Value : Type 0 where
  duration : ℤ → Value
  string : Bytes → Value
  number : Value
  no_value : Value

-- github.com/spf13/viper: the getters; `number` values are read by `int64`.
pub record Viper : Type 0 where
  pub get : String → Value
  pub get_string : String → Bytes
  pub get_int : String → ℤ
  pub get_int64 : String → ℤ
  pub get_float64 : String → Bytes
  pub get_bool : String → Bool
  pub get_string_slice : String → List Bytes

-- net.ParseIP, and time.ParseDuration in nanoseconds.
pub record Parsers : Type 0 where
  pub parses_ip : Bytes → Bool
  pub parse_duration : Bytes → Option ℤ

pub record ExecConfig : Type 0 where
  pub allowlist : List Bytes
  pub default_timeout_ms : ℤ
  pub max_timeout_ms : ℤ
  pub default_cwd : Bytes
  pub env_whitelist : List Bytes
  pub max_args : ℤ
  pub max_arg_len : ℤ
  pub max_output_bytes : ℤ
  pub deny_root : Bool

pub record UploadConfig : Type 0 where
  pub upload_root : Bytes
  pub max_file_bytes : ℤ
  pub max_total_bytes : ℤ
  pub default_mode : Bytes
  pub overwrite_default : Bool
  pub deny_root : Bool

-- `rate_limit` is a float64, which nothing here reads.
pub record Config : Type 0 where
  pub port : ℤ
  pub bind_addr : Bytes
  pub rate_limit : Bytes
  pub rate_burst : ℤ
  pub origin_allow : List Bytes
  pub host_allow : List Bytes
  pub read_timeout : ℤ
  pub read_header_timeout : ℤ
  pub write_timeout : ℤ
  pub idle_timeout : ℤ
  pub max_header_bytes : ℤ
  pub max_body_bytes : ℤ
  pub exec : ExecConfig
  pub upload : UploadConfig

pub data ConfigError : Type 0 where
  bad_yaml bad_bind_addr bad_max_file bad_max_total bad_mode : ConfigError
  bad_duration : String → ConfigError
  bad_type : String → ConfigError

abbrev pub or_bad_duration : String → Option ℤ → Result ConfigError ℤ
or_bad_duration key none = err (bad_duration key)
or_bad_duration key (some d) = ok d

abbrev pub duration_of : Parsers → Viper → String → Value → Result ConfigError ℤ
duration_of p v key (duration d) = ok d
duration_of p v key (string s) = or_bad_duration key (p.parse_duration s)
duration_of p v key number = ok (v.get_int64 key)
duration_of p v key no_value = err (bad_type key)

unfoldable pub parse_duration : Parsers → Viper → String → Result ConfigError ℤ
parse_duration p v key = duration_of p v key (v.get key)

infixl 10 ◌>>=◌
abbrev pub ◌>>=◌ :
    {A B : Type 0} → Result ConfigError A → (A → Result ConfigError B) → Result ConfigError B
ok a >>= f = f a
err e >>= f = err e

-- Division of an int64 by four, towards zero.
abbrev pub quarter : ℤ → ℤ
quarter (pos n) = pos (n / 4)
quarter (negsuc n) = sub_ℕ 0 (suc n / 4)

-- (maxBodyBytes - reserve) * 3 / 4 on int64.
unfoldable pub ceiling : ℤ → ℤ
ceiling max_body =
    quarter (to_int64 (scale (to_int64 (sub_ℕ (pos_part max_body) (neg_part max_body + 1024))) 3))

abbrev pub check_max_file : ℤ → ℤ → Result ConfigError (Unit {0})
check_max_file max_body max_file =
    if not (ltb_ℤ (pos 0) max_file) || ltb_ℤ (ceiling max_body) max_file
    then err bad_max_file
    else ok tt

abbrev pub check_max_total : ℤ → Result ConfigError (Unit {0})
check_max_total max_total = if ltb_ℤ max_total (pos 0) then err bad_max_total else ok tt

abbrev pub check_mode : Option ℕ → Result ConfigError (Unit {0})
check_mode none = err bad_mode
check_mode (some mode) = ok tt

abbrev pub check_bind : Bool → Result ConfigError (Unit {0})
check_bind true = ok tt
check_bind false = err bad_bind_addr

abbrev pub exec_config : Viper → ExecConfig
exec_config v = record {
  allowlist = v.get_string_slice "exec.allowlist";
  default_timeout_ms = v.get_int "exec.default_timeout_ms";
  max_timeout_ms = v.get_int "exec.max_timeout_ms";
  default_cwd = v.get_string "exec.default_cwd";
  env_whitelist = v.get_string_slice "exec.env_whitelist";
  max_args = v.get_int "exec.max_args";
  max_arg_len = v.get_int "exec.max_arg_len";
  max_output_bytes = v.get_int "exec.max_output_bytes";
  deny_root = v.get_bool "exec.deny_root";
}

abbrev pub upload_config : Viper → UploadConfig
upload_config v = record {
  upload_root = v.get_string "upload.root";
  max_file_bytes = v.get_int64 "upload.max_file_bytes";
  max_total_bytes = v.get_int64 "upload.max_total_bytes";
  default_mode = v.get_string "upload.default_mode";
  overwrite_default = v.get_bool "upload.overwrite_default";
  deny_root = v.get_bool "upload.deny_root";
}

unfoldable pub build_config : Parsers → Viper → Result ConfigError Config
build_config p v = do
  _ ← check_bind (p.parses_ip (v.get_string "bind_addr"))
  read_timeout ← parse_duration p v "read_timeout"
  read_header_timeout ← parse_duration p v "read_header_timeout"
  write_timeout ← parse_duration p v "write_timeout"
  idle_timeout ← parse_duration p v "idle_timeout"
  _ ← check_max_file (v.get_int64 "max_body_bytes") (v.get_int64 "upload.max_file_bytes")
  _ ← check_max_total (v.get_int64 "upload.max_total_bytes")
  _ ← check_mode (parse_mode_str (v.get_string "upload.default_mode"))
  ok (record {
    port = v.get_int "port";
    bind_addr = v.get_string "bind_addr";
    rate_limit = v.get_float64 "rate_limit";
    rate_burst = v.get_int "rate_burst";
    origin_allow = v.get_string_slice "origin_allow";
    host_allow = v.get_string_slice "host_allow";
    read_timeout = read_timeout;
    read_header_timeout = read_header_timeout;
    write_timeout = write_timeout;
    idle_timeout = idle_timeout;
    max_header_bytes = v.get_int "max_header_bytes";
    max_body_bytes = v.get_int64 "max_body_bytes";
    exec = exec_config v;
    upload = upload_config v;
  })

-- How v.ReadInConfig ends.
pub data ReadEnd : Type 0 where
  read no_file unreadable : ReadEnd

unfoldable pub load : Parsers → ReadEnd → Viper → Result ConfigError Config
unfolding build_config
load p unreadable v = err bad_yaml
load p no_file v = build_config p v
load p read v = build_config p v
