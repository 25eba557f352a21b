-- ===== src/Config/Bounds.antt =====
-- What a configuration that is accepted promises.
use raxd.Prelude.{Option, none, some, ℕ, ◌≡◌, refl, sym, ◌∙◌}
use raxd.Prelude.Exec.{Result, ok, err}
use raxd.FileUpload.Mode.{parse_mode_str, parse_mode}
use raxd.FileUpload.Policy.{parse_mode_str-parse_mode}
use raxd.Config.{
  Parsers, Viper, Config, parse_duration, build_config, ConfigError, ◌>>=◌, check_max_file,
  check_max_total, check_mode, check_bind,
}

>>=-ok :
    {A B : Type 0} (m : Result ConfigError A) (f : A → Result ConfigError B) {b : B}
    → (m >>= f) ≡ ok b
    → (a : A) × (m ≡ ok a) × (f a ≡ ok b)
>>=-ok (ok a) f h = (a, refl, h)
>>=-ok (err e) f h = cc

ok-injective : {E A : Type 0} {a c : A} → ◌≡◌ {A = Result E A} (ok a) (ok c) → a ≡ c
ok-injective e = cc

-- What an accepted configuration has passed.
abbrev Checked : Config → Type 0
Checked cfg =
    (check_max_file cfg.max_body_bytes cfg.upload.max_file_bytes ≡ ok tt)
    × (check_mode (parse_mode_str cfg.upload.default_mode) ≡ ok tt)

cast_to : {a c : Config} → a ≡ c → Checked a → Checked c
cast_to e h = rw (sym e) h

build-Checked : (p : Parsers) (v : Viper) {cfg : Config} → build_config p v ≡ ok cfg → Checked cfg
unfolding build_config
build-Checked p v {cfg} h =
    let (_, _, h1) = >>=-ok (check_bind (p.parses_ip (v.get_string "bind_addr"))) _ h in
    let (_, _, h2) = >>=-ok (parse_duration p v "read_timeout") _ h1 in
    let (_, _, h3) = >>=-ok (parse_duration p v "read_header_timeout") _ h2 in
    let (_, _, h4) = >>=-ok (parse_duration p v "write_timeout") _ h3 in
    let (_, _, h5) = >>=-ok (parse_duration p v "idle_timeout") _ h4 in
    let (_, file, h6) =
      >>=-ok (check_max_file (v.get_int64 "max_body_bytes") (v.get_int64 "upload.max_file_bytes")) _
        h5 in
    let (_, _, h7) = >>=-ok (check_max_total (v.get_int64 "upload.max_total_bytes")) _ h6 in
    let (_, mode, h8) =
      >>=-ok (check_mode (parse_mode_str (v.get_string "upload.default_mode"))) _ h7 in
    cast_to (ok-injective h8) (file, mode)

check_mode-ok : (o : Option ℕ) → check_mode o ≡ ok tt → (m : ℕ) × (o ≡ some m)
check_mode-ok none h = cc
check_mode-ok (some m) h = (m, refl)

-- The default mode of a configuration that is accepted is one that ParseMode of fileupload takes.
pub build_config-parse_mode :
    (p : Parsers) (v : Viper) (cfg : Config)
    → build_config p v ≡ ok cfg
    → (m : ℕ) × (parse_mode cfg.upload.default_mode ≡ some m)
build_config-parse_mode p v cfg h =
    let (m, e) = check_mode-ok (parse_mode_str cfg.upload.default_mode) (build-Checked p v h).1 in
    (m, sym (parse_mode_str-parse_mode cfg.upload.default_mode) ∙ e)
