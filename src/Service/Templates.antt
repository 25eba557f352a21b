-- ===== src/Service/Templates.antt =====
-- internal/service/templates.go: the data of the templates and its validation. Texts are lists of
-- code points.
pub mod Unit
pub mod Plist
pub mod Injection
use raxd.Prelude.{
  ℕ, Bool, true, false, not, ◌&&◌, ◌||◌, List, [], ◌∷◌, ◌++◌, Bytes, bytes_eq, codes, String,
  if◌then◌else◌, ◌==◌, ltb, leb, length, Option, none, some,
}
use raxd.Prelude.Exec.{Result, ok, err}
use raxd.Prelude.Int.{ℤ, pos, ltb_ℤ}
use raxd.Service.{Config}
use raxd.Service.Paths.{is_abs, clean}

pub record TemplateData : Type 0 where
  pub exec_path : Bytes
  pub user : Bytes
  pub group : Bytes
  pub label : Bytes
  pub port : ℤ
  pub need_net_bind_cap : Bool
  pub state_dir : Bytes
  pub config_dir : Bytes
  pub log_path : Bytes
  pub config_home : Bytes
  pub state_home : Bytes

abbrev pub is_lower : ℕ → Bool
is_lower c = leb 97 c && leb c 122

abbrev pub is_digit : ℕ → Bool
is_digit c = leb 48 c && leb c 57

unfoldable pub all_bytes : (ℕ → Bool) → Bytes → Bool
all_bytes test [] = true
all_bytes test (c ∷ cs) = test c && all_bytes test cs

abbrev pub is_name_byte : ℕ → Bool
is_name_byte c = is_lower c || is_digit c || c == 95 || c == 45

abbrev pub is_label_byte : ℕ → Bool
is_label_byte c = is_lower c || is_digit c || c == 46 || c == 95 || c == 45

-- ^[a-z_][a-z0-9_-]{0,31}$
unfoldable pub is_posix_name : Bytes → Bool
unfolding all_bytes
is_posix_name [] = false
is_posix_name (c ∷ cs) = (is_lower c || c == 95) && all_bytes is_name_byte cs && leb (length cs) 31

-- ^[a-z][a-z0-9._-]{0,253}$
unfoldable pub is_label : Bytes → Bool
unfolding all_bytes
is_label [] = false
is_label (c ∷ cs) = is_lower c && all_bytes is_label_byte cs && leb (length cs) 253

unfoldable pub has_control_char : Bytes → Bool
has_control_char [] = false
has_control_char (c ∷ cs) = (ltb c 32 || c == 127) || has_control_char cs

-- The checks of one of the five directories.
abbrev pub is_usable_dir : Bytes → Bool
is_usable_dir dir = is_abs dir && not (has_control_char dir)

-- The error is the field that it names; an empty path is not absolute.
unfoldable pub validate_template_data : TemplateData → Result String (Unit {0})
validate_template_data d =
    if not (is_posix_name d.user)
    then err "User"
    else if not (is_posix_name d.group)
    then err "Group"
    else if not (is_label d.label)
    then err "Label"
    else if not (is_abs d.exec_path)
        || has_control_char d.exec_path
        || not (bytes_eq (clean d.exec_path) d.exec_path)
    then err "ExecPath"
    else if ltb_ℤ d.port (pos 1) || ltb_ℤ (pos 65535) d.port
    then err "Port"
    else if not (is_usable_dir d.state_dir)
    then err "StateDir"
    else if not (is_usable_dir d.config_dir)
    then err "ConfigDir"
    else if not (is_usable_dir d.log_path)
    then err "LogPath"
    else if not (is_usable_dir d.config_home)
    then err "ConfigHome"
    else if not (is_usable_dir d.state_home)
    then err "StateHome"
    else ok tt

abbrev pub cons_dir : ℕ → Option Bytes → Option Bytes
cons_dir c none = if c == 47 then some (c ∷ []) else none
cons_dir c (some dir) = some (c ∷ dir)

-- The path up to its last slash, the slash included.
unfoldable pub up_to_slash : Bytes → Option Bytes
up_to_slash [] = none
up_to_slash (c ∷ cs) = cons_dir c (up_to_slash cs)

abbrev pub or_nothing : Option Bytes → Bytes
or_nothing none = []
or_nothing (some s) = s

-- filepath.Dir
unfoldable pub dir : Bytes → Bytes
unfolding up_to_slash clean
dir path = clean (or_nothing (up_to_slash path))

unfoldable pub template_data_from_config : Config → TemplateData
unfolding dir
template_data_from_config cfg = record {
  exec_path = cfg.exec_path;
  user = cfg.user;
  group = cfg.group;
  label = cfg.label;
  port = cfg.port;
  need_net_bind_cap = ltb_ℤ cfg.port (pos 1024);
  state_dir = cfg.state_dir;
  config_dir = cfg.config_dir;
  log_path = cfg.log_path;
  config_home = dir cfg.config_dir;
  state_home = dir cfg.state_dir;
}

-- A line feed after each line.
unfoldable pub unlines : List Bytes → Bytes
unlines [] = []
unlines (l ∷ ls) = l ++ 10 ∷ unlines ls
