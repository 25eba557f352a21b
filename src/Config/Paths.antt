-- ===== src/Config/Paths.antt =====
-- internal/config/paths.go: Paths, on the environment, and EnsureDirs, on the directories that exist.
use raxd.Prelude.{Bool, Option, none, some, List, [], ◌∷◌, ◌++◌, Bytes, codes, if◌then◌else◌}
use raxd.Prelude.Exec.{Exec, Result, ok, err, ◌>>◌}
use raxd.Service.Paths.{clean, one_of}

-- `home` is `none` where os.UserHomeDir fails; an unset variable is empty.
pub record Environment : Type 0 where
  pub home : Option Bytes
  pub xdg_config_home : Bytes
  pub xdg_state_home : Bytes

pub record PathSet : Type 0 where
  pub config_dir : Bytes
  pub config_file : Bytes
  pub state_dir : Bytes
  pub keys_db : Bytes
  pub tls_dir : Bytes

pub data PathsError : Type 0 where
  no_home : PathsError
  not_created : Bytes → PathsError

-- filepath.Join of two elements, of which the second is not empty.
unfoldable pub join : Bytes → Bytes → Bytes
unfolding clean
join [] name = clean name
join (c ∷ cs) name = clean ((c ∷ cs) ++ 47 ∷ name)

abbrev pub or_default : Bytes → Bytes → Bytes
or_default [] default = default
or_default (c ∷ cs) default = c ∷ cs

abbrev pub path_set : Bytes → Bytes → PathSet
path_set config_dir state_dir = record {
  config_dir = config_dir;
  config_file = join config_dir (codes "config.yaml");
  state_dir = state_dir;
  keys_db = join state_dir (codes "keys.db");
  tls_dir = join state_dir (codes "tls");
}

abbrev pub paths_from : Environment → Option Bytes → Result PathsError PathSet
paths_from env none = err no_home
paths_from env (some home) = ok (
    path_set (join (or_default env.xdg_config_home (join home (codes ".config"))) (codes "raxd"))
      (join (or_default env.xdg_state_home (join home (codes ".local/state"))) (codes "raxd")))

unfoldable pub paths : Environment → Result PathsError PathSet
unfolding join
paths env = paths_from env env.home

-- os.MkdirAll with mode 0700; the parents that it makes are left out.
abbrev pub make_dir : (Bytes → Bool) → Bytes → Exec PathsError (List Bytes) (Unit {0})
make_dir fails d dirs =
    if fails d
    then (err (not_created d), dirs)
    else (ok tt, if one_of d dirs then dirs else d ∷ dirs)

unfoldable pub ensure_dirs : (Bytes → Bool) → PathSet → Exec PathsError (List Bytes) (Unit {0})
unfolding one_of
ensure_dirs fails p =
    make_dir fails p.config_dir >> make_dir fails p.state_dir >> make_dir fails p.tls_dir
