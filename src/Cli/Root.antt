-- ===== src/Cli/Root.antt =====
-- internal/cli/root.go, status.go, version.go and stub.go, and cmd/raxd/main.go: what runs before
-- every command, the commands that only print, and the exit code.
use raxd.Prelude.{ℕ, Bool, List, [], ◌∷◌, ◌++◌, Bytes, String, if◌then◌else◌}
use raxd.Prelude.Exec.{Exec, Result, ok, err, raise, ◌>>◌}
use raxd.Server.Audit.{Message, text, bytes}
use raxd.Config.Paths.{Environment, PathsError, PathSet, paths, ensure_dirs}
use raxd.Cli.{Line, stdout, stderr}
use raxd.Cli.Banner.{Build, Banner, render, version_info}

pub data RootError : Type 0 where
  of_paths : PathsError → RootError
  not_implemented : RootError

-- The directories that exist, and what was printed, the oldest line first.
pub record Terminal : Type 0 where
  pub dirs : List Bytes
  pub console : List Line

abbrev pub Command : Type 0
Command = Exec RootError Terminal (Unit {0})

abbrev pub print : List Line → Command
print lines t = (ok tt, record t { console = t.console ++ lines })

abbrev pub banner_lines : Banner → List Line
banner_lines b =
    stderr (bytes b.top ∷ [])
    ∷ stderr (bytes b.name ∷ [])
    ∷ stderr (bytes b.build ∷ [])
    ∷ stderr (bytes b.author ∷ [])
    ∷ stderr (bytes b.bottom ∷ [])
    ∷ []

-- Errors of Paths and of EnsureDirs are ignored.
abbrev pub ensured : (Bytes → Bool) → Result PathsError PathSet → List Bytes → List Bytes
ensured fails (ok p) dirs = (ensure_dirs fails p dirs).1
ensured fails (err e) dirs = dirs

-- PersistentPreRun
unfoldable pub pre_run : Build → (Bytes → Bool) → Environment → Terminal → Terminal
unfolding render ensure_dirs paths
pre_run b mkdir_fails env t = record {
  dirs = ensured mkdir_fails (paths env) t.dirs;
  console = t.console ++ banner_lines (render b);
}

abbrev pub row : String → Message → Line
row name m = stdout (text name ∷ m)

abbrev pub status_lines : (Bytes → Bool) → PathSet → List Line
status_lines is_missing p =
    row "  state    " (text "not running" ∷ [])
    ∷ row "  config   " (
        bytes p.config_file
        ∷ text (if is_missing p.config_file then "  (not found, defaults applied)" else "")
        ∷ [])
    ∷ row "  keys     " (bytes p.keys_db ∷ [])
    ∷ row "  tls      " (bytes p.tls_dir ∷ [])
    ∷ []

abbrev pub status_of : (Bytes → Bool) → (PathsError → Message) → Result PathsError PathSet → Command
status_of is_missing paths_text (ok p) = print (status_lines is_missing p)
status_of is_missing paths_text (err e) = do
  print (
      stderr (text "error: " ∷ paths_text e)
      ∷ stderr (text "  hint: set the HOME environment variable and try again" ∷ [])
      ∷ [])
  raise (of_paths e)

-- `is_missing` says where os.Stat reports that nothing is there.
unfoldable pub status : Environment → (Bytes → Bool) → (PathsError → Message) → Command
unfolding paths
status env is_missing paths_text = status_of is_missing paths_text (paths env)

unfoldable pub version : Build → Command
version b = print (stdout (bytes (version_info b) ∷ []) ∷ [])

-- newStub; its only use is the command "config port".
unfoldable pub stub : String → Command
stub name = do
  print (stderr (text "error: " ∷ text name ∷ text ": not implemented yet" ∷ []) ∷ [])
  raise not_implemented

abbrev pub exit_code : {E : Type 0} → Result E (Unit {0}) → ℕ
exit_code (ok u) = 0
exit_code (err e) = 1

-- main with a command of the tree.
unfoldable pub main : Build → (Bytes → Bool) → Environment → Command → Terminal → ℕ × Terminal
unfolding pre_run
main b mkdir_fails env c t = let (r, u) = c (pre_run b mkdir_fails env t) in (exit_code r, u)
