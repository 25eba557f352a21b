-- ===== src/Service/Paths.antt =====
-- internal/service/purge.go: validatePurgePath, on path/filepath as it uses it.
pub mod Safety
use raxd.Prelude.{
  ℕ, zero, suc, Bool, true, false, not, ◌||◌, Option, none, some, List, [], ◌∷◌, ◌++◌, Bytes,
  bytes_eq, codes, if◌then◌else◌, ◌==◌, String,
}
use raxd.Prelude.Exec.{Result, ok, err}
use raxd.FileUpload.Path.{split_slash, dot, dot_dot, Cleaned, clean_parts, at_root}
use raxd.Server.Audit.{text}
use raxd.Service.{ServiceError, wrap_err, suspicious_path}

abbrev pub is_abs : Bytes → Bool
is_abs [] = false
is_abs (c ∷ cs) = c == 47

abbrev pub join_rest : List Bytes → Bytes
join_rest [] = []
join_rest (p ∷ ps) = 47 ∷ p ++ join_rest ps

abbrev pub join_slash : List Bytes → Bytes
join_slash [] = []
join_slash (p ∷ ps) = p ++ join_rest ps

abbrev pub onto : List Bytes → List Bytes → List Bytes
onto [] ps = ps
onto (n ∷ stack) ps = onto stack (n ∷ ps)

abbrev pub climbs : ℕ → List Bytes → List Bytes
climbs zero ps = ps
climbs (suc n) ps = dot_dot ∷ climbs n ps

abbrev pub or_dot : Bytes → Bytes
or_dot [] = dot
or_dot (c ∷ cs) = c ∷ cs

-- filepath.Clean: a rooted path has nothing above its root.
unfoldable pub clean : Bytes → Bytes
unfolding split_slash clean_parts
clean path =
    let c = clean_parts at_root (split_slash path) in
    if is_abs path
    then 47 ∷ join_slash (onto c.stack [])
    else or_dot (join_slash (climbs c.ups (onto c.stack [])))

unfoldable pub has_prefix : Bytes → Bytes → Bool
has_prefix [] s = true
has_prefix (p ∷ ps) [] = false
has_prefix (p ∷ ps) (c ∷ cs) = let rest = has_prefix ps cs in if p == c then rest else false

abbrev pub slash : Bytes → Bytes
slash path = path ++ 47 ∷ []

unfoldable pub is_equal_or_ancestor : Bytes → Bytes → Bool
is_equal_or_ancestor candidate base = bytes_eq candidate base || has_prefix (slash candidate) base

unfoldable pub blocked_system_roots : List Bytes
blocked_system_roots =
    codes "/etc"
    ∷ codes "/var"
    ∷ codes "/usr"
    ∷ codes "/usr/local"
    ∷ codes "/tmp"
    ∷ codes "/bin"
    ∷ codes "/sbin"
    ∷ codes "/lib"
    ∷ codes "/lib64"
    ∷ codes "/boot"
    ∷ codes "/dev"
    ∷ codes "/proc"
    ∷ codes "/sys"
    ∷ codes "/run"
    ∷ []

unfoldable pub one_of : Bytes → List Bytes → Bool
one_of s [] = false
one_of s (v ∷ vs) = bytes_eq s v || one_of s vs

-- filepath.EvalSymlinks: the path it leads to, nothing there, or another error.
pub data Resolved : Type 0 where
  leads_to : Bytes → Resolved
  missing unreadable : Resolved

-- `home` is `none` where os.UserHomeDir fails.
pub record Links : Type 0 where
  pub home : Option Bytes
  pub eval_symlinks : Bytes → Resolved

abbrev pub rejected : String → Result ServiceError (Unit {0})
rejected detail = err (wrap_err suspicious_path (text detail ∷ []))

abbrev pub is_home : Option Bytes → Bytes → Bool
is_home none path = false
is_home (some home) path = is_equal_or_ancestor path home

-- The loop over allowedRoots.
unfoldable pub is_inside : Bytes → List Bytes → Bool
is_inside resolved [] = false
is_inside resolved (root ∷ roots) =
    (has_prefix (slash root) (slash resolved) || bytes_eq resolved root) || is_inside resolved roots

abbrev pub check_resolved : Resolved → List Bytes → Result ServiceError (Unit {0})
check_resolved (leads_to resolved) roots =
    if is_inside resolved roots then ok tt else rejected "resolved path is outside expected layout"
check_resolved missing roots = ok tt
check_resolved unreadable roots = rejected "cannot resolve symlinks"

unfoldable pub validate_purge_path : Links → Bytes → List Bytes → Result ServiceError (Unit {0})
validate_purge_path links [] roots = rejected "empty path"
validate_purge_path links (c ∷ cs) roots =
    let path = c ∷ cs in
    if not (bytes_eq (clean path) path)
    then rejected "path is not clean"
    else if not (is_abs path)
    then rejected "path is not absolute"
    else if bytes_eq path (47 ∷ [])
    then rejected "root path rejected"
    else if is_home links.home path
    then rejected "path is HOME or HOME ancestor"
    else if one_of path blocked_system_roots
    then rejected "path is a blocked system root"
    else check_resolved (links.eval_symlinks path) roots
