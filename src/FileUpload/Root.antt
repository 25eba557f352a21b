-- ===== src/FileUpload/Root.antt =====
-- The upload root as upload.go and quota.go use it through os.Root: a tree of directories, regular
-- files and other nodes, which are pipes, sockets and devices. A tree has no symbolic links, which
-- os.Root would follow within the root. A path in the tree is its components, the innermost first;
-- the root itself is [] and is no entry.
pub mod Laws
pub mod Growth
pub mod Following
use raxd.Prelude.{
  ℕ, ◌+◌, Bool, true, false, ◌&&◌, Option, none, some, List, [], ◌∷◌, Bytes, bytes_eq,
  if◌then◌else◌, length,
}
use raxd.Prelude.Exec.{Exec, ok, err, pure, raise, ◌>>=◌, ◌>>◌}
use raxd.FileUpload.{UploadError, io}
use raxd.FileUpload.Path.{split_slash, is_skipped, dot_dot}

abbrev pub FilePath : Type 0
FilePath = List Bytes

pub data Node : Type 0 where
  dir other : Node
  file : Bytes → ℕ → Node

abbrev pub Tree : Type 0
Tree = List (FilePath × Node)

abbrev pub Action : Type 0 → Type 0
Action A = Exec UploadError Tree A

-- Which system calls of one upload fail; `short_write` counts the bytes that a failing write wrote.
pub record Faults : Type 0 where
  pub open_fails : Bool
  pub stat_fails : Bool
  pub walk_fails : Bool
  pub mkdir_fails : Bool
  pub rand_fails : Bool
  pub create_fails : Bool
  pub chmod_fails : Bool
  pub write_fails : Bool
  pub short_write : ℕ
  pub sync_fails : Bool
  pub close_fails : Bool
  pub rename_fails : Bool
  pub remove_fails : Bool

unfoldable pub path_eq : FilePath → FilePath → Bool
path_eq [] [] = true
path_eq (x ∷ xs) (y ∷ ys) = bytes_eq x y && path_eq xs ys
path_eq _ _ = false

unfoldable pub find : FilePath → Tree → Option Node
find p [] = none
find p ((q, n) ∷ t) = if path_eq p q then some n else find p t

unfoldable pub put : FilePath → Node → Tree → Tree
put p n [] = (p, n) ∷ []
put p n ((q, m) ∷ t) = if path_eq p q then (q, n) ∷ t else (q, m) ∷ put p n t

unfoldable pub delete : FilePath → Tree → Tree
delete p [] = []
delete p ((q, n) ∷ t) = if path_eq p q then t else (q, n) ∷ delete p t

abbrev pub size : Node → ℕ
size dir = 0
size other = 0
size (file contents mode) = length contents

-- currentBytes: the sizes of the regular files.
unfoldable pub total : Tree → ℕ
total [] = 0
total ((p, n) ∷ t) = size n + total t

unfoldable pub node_at : Tree → FilePath → Option Node
node_at t [] = some dir
node_at t (n ∷ p) = find (n ∷ p) t

abbrev pub is_dir_node : Option Node → Bool
is_dir_node none = false
is_dir_node (some dir) = true
is_dir_node (some other) = false
is_dir_node (some (file contents mode)) = false

abbrev parent : FilePath → Option FilePath
parent [] = none
parent (n ∷ p) = some p

-- How os.Root follows the components: what lies before a component must be a directory, and
-- nothing leads out of the root.
unfoldable pub walk : Tree → FilePath → List Bytes → Option FilePath
walk t cur [] = some cur
walk t [] (part ∷ parts) =
    let skip = walk t [] parts in
    let down = walk t (part ∷ []) parts in
    if is_skipped part then skip else if bytes_eq part dot_dot then none else down
walk t (n ∷ p) (part ∷ parts) =
    let skip = walk t (n ∷ p) parts in
    let back = walk t p parts in
    let down = walk t (part ∷ n ∷ p) parts in
    if is_skipped part
    then skip
    else if is_dir_node (node_at t (n ∷ p))
    then (if bytes_eq part dot_dot then back else down)
    else none

unfoldable pub resolve : Tree → Bytes → Option FilePath
unfolding split_slash walk
resolve t path = walk t [] (split_slash path)

abbrev node_at? : Tree → Option FilePath → Option Node
node_at? t none = none
node_at? t (some p) = node_at t p

-- root.Stat; `none` is any error, as the callers do not tell the errors apart.
unfoldable pub stat : Faults → Bytes → Tree → Option Node
stat f path t = if f.stat_fails then none else node_at? t (resolve t path)

abbrev pub make_dir : FilePath → Option Node → Action (Unit {0})
make_dir p none t = (ok tt, put p dir t)
make_dir p (some dir) t = (ok tt, t)
make_dir p (some other) t = (err (io "create directories"), t)
make_dir p (some (file contents mode)) t = (err (io "create directories"), t)

-- root.MkdirAll: the parents first.
unfoldable pub mkdir_all : FilePath → Action (Unit {0})
mkdir_all [] = pure tt
mkdir_all (n ∷ p) = do mkdir_all p; λ t. make_dir (n ∷ p) (node_at t (n ∷ p)) t

abbrev create_new : FilePath → Bool → Option Node → Action (Unit {0})
create_new p false existing t = (err (io "create temp file"), t)
create_new p true (some n) t = (err (io "create temp file"), t)
create_new p true none t = (ok tt, put p (file [] 384) t)

abbrev under : Tree → FilePath → Bool
under t [] = false
under t (n ∷ p) = is_dir_node (node_at t p)

-- root.OpenFile with O_CREATE|O_EXCL and mode 0600.
unfoldable pub open_new : FilePath → Action (Unit {0})
open_new p t = create_new p (under t p) (find p t) t

-- A write or chmod through the open file.
unfoldable pub set_file : FilePath → Bytes → ℕ → Action (Unit {0})
set_file p contents mode t = (ok tt, put p (file contents mode) t)

-- A failing root.Remove is ignored.
unfoldable pub remove : Faults → FilePath → Action (Unit {0})
remove f p t = (ok tt, if f.remove_fails then t else delete p t)

abbrev move : FilePath → FilePath → Option Node → Tree → Tree
move p q none t = t
move p q (some n) t = put q n (delete p t)

abbrev move_to : FilePath → Option FilePath → Action (Unit {0})
move_to p none t = (err (io "rename"), t)
move_to p (some q) t =
    if is_dir_node (node_at t q) then (err (io "rename"), t) else (ok tt, move p q (find p t) t)

-- root.Rename of a regular file: the target's directory is there, and the target is none.
unfoldable pub rename : FilePath → Bytes → Action (Unit {0})
rename p path t = move_to p (resolve t path) t
