-- ===== src/FileUpload/Root/Growth.antt =====
-- What making directories and a new file keeps: every node that was there, every path that could
-- be followed, and the bytes in total.
use raxd.Prelude.{
  ◌≡◌, refl, ◌∙◌, true, none, some, List, [], ◌∷◌, Bytes, arith, inl, inr, Option-cases,
}
use raxd.Prelude.Exec.{ok, err, Result, continue}
use raxd.FileUpload.{UploadError}
use raxd.FileUpload.Path.{split_slash}
use raxd.FileUpload.Root.{
  FilePath, Node, dir, other, file, Tree, Action, find, put, total, node_at, is_dir_node, walk,
  resolve, make_dir, mkdir_all,
}
use raxd.FileUpload.Root.Laws.{path_eq_sound, find-put, total-put}

-- Every node of the one tree is in the other.
abbrev pub Keeps : Tree → Tree → Type 0
Keeps t u = (p : FilePath) (n : Node) → node_at t p ≡ some n → node_at u p ≡ some n

pub record Grows (t u : Tree) : Type 0 where
  pub keeps : Keeps t u
  pub same_total : total u ≡ total t

pub Grows-refl : (t : Tree) → Grows t t
Grows-refl t = record { keeps = λ p n h. h; same_total = refl }

pub Grows-trans : {t u v : Tree} → Grows t u → Grows u v → Grows t v
Grows-trans g h = record {
  keeps = λ p n e. h.keeps p n (g.keeps p n e);
  same_total = h.same_total ∙ g.same_total;
}

pub node_at-put :
    (x : Bytes) (d : FilePath) (m : Node) (t : Tree)
    → find (x ∷ d) t ≡ none
    → Keeps t (put (x ∷ d) m t)
unfolding node_at
node_at-put x d m t h [] n e = e
node_at-put x d m t h (y ∷ p) n e =
    ground (arith, find-put (x ∷ d) (y ∷ p) m t, path_eq_sound (y ∷ p) (x ∷ d))

Grows-put-dir :
    (x : Bytes) (d : FilePath) (t : Tree) → find (x ∷ d) t ≡ none → Grows t (put (x ∷ d) dir t)
Grows-put-dir x d t h = record {
  keeps = node_at-put x d dir t h;
  same_total = ground (arith, total-put (x ∷ d) dir t);
}

Grows-make_dir :
    (x : Bytes) (d : FilePath) (t u : Tree)
    → Grows t u
    → Grows t (make_dir (x ∷ d) (node_at u (x ∷ d)) u).1
unfolding node_at
Grows-make_dir x d t u g = elim (Option-cases (find (x ∷ d) u)) [
  | inl e ↦ rw e (Grows-trans g (Grows-put-dir x d u e))
  | inr (dir, e) ↦ rw e g
  | inr (other, e) ↦ rw e g
  | inr (file c m, e) ↦ rw e g
]

Grows-continue :
    (r : Result UploadError (Unit {0})) (m : Action (Unit {0})) (t u : Tree)
    → Grows t u
    → Grows t (m u).1
    → Grows t (continue r (λ _. m) u).1
Grows-continue (ok a) m t u g h = h
Grows-continue (err e) m t u g h = g

-- MkdirAll, also where it fails on the way.
pub mkdir_all-Grows : (d : FilePath) (t : Tree) → Grows t (mkdir_all d t).1
unfolding mkdir_all
mkdir_all-Grows [] t = Grows-refl t
mkdir_all-Grows (x ∷ d) t =
    let g = mkdir_all-Grows d t in
    Grows-continue (mkdir_all d t).0 (λ u. make_dir (x ∷ d) (node_at u (x ∷ d)) u) t
      (mkdir_all d t).1 g (Grows-make_dir x d t (mkdir_all d t).1 g)

is_dir-Keeps :
    (t u : Tree) (p : FilePath)
    → Keeps t u
    → is_dir_node (node_at t p) ≡ true
    → is_dir_node (node_at u p) ≡ true
is_dir-Keeps t u p g h = ground (arith, g p dir)

-- A path that could be followed leads to the same place.
pub walk-Keeps :
    (t u : Tree) (p : FilePath) (parts : List Bytes) {q : FilePath}
    → Keeps t u
    → walk t p parts ≡ some q
    → walk u p parts ≡ some q
unfolding walk
walk-Keeps t u p [] g h = h
walk-Keeps t u [] (part ∷ parts) {q} g h =
    ground (arith, walk-Keeps t u [] parts {q = q} g, walk-Keeps t u (part ∷ []) parts {q = q} g)
walk-Keeps t u (n ∷ p) (part ∷ parts) {q} g h = ground (
  arith,
  is_dir-Keeps t u (n ∷ p) g,
  walk-Keeps t u (n ∷ p) parts {q = q} g,
  walk-Keeps t u p parts {q = q} g,
  walk-Keeps t u (part ∷ n ∷ p) parts {q = q} g,
)

pub resolve-Keeps :
    (t u : Tree) (path : Bytes) {q : FilePath}
    → Keeps t u
    → resolve t path ≡ some q
    → resolve u path ≡ some q
unfolding resolve
resolve-Keeps t u path g h = walk-Keeps t u [] (split_slash path) g h
