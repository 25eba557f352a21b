-- ===== src/FileUpload/Root/Laws.antt =====
-- Laws of the tree: one entry changed, the bytes in total, and a temporary entry made and removed.
use raxd.Prelude.{
  ℕ, ◌+◌, ◌≡◌, ◌≤◌, refl, true, Option, none, some, [], ◌∷◌, arith, bytes_eq_sound, bytes_eq_refl,
  if◌then◌else◌,
}
use raxd.FileUpload.Root.{FilePath, Node, Tree, path_eq, find, put, delete, size, total}

pub path_eq_sound : (p q : FilePath) → path_eq p q ≡ true → p ≡ q
unfolding path_eq
path_eq_sound [] [] h = refl
path_eq_sound [] (y ∷ ys) h = cc
path_eq_sound (x ∷ xs) [] h = cc
path_eq_sound (x ∷ xs) (y ∷ ys) h = ground (arith, bytes_eq_sound x y, path_eq_sound xs ys)

pub path_eq_refl : (p : FilePath) → path_eq p p ≡ true
unfolding path_eq
path_eq_refl [] = refl
path_eq_refl (x ∷ xs) = ground (arith, bytes_eq_refl x, path_eq_refl xs)

abbrev pub size_of : Option Node → ℕ
size_of none = 0
size_of (some n) = size n

module _ (p : FilePath) where
  pub find-put :
      (q : FilePath) (n : Node) (t : Tree)
      → find q (put p n t) ≡ (if path_eq q p then some n else find q t)
  unfolding find put
  find-put q n [] = refl
  find-put q n ((r, m) ∷ t) = ground (
    arith,
    find-put q n t,
    path_eq_sound p r,
    path_eq_sound q r,
    path_eq_sound q p,
    path_eq_refl r,
    path_eq_refl p,
  )

  pub total-put : (n : Node) (t : Tree) → total (put p n t) + size_of (find p t) ≡ total t + size n
  unfolding find put total
  total-put n [] = omega arith
  total-put n ((r, m) ∷ t) = ground (arith, total-put n t)

  pub total-delete : (t : Tree) → total (delete p t) + size_of (find p t) ≡ total t
  unfolding find delete total
  total-delete [] = omega arith
  total-delete ((r, m) ∷ t) = ground (arith, total-delete t)

  pub size_of-le_total : (t : Tree) → size_of (find p t) ≤ total t
  unfolding find total
  size_of-le_total [] = omega arith
  size_of-le_total ((r, m) ∷ t) = ground (arith, size_of-le_total t)

  -- A temporary entry that is removed leaves no trace.
  pub delete-put : (n : Node) (t : Tree) → find p t ≡ none → delete p (put p n t) ≡ t
  unfolding find put delete
  delete-put n [] h = ground (arith, path_eq_refl p)
  delete-put n ((r, m) ∷ t) h = ground (arith, delete-put n t)

  pub put-put : (n m : Node) (t : Tree) → put p m (put p n t) ≡ put p m t
  unfolding put
  put-put n m [] = ground (arith, path_eq_refl p)
  put-put n m ((r, k) ∷ t) = ground (arith, put-put n m t)
