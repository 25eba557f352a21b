-- ===== src/Service/Paths/Safety.antt =====
-- What validatePurgePath lets through.
use raxd.Prelude.{
  ◌≡◌, ◌≢◌, refl, ap, ◌⊎◌, inl, inr, true, false, some, List, [], ◌∷◌, ◌++◌, Bytes, bytes_eq,
  bytes_eq_sound, bytes_eq_refl, arith, Bool-cases,
}
use raxd.Prelude.Exec.{ok}
use raxd.Service.Paths.{
  is_abs, clean, slash, has_prefix, is_equal_or_ancestor, one_of, blocked_system_roots, leads_to,
  Links, is_inside, validate_purge_path,
}

has_prefix_sound : (p s : Bytes) → has_prefix p s ≡ true → (rest : Bytes) × (s ≡ p ++ rest)
unfolding has_prefix
has_prefix_sound [] s h = (s, refl)
has_prefix_sound (x ∷ p) [] h = cc
has_prefix_sound (x ∷ p) (c ∷ s) h =
    let (rest, e) = has_prefix_sound p s (ground arith) in (rest, ground arith)

has_prefix-append : (p rest : Bytes) → has_prefix p (p ++ rest) ≡ true
unfolding has_prefix
has_prefix-append [] rest = refl
has_prefix-append (x ∷ p) rest = ground (arith, has_prefix-append p rest)

-- The path is one of the directories or below one.
abbrev pub Below : Bytes → List Bytes → Type 0
Below path [] = ⊥
Below path (root ∷ roots) = ((rest : Bytes) × (slash path ≡ slash root ++ rest)) ⊎ Below path roots

append_nil : (s : Bytes) → s ++ [] ≡ s
append_nil [] = refl
append_nil (c ∷ s) = ap (λ (t : Bytes). c ∷ t) (append_nil s)

is_inside-Below :
    (path : Bytes) (roots : List Bytes) → is_inside path roots ≡ true → Below path roots
unfolding is_inside
is_inside-Below path [] h = cc
is_inside-Below path (root ∷ roots) h = elim (Bool-cases (has_prefix (slash root) (slash path))) [
  | inl e ↦ inl (has_prefix_sound (slash root) (slash path) e)
  | inr n ↦ elim (Bool-cases (bytes_eq path root)) [
    | inl e ↦ inl ([], rw (bytes_eq_sound path root e, append_nil (slash root)) refl)
    | inr m ↦ inr (is_inside-Below path roots (ground arith))
  ]
]

not_ancestor :
    (path home : Bytes)
    → is_equal_or_ancestor path home ≡ false
    → (rest : Bytes) → home ≢ slash path ++ rest
unfolding is_equal_or_ancestor
not_ancestor path home h rest = λ e.
    ground
      (arith, has_prefix-append (slash path) rest, ap (λ (t : Bytes). has_prefix (slash path) t) e)

not_home : (path home : Bytes) → is_equal_or_ancestor path home ≡ false → home ≢ path
unfolding is_equal_or_ancestor
not_home path home h =
    λ e. ground (arith, bytes_eq_refl path, ap (λ (t : Bytes). bytes_eq path t) e)

-- A path that is let through and leads to another, with a home directory known, is clean and
-- absolute, none of the blocked system directories, neither the home directory nor above it, and
-- what it leads to is an allowed root or below one.
pub validate_purge_path-ok :
    (links : Links) (path resolved home : Bytes) (roots : List Bytes)
    → links.home ≡ some home
    → links.eval_symlinks path ≡ leads_to resolved
    → validate_purge_path links path roots ≡ ok tt
    → (clean path ≡ path)
      × (is_abs path ≡ true)
      × (path ≢ 47 ∷ [])
      × (one_of path blocked_system_roots ≡ false)
      × (home ≢ path)
      × ((rest : Bytes) → home ≢ slash path ++ rest)
      × Below resolved roots
unfolding validate_purge_path
validate_purge_path-ok links [] resolved home roots hh hl h = cc
validate_purge_path-ok links (c ∷ cs) resolved home roots hh hl h =
    let away : is_equal_or_ancestor (c ∷ cs) home ≡ false = ground arith in
    (
      ground (arith, bytes_eq_sound (clean (c ∷ cs)) (c ∷ cs)),
      ground arith,
      λ e. ground (arith, bytes_eq_refl (47 ∷ []), ap (λ (t : Bytes). bytes_eq t (47 ∷ [])) e),
      ground arith,
      not_home (c ∷ cs) home away,
      not_ancestor (c ∷ cs) home away,
      is_inside-Below resolved roots (ground arith),
    )
