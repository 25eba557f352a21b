-- ===== src/FileUpload/Confinement.antt =====
-- What Write refuses, against a walk that counts how deep below the root each component leads.
use raxd.Prelude.{
  ℕ, zero, suc, Bool, true, false, ◌&&◌, not, List, [], ◌∷◌, Bytes, bytes_eq, ◌==◌, if◌then◌else◌,
}
use raxd.FileUpload.Path.{split_slash, dot_dot, is_skipped}

abbrev up : ℕ → (ℕ → Bool) → Bool
up zero f = false
up (suc depth) f = f depth

-- No prefix of the components climbs above the directory at this depth.
unfoldable pub never_leaves : ℕ → List Bytes → Bool
never_leaves depth [] = true
never_leaves depth (part ∷ parts) =
    let skip = never_leaves depth parts in
    let back = up depth (λ d. never_leaves d parts) in
    let down = never_leaves (suc depth) parts in
    if is_skipped part then skip else if bytes_eq part dot_dot then back else down

-- A path as Write may take it: it is not empty, does not begin with a slash, and no prefix of its
-- components climbs above the root.
abbrev pub stays_inside : Bytes → Bool
stays_inside [] = false
stays_inside (c ∷ cs) = not (c == 47) && never_leaves 0 (split_slash (c ∷ cs))
