-- ===== src/FileUpload/Path.antt =====
-- The lexical treatment of paths: filepath.IsLocal and filepath.Dir on Unix, as upload.go calls
-- them. A directory is its cleaned components, the innermost first; [] is ".".
use raxd.Prelude.{
  ℕ, suc, Bool, false, ◌&&◌, ◌||◌, not, List, [], ◌∷◌, Bytes, bytes_eq, ◌==◌, if◌then◌else◌,
}

-- strings.Split(path, "/")
abbrev extend_first : ℕ → List Bytes → List Bytes
extend_first c [] = (c ∷ []) ∷ []
extend_first c (p ∷ ps) = (c ∷ p) ∷ ps

unfoldable pub split_slash : Bytes → List Bytes
split_slash [] = [] ∷ []
split_slash (c ∷ cs) =
    let rest = split_slash cs in if c == 47 then [] ∷ rest else extend_first c rest

abbrev pub dot : Bytes
dot = 46 ∷ []

abbrev pub dot_dot : Bytes
dot_dot = 46 ∷ 46 ∷ []

-- Components that filepath.Clean drops.
unfoldable pub is_skipped : Bytes → Bool
is_skipped part = bytes_eq part [] || bytes_eq part dot

-- filepath.Clean of a relative path, as the count of leading ".." and the components after them.
pub record Cleaned : Type 0 where
  pub ups : ℕ
  pub stack : List Bytes

abbrev pub climb : ℕ → List Bytes → Cleaned
climb ups [] = record { ups = suc ups; stack = [] }
climb ups (n ∷ stack) = record { ups = ups; stack = stack }

abbrev pub clean_part : Cleaned → Bytes → Cleaned
clean_part c part =
    if is_skipped part
    then c
    else if bytes_eq part dot_dot
    then climb c.ups c.stack
    else record c { stack = part ∷ c.stack }

unfoldable pub clean_parts : Cleaned → List Bytes → Cleaned
unfolding is_skipped
clean_parts c [] = c
clean_parts c (part ∷ parts) = clean_parts (clean_part c part) parts

abbrev pub at_root : Cleaned
at_root = record { ups = 0; stack = [] }

abbrev is_abs : Bytes → Bool
is_abs [] = false
is_abs (c ∷ cs) = c == 47

-- filepath.IsLocal: relative, not empty, and no ".." leads after cleaning.
unfoldable pub is_local : Bytes → Bool
unfolding split_slash clean_parts
is_local [] = false
is_local (c ∷ cs) = not (c == 47) && (clean_parts at_root (split_slash (c ∷ cs))).ups == 0

abbrev pub init_parts : List Bytes → List Bytes
init_parts [] = []
init_parts (p ∷ []) = []
init_parts (p ∷ q ∷ ps) = p ∷ init_parts (q ∷ ps)

-- filepath.Dir of a relative path with no ".." left in front.
unfoldable pub dir_of : Bytes → List Bytes
unfolding split_slash clean_parts
dir_of path = (clean_parts at_root (init_parts (split_slash path))).stack
