-- ===== src/FileUpload/Root/Following.antt =====
-- Where a path leads, by its components alone.
use raxd.Prelude.{◌≡◌, some, List, [], ◌∷◌, Bytes, bytes_eq, if◌then◌else◌, arith}
use raxd.FileUpload.Path.{split_slash, is_skipped, dot_dot}
use raxd.FileUpload.Root.{FilePath, Tree, walk, resolve}

abbrev out_of : FilePath → FilePath
out_of [] = []
out_of (n ∷ p) = p

-- Each component is skipped, leads back, or leads down.
unfoldable pub led_by : FilePath → List Bytes → FilePath
led_by cur [] = cur
led_by cur (part ∷ parts) =
    led_by
      (if is_skipped part then cur else if bytes_eq part dot_dot then out_of cur else part ∷ cur)
      parts

-- The node that a path names in the root.
abbrev pub named_by : Bytes → FilePath
named_by path = led_by [] (split_slash path)

walk-led_by :
    (t : Tree) (cur : FilePath) (parts : List Bytes) (q : FilePath)
    → walk t cur parts ≡ some q
    → q ≡ led_by cur parts
unfolding walk led_by
walk-led_by t cur [] q h = ground (arith, h)
walk-led_by t [] (part ∷ parts) q h =
    ground (arith, walk-led_by t [] parts q, walk-led_by t (part ∷ []) parts q)
walk-led_by t (n ∷ p) (part ∷ parts) q h = ground (
  arith,
  walk-led_by t (n ∷ p) parts q,
  walk-led_by t p parts q,
  walk-led_by t (part ∷ n ∷ p) parts q,
)

-- A path that can be followed leads to the node that it names.
pub resolve-named_by :
    (t : Tree) (path : Bytes) (q : FilePath) → resolve t path ≡ some q → q ≡ named_by path
unfolding resolve
resolve-named_by t path q h = walk-led_by t [] (split_slash path) q h
