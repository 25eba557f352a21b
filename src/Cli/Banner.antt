-- ===== src/Cli/Banner.antt =====
-- internal/version/version.go and internal/banner/banner.go: the build and the banner.
pub mod Widths
use raxd.Prelude.{
  ℕ, ◌+◌, ◌-◌, ◌≡◌, refl, List, [], ◌∷◌, ◌++◌, Bytes, codes, ltb, length, length-append,
  if◌then◌else◌, arith,
}
use raxd.Cli.{repeat, length-repeat}

-- The variables of the package, as code points.
pub record Build : Type 0 where
  pub version : Bytes
  pub commit : Bytes
  pub date : Bytes

abbrev pub unless_empty : Bytes → Bytes → Bytes
unless_empty [] old = old
unless_empty (c ∷ cs) old = c ∷ cs

-- Set
abbrev pub set_build : Bytes → Bytes → Bytes → Build → Build
set_build v commit date b = record {
  version = unless_empty v b.version;
  commit = unless_empty commit b.commit;
  date = unless_empty date b.date;
}

-- Info
abbrev pub version_info : Build → Bytes
version_info b =
    codes "raxd "
    ++ (b.version
        ++ (codes " (commit " ++ (b.commit ++ (codes ", built " ++ (b.date ++ codes ")")))))

-- The bytes of a code point in UTF-8, and the function len on a string.
abbrev pub utf8_len : ℕ → ℕ
utf8_len c = if ltb c 128 then 1 else if ltb c 2048 then 2 else if ltb c 65536 then 3 else 4

unfoldable pub byte_len : Bytes → ℕ
byte_len [] = 0
byte_len (c ∷ cs) = utf8_len c + byte_len cs

unfoldable pub max3 : ℕ → ℕ → ℕ → ℕ
max3 a b c = let m = if ltb a b then b else a in if ltb m c then c else m

-- strings.Repeat is never given a negative number here, since width is at least the length of the
-- longest line and four.
unfoldable pub pad : ℕ → Bytes → Bytes
unfolding byte_len repeat
pad width s = 9474 ∷ 32 ∷ 32 ∷ (s ++ (repeat (width - 2 - byte_len s) 32 ++ 32 ∷ 32 ∷ 9474 ∷ []))

-- The lines of the banner, from the top.
pub record Banner : Type 0 where
  pub top : Bytes
  pub name : Bytes
  pub build : Bytes
  pub author : Bytes
  pub bottom : Bytes

abbrev pub name_line : Bytes
name_line = codes "raxd  —  Remote Access Daemon"

abbrev pub build_line : Build → Bytes
build_line b = b.version ++ (codes "  ·  commit " ++ (b.commit ++ (codes "  ·  built " ++ b.date)))

abbrev pub author_line : Bytes
author_line = codes "Vladimir Kovalev, OEM TECH"

unfoldable pub box_width : Build → ℕ
unfolding byte_len max3
box_width b = max3 (byte_len name_line) (byte_len (build_line b)) (byte_len author_line) + 4

unfoldable pub render : Build → Banner
unfolding box_width pad repeat
render b =
    let width = box_width b in
    record {
      top = 9484 ∷ (repeat width 9472 ++ 9488 ∷ []);
      name = pad width name_line;
      build = pad width (build_line b);
      author = pad width author_line;
      bottom = 9492 ∷ (repeat width 9472 ++ 9496 ∷ []);
    }
