-- ===== src/Cli/Banner/Widths.antt =====
-- The widths of the lines of the banner.
use raxd.Prelude.{ℕ, ◌+◌, ◌-◌, ◌≡◌, ◌≤◌, [], ◌∷◌, ◌++◌, Bytes, length, length-append, arith}
use raxd.Cli.{repeat, length-repeat}
use raxd.Cli.Banner.{
  Build, byte_len, max3, pad, author_line, name_line, build_line, box_width, render,
}

max3_third : (a b c : ℕ) → c ≤ max3 a b c
unfolding max3
max3_third a b c = ground arith

length-pad :
    (width : ℕ) (s : Bytes) → length (pad width s) ≡ length s + (width - 2 - byte_len s) + 6
unfolding pad
length-pad width s =
    let a = length-append s (repeat (width - 2 - byte_len s) 32 ++ 32 ∷ 32 ∷ 9474 ∷ []) in
    let b = length-append (repeat (width - 2 - byte_len s) 32) (32 ∷ 32 ∷ 9474 ∷ []) in
    omega (arith, a, b, length-repeat (width - 2 - byte_len s) 32)

-- Whatever the build is, the line of the author is wider than the border by two.
pub author_sticks_out : (b : Build) → length (render b).author ≡ length (render b).top + 2
unfolding render box_width byte_len
author_sticks_out b =
    let w = box_width b in
    omega (
      arith,
      length-pad w author_line,
      max3_third (byte_len name_line) (byte_len (build_line b)) 26,
      length-append (repeat w 9472) (9488 ∷ []),
      length-repeat w 9472,
    )
