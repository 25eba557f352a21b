-- ===== src/FileUpload/Policy.antt =====
-- What ParseMode lets through.
use raxd.Prelude.{
  ℕ, zero, suc, ◌/◌, ◌%◌, ◌≡◌, ◌↔◌, ◌<◌, refl, Bool, true, false, ◌&&◌, ◌||◌, Option, none, some,
  [], ◌∷◌, Bytes, arith, ◌==◌,
}
use raxd.Prelude.Int.{pos}
use raxd.FileUpload.Mode.{
  parse_int, parse_mode, parse_mode_str, format_mode, is_world_writable, octal_digits,
}

-- ParseMode accepts a text exactly where it is the octal notation of a number of 32 bits that has
-- permission bits only, without the bit for writing by others; the number is the mode.
pub parse_mode_iff :
    (s : Bytes) (m : ℕ)
    → (parse_mode s ≡ some m) ↔ ((parse_int s ≡ some (pos m)) × (m < 512) × (m / 2 % 2 ≡ 0))
unfolding parse_mode parse_int
parse_mode_iff [] m = (λ h. cc, λ h. cc)
parse_mode_iff (c ∷ cs) m = (λ h. ground arith, λ h. ground arith)

-- The configuration accepts the modes that an upload accepts, with the same value.
pub parse_mode_str-parse_mode : (s : Bytes) → parse_mode_str s ≡ parse_mode s
unfolding parse_mode parse_mode_str
parse_mode_str-parse_mode [] = refl
parse_mode_str-parse_mode (c ∷ cs) = ground arith

-- Whether the test passes at each mode under the bound.
abbrev holds_under : (ℕ → Bool) → ℕ → Bool
holds_under test zero = true
holds_under test (suc bound) = holds_under test bound && test bound

holds_under-at :
    (test : ℕ → Bool) (mode bound : ℕ)
    → mode < bound
    → holds_under test bound ≡ true
    → test mode ≡ true
holds_under-at test mode zero lt passed = absurd (omega arith)
holds_under-at test mode (suc bound) lt passed = ground (arith, holds_under-at test mode bound)

abbrev is_some_eq : Option ℕ → ℕ → Bool
is_some_eq none m = false
is_some_eq (some n) m = n == m

abbrev reads_back : ℕ → Bool
reads_back m = is_world_writable m || is_some_eq (parse_mode (format_mode m)) m

reads_back_table : holds_under reads_back 512 ≡ true
unfolding parse_mode parse_int octal_digits format_mode
reads_back_table = refl

-- A mode that is printed for a reply is read back as itself.
pub parse_mode-format_mode : (m : ℕ) → m < 512 → m / 2 % 2 ≡ 0 → parse_mode (format_mode m) ≡ some m
parse_mode-format_mode m h k =
    let table : reads_back m ≡ true = holds_under-at reads_back m 512 h reads_back_table in
    ground arith
