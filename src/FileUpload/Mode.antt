-- ===== src/FileUpload/Mode.antt =====
-- internal/fileupload/mode.go: ParseMode, and parseModeStr of internal/config/config.go, which
-- repeats it. A mode is a number; the masks are written as quotients and remainders.
use raxd.Prelude.{
  ℕ, ◌+◌, ◌-◌, ◌*◌, ◌/◌, ◌%◌, ◌^◌, Bool, ◌&&◌, not, Option, none, some, [], ◌∷◌, Bytes, ltb, leb,
  ◌==◌, if◌then◌else◌,
}
use raxd.Prelude.Int.{ℤ, pos, negsuc, sub_ℕ}

-- The digits of strconv.ParseInt in base 8; `none` is a syntax error.
unfoldable pub octal_digits : ℕ → Bytes → Option ℕ
octal_digits value [] = some value
octal_digits value (c ∷ cs) =
    let rest = octal_digits (value * 8 + (c - 48)) cs in if leb 48 c && leb c 55 then rest else none

octal_value : Bytes → Option ℕ
unfolding octal_digits
octal_value [] = none
octal_value (c ∷ cs) = octal_digits 0 (c ∷ cs)

abbrev positive : Option ℕ → Option ℤ
positive none = none
positive (some n) = if ltb n (2 ^ 31) then some (pos n) else none

abbrev negative : Option ℕ → Option ℤ
negative none = none
negative (some n) = if leb n (2 ^ 31) then some (sub_ℕ 0 n) else none

-- strconv.ParseInt(s, 8, 32): a sign, then digits; a value outside of 32 bits is an error.
unfoldable pub parse_int : Bytes → Option ℤ
unfolding octal_value
parse_int [] = none
parse_int (c ∷ cs) =
    if c == 43
    then positive (octal_value cs)
    else if c == 45
    then negative (octal_value cs)
    else positive (octal_value (c ∷ cs))

-- mode &^ 0o777 != 0
abbrev pub has_bits_outside : ℕ → Bool
has_bits_outside mode = not (mode / 512 == 0)

-- mode & 0o002 != 0
abbrev pub is_world_writable : ℕ → Bool
is_world_writable mode = not (mode / 2 % 2 == 0)

abbrev check_mode : Option ℤ → Option ℕ
check_mode none = none
check_mode (some (negsuc n)) = none
check_mode (some (pos mode)) =
    if has_bits_outside mode then none else if is_world_writable mode then none else some mode

-- `none` is ErrBadMode.
unfoldable pub parse_mode : Bytes → Option ℕ
parse_mode [] = none
parse_mode (c ∷ cs) = check_mode (parse_int (c ∷ cs))

abbrev check_parsed : Option ℤ → Option ℕ
check_parsed none = none
check_parsed (some (negsuc n)) = none
check_parsed (some (pos mode)) =
    if has_bits_outside mode then none else if is_world_writable mode then none else some mode

-- parseModeStr of the configuration; `none` is any of its errors.
unfoldable pub parse_mode_str : Bytes → Option ℕ
parse_mode_str [] = none
parse_mode_str (c ∷ cs) = check_parsed (parse_int (c ∷ cs))

-- fmt.Sprintf("%04o", mode), for a mode of at most four digits.
unfoldable pub format_mode : ℕ → Bytes
format_mode m = (48 + m / 512 % 8) ∷ (48 + m / 64 % 8) ∷ (48 + m / 8 % 8) ∷ (48 + m % 8) ∷ []
