-- ===== src/Mcp/Base64.antt =====
-- encoding/base64, StdEncoding, as upload_tool.go uses it: DecodedLen and DecodeString.
use raxd.Prelude.{
  ℕ, ◌+◌, ◌-◌, ◌*◌, ◌/◌, ◌%◌, ◌≡◌, ◌≤◌, refl, Bool, true, false, ◌&&◌, ◌||◌, Option, none, some, [],
  ◌∷◌, Bytes, if◌then◌else◌, length, arith, ◌==◌, leb,
}

-- The value of a letter of the alphabet.
unfoldable pub sextet : ℕ → Option ℕ
sextet c =
    if leb 65 c && leb c 90
    then some (c - 65)
    else if leb 97 c && leb c 122
    then some (c - 71)
    else if leb 48 c && leb c 57
    then some (c + 4)
    else if c == 43
    then some 62
    else if c == 47
    then some 63
    else none

abbrev pub one_byte : Option ℕ → Option ℕ → Option Bytes
one_byte (some a) (some b) = some ((a * 4 + b / 16) ∷ [])
one_byte _ _ = none

abbrev pub two_bytes : Option ℕ → Option ℕ → Option ℕ → Option Bytes
two_bytes (some a) (some b) (some c) = some ((a * 4 + b / 16) ∷ (b % 16 * 16 + c / 4) ∷ [])
two_bytes _ _ _ = none

abbrev pub three_bytes : Option ℕ → Option ℕ → Option ℕ → Option ℕ → Option Bytes → Option Bytes
three_bytes (some a) (some b) (some c) (some d) (some rest) =
    some ((a * 4 + b / 16) ∷ (b % 16 * 16 + c / 4) ∷ (c % 4 * 64 + d) ∷ rest)
three_bytes _ _ _ _ _ = none

abbrev pub is_nil : Bytes → Bool
is_nil [] = true
is_nil (c ∷ cs) = false

-- Groups of four; only the last may end in one or two `=`.
unfoldable pub decode_groups : Bytes → Option Bytes
unfolding sextet
decode_groups [] = some []
decode_groups (a ∷ []) = none
decode_groups (a ∷ b ∷ []) = none
decode_groups (a ∷ b ∷ c ∷ []) = none
decode_groups (a ∷ b ∷ c ∷ d ∷ rest) =
    let more = decode_groups rest in
    if is_nil rest && c == 61 && d == 61
    then one_byte (sextet a) (sextet b)
    else if is_nil rest && d == 61
    then two_bytes (sextet a) (sextet b) (sextet c)
    else three_bytes (sextet a) (sextet b) (sextet c) (sextet d) more

-- Line feeds and carriage returns are skipped.
unfoldable pub without_breaks : Bytes → Bytes
without_breaks [] = []
without_breaks (c ∷ cs) =
    let rest = without_breaks cs in if c == 10 || c == 13 then rest else c ∷ rest

unfoldable pub decode_string : Bytes → Option Bytes
unfolding decode_groups without_breaks
decode_string s = decode_groups (without_breaks s)

unfoldable pub decoded_len : ℕ → ℕ
decoded_len n = n / 4 * 3

length-one_byte : (a b : Option ℕ) (n : ℕ) {bs : Bytes} → one_byte a b ≡ some bs → length bs ≤ 3 + n
length-one_byte a b n h = ground arith

length-two_bytes :
    (a b c : Option ℕ) (n : ℕ) {bs : Bytes} → two_bytes a b c ≡ some bs → length bs ≤ 3 + n
length-two_bytes a b c n h = ground arith

length-three_bytes :
    (a b c d : Option ℕ) (more : Option Bytes) (n : ℕ) {bs : Bytes}
    → ((m : Bytes) → more ≡ some m → length m ≤ n)
    → three_bytes a b c d more ≡ some bs
    → length bs ≤ 3 + n
length-three_bytes (some a) (some b) (some c) (some d) (some m) n k h = ground (arith, k m refl)
length-three_bytes none b c d more n k h = cc
length-three_bytes (some a) none c d more n k h = cc
length-three_bytes (some a) (some b) none d more n k h = cc
length-three_bytes (some a) (some b) (some c) none more n k h = cc
length-three_bytes (some a) (some b) (some c) (some d) none n k h = cc

either_of :
    (p q : Bool) (x y z : Option Bytes) (n : ℕ) {bs : Bytes}
    → ((m : Bytes) → x ≡ some m → length m ≤ n)
    → ((m : Bytes) → y ≡ some m → length m ≤ n)
    → ((m : Bytes) → z ≡ some m → length m ≤ n)
    → (if p then x else if q then y else z) ≡ some bs
    → length bs ≤ n
either_of true q x y z n {bs} f g h e = f bs e
either_of false true x y z n {bs} f g h e = g bs e
either_of false false x y z n {bs} f g h e = h bs e

length-decode_groups : (s bs : Bytes) → decode_groups s ≡ some bs → length bs ≤ length s / 4 * 3
unfolding decode_groups
length-decode_groups [] bs h = ground arith
length-decode_groups (a ∷ []) bs h = ground arith
length-decode_groups (a ∷ b ∷ []) bs h = ground arith
length-decode_groups (a ∷ b ∷ c ∷ []) bs h = ground arith
length-decode_groups (a ∷ b ∷ c ∷ d ∷ rest) bs h =
    let n = length rest / 4 * 3 in
    let bound : length bs ≤ 3 + n =
      either_of (is_nil rest && c == 61 && d == 61) (is_nil rest && d == 61)
        (one_byte (sextet a) (sextet b)) (two_bytes (sextet a) (sextet b) (sextet c))
        (three_bytes (sextet a) (sextet b) (sextet c) (sextet d) (decode_groups rest)) (3 + n)
        (λ m. length-one_byte (sextet a) (sextet b) n)
        (λ m. length-two_bytes (sextet a) (sextet b) (sextet c) n)
        (λ m.
          length-three_bytes (sextet a) (sextet b) (sextet c) (sextet d) (decode_groups rest) n
            (length-decode_groups rest))
        h in
    omega (arith, bound)

length-without_breaks : (s : Bytes) → length (without_breaks s) ≤ length s
unfolding without_breaks
length-without_breaks [] = omega arith
length-without_breaks (c ∷ cs) = ground (arith, length-without_breaks cs)

-- What is decoded has at most DecodedLen bytes.
pub length-decode_string :
    (s : Bytes) {bs : Bytes} → decode_string s ≡ some bs → length bs ≤ decoded_len (length s)
unfolding decode_string decoded_len
length-decode_string s h =
    omega (arith, length-decode_groups (without_breaks s) _ h, length-without_breaks s)
