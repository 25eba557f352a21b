-- ===== src/Keystore/Crypto.antt =====
-- internal/keystore/crypto.go. SHA-256 is a parameter; what crypto/rand draws is an argument.
use raxd.Prelude.{
  ℕ, ◌+◌, ◌-◌, ◌*◌, ◌/◌, ◌%◌, Bool, false, ◌||◌, Option, none, some, List, [], ◌∷◌, ◌++◌, Bytes,
  codes, ltb, if◌then◌else◌, bytes_eq, take,
}

abbrev pub key_prefix : Bytes
key_prefix = codes "rax_live_"

-- hex.EncodeToString
hex_digit : ℕ → ℕ
hex_digit d = if ltb d 10 then 48 + d else 87 + d

unfoldable pub hex : Bytes → Bytes
unfolding hex_digit
hex [] = []
hex (b ∷ bs) = hex_digit (b / 16) ∷ hex_digit (b % 16) ∷ hex bs

-- base64.RawURLEncoding.EncodeToString
base64_char : ℕ → ℕ
base64_char d =
    if ltb d 26
    then 65 + d
    else if ltb d 52
    then 71 + d
    else if ltb d 62
    then d - 4
    else if ltb d 63
    then 45
    else 95

unfoldable pub raw_url : Bytes → Bytes
unfolding base64_char
raw_url (a ∷ b ∷ c ∷ bs) =
    base64_char (a / 4)
    ∷ base64_char (a % 4 * 16 + b / 16)
    ∷ base64_char (b % 16 * 4 + c / 64)
    ∷ base64_char (c % 64)
    ∷ raw_url bs
raw_url (a ∷ b ∷ []) =
    base64_char (a / 4) ∷ base64_char (a % 4 * 16 + b / 16) ∷ base64_char (b % 16 * 4) ∷ []
raw_url (a ∷ []) = base64_char (a / 4) ∷ base64_char (a % 4 * 16) ∷ []
raw_url [] = []

-- The body is made from the 32 bytes drawn.
unfoldable pub generate_body : Bytes → Bytes
generate_body drawn = key_prefix ++ raw_url drawn

unfoldable pub contains : Bytes → List Bytes → Bool
contains id [] = false
contains id (x ∷ xs) = bytes_eq id x || contains id xs

-- The loop of `generateID` over the draws of eight bytes; `none` means that they ran out.
unfoldable pub generate_id : List Bytes → List Bytes → Option Bytes
unfolding contains
generate_id existing [] = none
generate_id existing (drawn ∷ draws) =
    let id = hex drawn in
    let rest = generate_id existing draws in if contains id existing then rest else some id

module _ (sha256 : Bytes → Bytes) where
  unfoldable pub hash_key : Bytes → Bytes → Bytes
  hash_key presented salt = sha256 (presented ++ salt)

  -- Six bytes of the digest, twelve hex characters.
  unfoldable pub fingerprint : Bytes → Bytes
  fingerprint presented = hex (take 6 (sha256 presented))
