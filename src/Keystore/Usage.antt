-- ===== src/Keystore/Usage.antt =====
-- internal/keystore/keystore.go: `usageBuf`, a map from ids to times, as an association list.
use raxd.Prelude.{
  ℕ, ◌≡◌, refl, Option, none, some, List, [], ◌∷◌, Bytes, bytes_eq, bytes_eq_sound, bytes_eq_refl,
  if◌then◌else◌, arith,
}

abbrev pub Usage : Type 0
Usage = List (Bytes × ℕ)

unfoldable pub get_usage : Bytes → Usage → Option ℕ
get_usage id [] = none
get_usage id ((j, t) ∷ rest) = if bytes_eq id j then some t else get_usage id rest

unfoldable pub set_usage : Bytes → ℕ → Usage → Usage
set_usage id t [] = (id, t) ∷ []
set_usage id t ((j, u) ∷ rest) =
    if bytes_eq id j then (j, t) ∷ rest else (j, u) ∷ set_usage id t rest

abbrev keep_or_set : Option ℕ → Bytes → ℕ → Usage → Usage
keep_or_set none id t buf = set_usage id t buf
keep_or_set (some _) id t buf = buf

-- The loop `for id, t := range snapshot` of a failed flush: what the buffer has wins. A Go map
-- has each key once, so the order of the loop does not show.
unfoldable pub restore : Usage → Usage → Usage
unfolding get_usage set_usage
restore [] buf = buf
restore ((id, t) ∷ rest) buf = restore rest (keep_or_set (get_usage id buf) id t buf)

abbrev pub or_else : Option ℕ → Option ℕ → Option ℕ
or_else (some t) o = some t
or_else none o = o

pub get_usage-set_usage :
    (j id : Bytes) (t : ℕ) (buf : Usage)
    → get_usage j (set_usage id t buf) ≡ (if bytes_eq j id then some t else get_usage j buf)
unfolding get_usage set_usage
get_usage-set_usage j id t [] = refl
get_usage-set_usage j id t ((k, u) ∷ rest) = ground (
  arith,
  get_usage-set_usage j id t rest,
  bytes_eq_sound id k,
  bytes_eq_sound j k,
  bytes_eq_sound j id,
  bytes_eq_refl k,
  bytes_eq_refl id,
  bytes_eq_refl j,
)

get_usage-keep_or_set :
    (j id : Bytes) (t : ℕ) (buf : Usage) (o : Option ℕ)
    → o ≡ get_usage id buf
    → get_usage j (keep_or_set o id t buf)
      ≡ or_else (get_usage j buf) (if bytes_eq j id then some t else none)
get_usage-keep_or_set j id t buf none e =
    ground (arith, get_usage-set_usage j id t buf, bytes_eq_sound j id)
get_usage-keep_or_set j id t buf (some u) e = ground (arith, bytes_eq_sound j id)

-- No time of the snapshot is lost, and none of the buffer is overwritten.
pub get_usage-restore :
    (j : Bytes) (snapshot buf : Usage)
    → get_usage j (restore snapshot buf) ≡ or_else (get_usage j buf) (get_usage j snapshot)
unfolding restore
get_usage-restore j [] buf = ground arith
get_usage-restore j ((id, t) ∷ rest) buf = ground (
  arith,
  get_usage-restore j rest (keep_or_set (get_usage id buf) id t buf),
  get_usage-keep_or_set j id t buf (get_usage id buf) refl,
)

pub get_usage-restore_empty :
    (j : Bytes) (snapshot : Usage) → get_usage j (restore snapshot []) ≡ get_usage j snapshot
unfolding get_usage
get_usage-restore_empty j snapshot = get_usage-restore j snapshot []
