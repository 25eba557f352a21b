-- ===== src/Server/Limiters/Isolation.antt =====
-- The bucket of a key under any sequence of requests and sweeps: only the requests with that key
-- touch it.
use raxd.Prelude.{
  ℕ, ◌≡◌, refl, Bool, true, false, List, [], ◌∷◌, Bytes, bytes_eq, bytes_eq_sound, bytes_eq_refl,
  arith, if◌then◌else◌, Bool-cases, inl, inr,
}
use raxd.Prelude.Dict.{
  get, get-set, Distinct, get-delete_where, Distinct-delete_where, Distinct-set,
}
use raxd.Server.Limiters.{
  Buckets, Entry, Limiters, new_limiters, used, take_token, allow, is_idle, gc,
}

-- A request with a fingerprint and an address, or a sweep of StartGC.
pub data Event : Type 0 where
  asks : ℕ → Bytes → Bytes → Event
  sweeps : ℕ → Event

abbrev pub concerns : Bytes → Event → Bool
concerns k (asks now fp ip) = bytes_eq k fp
concerns k (sweeps now) = true

unfoldable pub only : Bytes → List Event → List Event
only k [] = []
only k (e ∷ es) = let rest = only k es in if concerns k e then e ∷ rest else rest

module _ {L : Type 0} (b : Buckets L) where
  unfoldable pub happens : Event → Limiters L → Limiters L
  unfolding allow gc
  happens (asks now fp ip) l = (allow b now fp ip l).1
  happens (sweeps now) l = gc now l

  unfoldable pub after : List Event → Limiters L → Limiters L
  unfolding happens
  after [] l = l
  after (e ∷ es) l = after es (happens e l)

  key_map :
      (now : ℕ) (fp ip : Bytes) (l : Limiters L)
      → (allow b now fp ip l).1.per_key ≡ (take_token b now fp l.per_key).1
  unfolding allow
  key_map now fp ip l = ground arith

  allow_ttl : (now : ℕ) (fp ip : Bytes) (l : Limiters L) → (allow b now fp ip l).1.ttl ≡ l.ttl
  unfolding allow
  allow_ttl now fp ip l = ground arith

  take_token_other :
      (k : Bytes) (now : ℕ) (fp : Bytes) (m : List (Bytes × Entry L))
      → bytes_eq k fp ≡ false
      → get k (take_token b now fp m).1 ≡ get k m
  unfolding take_token
  take_token_other k now fp m n = ground (arith, get-set k fp (used b now (get fp m)).1 m)

  take_token_same :
      (now : ℕ) (k : Bytes) (m n : List (Bytes × Entry L))
      → get k m ≡ get k n
      → get k (take_token b now k m).1 ≡ get k (take_token b now k n).1
  unfolding take_token
  take_token_same now k m n e =
      rw
        (
          get-set k k (used b now (get k m)).1 m,
          get-set k k (used b now (get k n)).1 n,
          bytes_eq_refl k,
          e,
        )
        refl

  take_token-Distinct :
      (now : ℕ) (k : Bytes) (m : List (Bytes × Entry L))
      → Distinct m
      → Distinct (take_token b now k m).1
  unfolding take_token
  take_token-Distinct now k m d = Distinct-set k (used b now (get k m)).1 m d

  -- Two states that agree on this key, each with Distinct keys and the same lifetime.
  pub record Agree (k : Bytes) (l m : Limiters L) : Type 0 where
    pub same : get k l.per_key ≡ get k m.per_key
    pub same_ttl : l.ttl ≡ m.ttl
    pub left : Distinct l.per_key
    pub right : Distinct m.per_key

  asks-Agree :
      (k : Bytes) (now : ℕ) (fp ip : Bytes) (l m : Limiters L)
      → Agree k l m
      → bytes_eq k fp ≡ true
      → Agree k (allow b now fp ip l).1 (allow b now fp ip m).1
  asks-Agree k now fp ip l m a e = record {
    same =
        rw (key_map now fp ip l, key_map now fp ip m, ← bytes_eq_sound k fp e)
          (take_token_same now k l.per_key m.per_key a.same);
    same_ttl = rw (allow_ttl now fp ip l, allow_ttl now fp ip m) a.same_ttl;
    left = rw (key_map now fp ip l) (take_token-Distinct now fp l.per_key a.left);
    right = rw (key_map now fp ip m) (take_token-Distinct now fp m.per_key a.right);
  }

  skips-Agree :
      (k : Bytes) (now : ℕ) (fp ip : Bytes) (l m : Limiters L)
      → Agree k l m
      → bytes_eq k fp ≡ false
      → Agree k (allow b now fp ip l).1 m
  skips-Agree k now fp ip l m a n = record {
    same = rw (key_map now fp ip l, take_token_other k now fp l.per_key n) a.same;
    same_ttl = rw (allow_ttl now fp ip l) a.same_ttl;
    left = rw (key_map now fp ip l) (take_token-Distinct now fp l.per_key a.left);
    right = a.right;
  }

  sweeps-Agree :
      (k : Bytes) (now : ℕ) (l m : Limiters L) → Agree k l m → Agree k (gc now l) (gc now m)
  unfolding gc
  sweeps-Agree k now l m a = record {
    same =
        rw
          (
            get-delete_where (is_idle now l.ttl) k l.per_key a.left,
            get-delete_where (is_idle now m.ttl) k m.per_key a.right,
            a.same,
            a.same_ttl,
          )
          refl;
    same_ttl = a.same_ttl;
    left = Distinct-delete_where (is_idle now l.ttl) l.per_key a.left;
    right = Distinct-delete_where (is_idle now m.ttl) m.per_key a.right;
  }

  after-Agree :
      (k : Bytes) (es : List Event) (l m : Limiters L)
      → Agree k l m
      → Agree k (after es l) (after (only k es) m)
  unfolding after only happens
  after-Agree k [] l m a = a
  after-Agree k (asks now fp ip ∷ es) l m a = elim (Bool-cases (bytes_eq k fp)) [
    | inl e ↦ rw e (after-Agree k es _ _ (asks-Agree k now fp ip l m a e))
    | inr n ↦ rw n (after-Agree k es _ m (skips-Agree k now fp ip l m a n))
  ]
  after-Agree k (sweeps now ∷ es) l m a = after-Agree k es _ _ (sweeps-Agree k now l m a)

  -- From no buckets, any requests and sweeps leave the bucket of a key as the requests with this
  -- key and the sweeps alone would: no other key uses up its tokens.
  pub key_isolation :
      (ttl : ℕ) (k : Bytes) (es : List Event)
      → get k (after es (new_limiters ttl)).per_key
        ≡ get k (after (only k es) (new_limiters ttl)).per_key
  unfolding get
  key_isolation ttl k es =
      (after-Agree k es (new_limiters ttl) (new_limiters ttl)
        (record { same = refl; same_ttl = refl; left = tt; right = tt })).same
