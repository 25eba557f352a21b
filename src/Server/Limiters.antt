-- ===== src/Server/Limiters.antt =====
-- internal/server/ratelimit.go: the token buckets of keys and of addresses.
pub mod Isolation
use raxd.Prelude.{
  ℕ, ◌+◌, Bool, true, false, Option, none, some, List, [], Bytes, if◌then◌else◌, ltb,
}
use raxd.Prelude.Dict.{get, set, delete_where}

-- golang.org/x/time/rate: a new limiter of the configured rate and burst, and Limiter.Allow at a
-- time.
pub record Buckets (L : Type 0) : Type 0 where
  pub fresh : L
  pub allow_at : ℕ → L → Bool × L

pub record Entry (L : Type 0) : Type 0 where
  pub limiter : L
  pub last_seen : ℕ

-- The maps perKey and perIP, and the time after which an idle entry is removed.
pub record Limiters (L : Type 0) : Type 0 where
  pub per_key : List (Bytes × Entry L)
  pub per_ip : List (Bytes × Entry L)
  pub ttl : ℕ

module _ {L : Type 0} where
  -- NewLimiters; the rate and the burst are in `fresh`.
  abbrev pub new_limiters : ℕ → Limiters L
  new_limiters ttl = record { per_key = []; per_ip = []; ttl = ttl }

  abbrev pub or_new : Buckets L → ℕ → Option (Entry L) → Entry L
  or_new b now none = record { limiter = b.fresh; last_seen = now }
  or_new b now (some e) = record e { last_seen = now }

  -- Allow of the limiter that the entry points to. It and getOrCreate read one clock.
  unfoldable pub used : Buckets L → ℕ → Option (Entry L) → Bool × Entry L
  used b now o =
      let e = or_new b now o in
      let (allowed, l) = b.allow_at now e.limiter in (allowed, record e { limiter = l })

  unfoldable pub take_token :
      Buckets L → ℕ → Bytes → List (Bytes × Entry L) → Bool × List (Bytes × Entry L)
  unfolding used
  take_token b now k m = let (allowed, e) = used b now (get k m) in (allowed, set k e m)

  -- Where the key is refused, the address is not asked.
  abbrev pub ask_ip : Buckets L → ℕ → Bytes → Bool → Limiters L → Bool × Limiters L
  ask_ip b now ip false l = (false, l)
  ask_ip b now ip true l =
      let (allowed, m) = take_token b now ip l.per_ip in (allowed, record l { per_ip = m })

  unfoldable pub allow : Buckets L → ℕ → Bytes → Bytes → Limiters L → Bool × Limiters L
  unfolding take_token
  allow b now fp ip l =
      let (allowed, m) = take_token b now fp l.per_key in
      ask_ip b now ip allowed (record l { per_key = m })

  -- now - lastSeen > ttl
  abbrev pub is_idle : ℕ → ℕ → Entry L → Bool
  is_idle now ttl e = ltb (e.last_seen + ttl) now

  unfoldable pub gc : ℕ → Limiters L → Limiters L
  gc now l = record l {
    per_key = delete_where (is_idle now l.ttl) l.per_key;
    per_ip = delete_where (is_idle now l.ttl) l.per_ip;
  }
