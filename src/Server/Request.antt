-- ===== src/Server/Request.antt =====
-- What the middlewares of internal/server read of a request: bearerToken of auth.go, and contains,
-- originAllowed, ipOnly and the host part of middleware.go.
use raxd.Prelude.{
  ℕ, Bool, true, false, not, ◌&&◌, Option, none, some, List, [], ◌∷◌, Bytes, bytes_eq, codes,
  if◌then◌else◌, ◌==◌,
}
use raxd.Prelude.Int.{ℤ}

-- `host` is r.Host; the next three are headers, empty where they are absent; `body` is what the
-- client sends, and `body_limit` is that of the reader which bodyLimitMiddleware puts round it.
pub record Request : Type 0 where
  pub method : Bytes
  pub path : Bytes
  pub remote_addr : Bytes
  pub host : Bytes
  pub host_header : Bytes
  pub origin : Bytes
  pub authorization : Bytes
  pub body : Bytes
  pub body_limit : Option ℤ

-- The values of the keys ctxKeyFingerprint, ctxKeyKeyID and ctxKeyRemoteAddr.
pub record Context : Type 0 where
  pub fingerprint : Bytes
  pub key_id : Bytes
  pub remote_addr : Bytes

abbrev pub background : Context
background = record { fingerprint = []; key_id = []; remote_addr = [] }

-- The standard library on Unicode text: strings.ToLower, strings.TrimSpace, and the host name of
-- url.Parse, `none` where it fails; and which pattern of the mux a request matches.
pub data Pattern : Type 0 where
  healthz mcp anything : Pattern
  -- The mux redirects to the clean path.
  redirect : Pattern

pub record Net : Type 0 where
  pub to_lower : Bytes → Bytes
  pub trim_space : Bytes → Bytes
  pub url_hostname : Bytes → Option Bytes
  pub pattern : Request → Pattern

abbrev pub is_empty : Bytes → Bool
is_empty [] = true
is_empty (c ∷ cs) = false

abbrev pub dash : Bytes
dash = codes "-"

abbrev pub or_dash : Bytes → Bytes
or_dash [] = dash
or_dash (c ∷ cs) = c ∷ cs

-- fingerprintFromCtx and remoteAddrFromCtx.
abbrev pub fingerprint_from_ctx : Context → Bytes
fingerprint_from_ctx ctx = or_dash ctx.fingerprint

abbrev pub remote_addr_from_ctx : Context → Bytes
remote_addr_from_ctx ctx = or_dash ctx.remote_addr

-- strings.TrimPrefix where the prefix is there.
unfoldable pub strip_prefix : Bytes → Bytes → Option Bytes
strip_prefix [] s = some s
strip_prefix (p ∷ ps) [] = none
strip_prefix (p ∷ ps) (c ∷ cs) = let rest = strip_prefix ps cs in if p == c then rest else none

abbrev pub non_empty : Bytes → Option Bytes
non_empty [] = none
non_empty (c ∷ cs) = some (c ∷ cs)

abbrev pub trimmed : Net → Option Bytes → Option Bytes
trimmed net none = none
trimmed net (some s) = non_empty (net.trim_space s)

-- An empty header has no prefix either.
unfoldable pub bearer_token : Net → Bytes → Option Bytes
unfolding strip_prefix
bearer_token net authorization = trimmed net (strip_prefix (codes "Bearer ") authorization)

unfoldable pub has_byte : ℕ → Bytes → Bool
has_byte b [] = false
has_byte b (c ∷ cs) = let rest = has_byte b cs in if c == b then true else rest

abbrev pub cons_first : ℕ → Option (Bytes × Bytes) → Option (Bytes × Bytes)
cons_first c none = none
cons_first c (some (s, t)) = some (c ∷ s, t)

-- What stands before and after the first such byte.
unfoldable pub split_at : ℕ → Bytes → Option (Bytes × Bytes)
split_at b [] = none
split_at b (c ∷ cs) =
    let rest = cons_first c (split_at b cs) in if c == b then some ([], cs) else rest

-- After `host:` in brackets, what follows the bracket: a colon and a port without colons.
abbrev pub bracketed : Option (Bytes × Bytes) → Option Bytes
bracketed none = none
bracketed (some (host, [])) = none
bracketed (some (host, c ∷ port)) =
    if c == 58
      && not (has_byte 58 port)
      && not (has_byte 91 host)
      && not (has_byte 91 port)
      && not (has_byte 93 port)
    then some host
    else none

abbrev pub plain : Option (Bytes × Bytes) → Option Bytes
plain none = none
plain (some (host, port)) =
    if not (has_byte 58 port)
      && not (has_byte 91 host)
      && not (has_byte 91 port)
      && not (has_byte 93 host)
      && not (has_byte 93 port)
    then some host
    else none

-- The host of net.SplitHostPort, `none` where it fails.
unfoldable pub split_host : Bytes → Option Bytes
unfolding has_byte split_at
split_host [] = none
split_host (c ∷ cs) = if c == 91 then bracketed (split_at 93 cs) else plain (split_at 58 (c ∷ cs))

abbrev pub or_else : Option Bytes → Bytes → Bytes
or_else none s = s
or_else (some h) s = h

-- ipOnly, and the same for the Host header: without a port the whole text.
unfoldable pub ip_only : Bytes → Bytes
unfolding split_host
ip_only addr = or_else (split_host addr) addr

abbrev pub host_of : Bytes → Bytes → Bytes
host_of host_header [] = host_header
host_of host_header (c ∷ cs) = c ∷ cs

abbrev pub member : Net → List Bytes → Bytes → Bool
member net [] s = false
member net (v ∷ vs) s =
    let rest = member net vs s in if bytes_eq (net.to_lower v) s then true else rest

unfoldable pub contains : Net → List Bytes → Bytes → Bool
contains net slice s = member net slice (net.to_lower s)

abbrev pub known_host : Net → List Bytes → Bytes → Bool
known_host net allow [] = false
known_host net allow (c ∷ cs) = contains net allow (c ∷ cs)

abbrev pub parsed_allowed : Net → List Bytes → Option Bytes → Bool
parsed_allowed net allow none = false
parsed_allowed net allow (some hostname) = known_host net allow (net.to_lower hostname)

unfoldable pub origin_allowed : Net → List Bytes → Bytes → Bool
unfolding contains
origin_allowed net allow origin = parsed_allowed net allow (net.url_hostname origin)
