-- ===== src/CmdExec/Run/Spawning.antt =====
-- What Run requires before it starts a process, and what it reports.
use mathlib.Core.List.{Memᴰ}
use raxd.Prelude.{
  ◌≡◌, ◌≢◌, ◌⊎◌, refl, sym, true, some, List, [], ◌∷◌, ◌++◌, Bytes, bytes_eq, bytes_eq_sound, All,
  arith, inl, inr, Bool-cases, ap,
}
use raxd.Prelude.Exec.{ok, err, Result-cases}
use raxd.Prelude.Int.{ℤ, pos, ltb_ℤ}
use raxd.CmdExec.{Config, Input, Output, RunError}
use raxd.CmdExec.Run.{
  Host, Spawn, contains, is_allowed, is_absolute, or_default, validate_cwd, lookup_binary,
  with_value, build_env, run,
}

-- The entry `KEY=value` of one key of the whitelist, whose value is not empty.
abbrev pub IsEntry : Host → List Bytes → Bytes → Type 0
IsEntry host keys entry =
    (key : Bytes) × Memᴰ key keys × (host.getenv key ≢ []) × (entry ≡ key ++ 61 ∷ host.getenv key)

-- Where the binary of a command stands: at its own path, if it begins with a slash, or where LookPath
-- has found it.
abbrev pub IsFound : Host → Bytes → Bytes → Type 0
IsFound host command bin =
    ((rest : Bytes) × (command ≡ 47 ∷ rest) × (bin ≡ command)) ⊎ (host.look_path command ≡ some bin)

-- The directory of a call, or the default where the call names none.
abbrev pub IsChosen : Bytes → Bytes → Bytes → Type 0
IsChosen cwd default used = ((cwd ≡ []) × (used ≡ default)) ⊎ ((cwd ≢ []) × (used ≡ cwd))

-- A process as Run may start it.
abbrev pub IsPermitted : Host → ℤ → Config → Input → Spawn → Type 0
IsPermitted host timeout cfg input s =
    ((cfg.allowlist ≡ []) ⊎ Memᴰ input.command cfg.allowlist)
    × IsFound host input.command s.bin
    × ((rest : Bytes) × (s.bin ≡ 47 ∷ rest))
    × IsChosen input.cwd cfg.default_cwd s.working_dir
    × (host.stat_is_dir s.working_dir ≡ some true)
    × (s.args ≡ input.args)
    × All (IsEntry host cfg.env_whitelist) s.env
    × (s.timeout ≡ timeout)
    × (ltb_ℤ (pos 0) timeout ≡ true)

or_default-IsChosen : (cwd default : Bytes) → IsChosen cwd default (or_default cwd default)
or_default-IsChosen [] default = inl (refl, refl)
or_default-IsChosen (c ∷ cs) default = inr ((λ e. cc), refl)

contains-Memᴰ :
    (allowlist : List Bytes) (command : Bytes)
    → contains allowlist command ≡ true
    → Memᴰ command allowlist
unfolding contains
contains-Memᴰ [] command h = cc
contains-Memᴰ (entry ∷ entries) command h = elim (Bool-cases (bytes_eq entry command)) [
  | inl e ↦ Memᴰ.head (sym (bytes_eq_sound entry command e))
  | inr e ↦ Memᴰ.tail (contains-Memᴰ entries command (ground (arith, e)))
]

allowed :
    (allowlist : List Bytes) (command : Bytes)
    → is_allowed allowlist command ≡ true
    → (allowlist ≡ []) ⊎ Memᴰ command allowlist
allowed [] command h = inl refl
allowed (entry ∷ entries) command h = inr (contains-Memᴰ (entry ∷ entries) command h)

absolute : (path : Bytes) → is_absolute path ≡ true → (rest : Bytes) × (path ≡ 47 ∷ rest)
absolute [] h = cc
absolute (c ∷ cs) h = (cs, ground (arith, h))

found :
    (host : Host) (command bin : Bytes)
    → lookup_binary host command ≡ ok bin
    → IsFound host command bin × ((rest : Bytes) × (bin ≡ 47 ∷ rest))
unfolding lookup_binary
found host command bin h = elim (Bool-cases (is_absolute command)) [
  | inl a ↦
      let (rest, e) = absolute command a in
      let same : bin ≡ command = ground (arith, a) in (inl (rest, e, same), (rest, cc))
  | inr a ↦
      let there : host.look_path command ≡ some bin = ground (arith, a) in
      let full : is_absolute bin ≡ true = ground (arith, a) in (inr there, absolute bin full)
]

IsEntry-weaken :
    (host : Host) (key : Bytes) (keys env : List Bytes)
    → All (IsEntry host keys) env
    → All (IsEntry host (key ∷ keys)) env
IsEntry-weaken host key keys [] a = a
IsEntry-weaken host key keys (e ∷ es) ((k, m, v, q), a) =
    ((k, Memᴰ.tail m, v, q), IsEntry-weaken host key keys es a)

IsEntry-All :
    (host : Host) (key value : Bytes) (keys env : List Bytes)
    → host.getenv key ≡ value
    → All (IsEntry host (key ∷ keys)) env
    → All (IsEntry host (key ∷ keys)) (with_value key value env)
IsEntry-All host key [] keys env e a = a
IsEntry-All host key (c ∷ cs) keys env e a =
    ((key, Memᴰ.head refl, (λ n. cc), ap (λ v. key ++ 61 ∷ v) (sym e)), a)

build_env-All : (host : Host) (keys : List Bytes) → All (IsEntry host keys) (build_env host keys)
unfolding build_env
build_env-All host [] = tt
build_env-All host (key ∷ keys) =
    IsEntry-All host key (host.getenv key) keys (build_env host keys) refl
      (IsEntry-weaken host key keys (build_env host keys) (build_env-All host keys))

module _ (host : Host) (timeout : ℤ) (cfg : Config) (input : Input) (before : List Spawn) where
  abbrev spawn_of : Bytes → Spawn
  spawn_of bin = record {
    bin = bin;
    args = input.args;
    env = build_env host cfg.env_whitelist;
    working_dir = or_default input.cwd cfg.default_cwd;
    timeout = timeout;
  }

  -- Where Run returns an error it has started no process.
  pub run-err :
      {e : RunError}
      → (run host timeout cfg input before).0 ≡ err e
      → (run host timeout cfg input before).1 ≡ before
  unfolding run
  run-err h = ground arith

  -- Where Run returns an output it has started exactly one process. The allowlist is empty or has its
  -- command; its binary is an absolute path, which is the command or what LookPath has found for it;
  -- its working directory is that of the call, or the default where the call names none, and is a
  -- directory; its arguments and its timeout, which is positive, are those of the call; and each
  -- entry of its environment is `KEY=value` for a key of the whitelist, with the value that the key
  -- has for the daemon.
  pub run-ok :
      {o : Output}
      → (run host timeout cfg input before).0 ≡ ok o
      → (s : Spawn) × IsPermitted host timeout cfg input s
        × ((run host timeout cfg input before).1 ≡ before ++ s ∷ [])
  unfolding run validate_cwd
  run-ok {o} h = elim (Result-cases (lookup_binary host input.command)) [
    | inl (bin, e) ↦
        let listed : is_allowed cfg.allowlist input.command ≡ true = ground arith in
        let dir : host.stat_is_dir (or_default input.cwd cfg.default_cwd) ≡ some true =
          ground arith in
        let lasts : ltb_ℤ (pos 0) timeout ≡ true = ground arith in
        let (at, full) = found host input.command bin e in
        (
          spawn_of bin,
          (
            allowed cfg.allowlist input.command listed,
            at,
            full,
            or_default-IsChosen input.cwd cfg.default_cwd,
            dir,
            refl,
            build_env-All host cfg.env_whitelist,
            refl,
            lasts,
          ),
          ground arith,
        )
    | inr (x, e) ↦ absurd (ground arith)
  ]
