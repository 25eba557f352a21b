-- ===== src/Cli.antt =====
-- internal/cli: what a command prints, and the commands.
pub mod Key
pub mod Banner
pub mod Root
pub mod Service
pub mod Serve
use raxd.Prelude.{ℕ, length, arith, zero, suc, ◌≡◌, refl, ap, List, [], ◌∷◌, ◌++◌, String, Bytes}
use raxd.Prelude.Exec.{Result, Exec, ok, err}
use raxd.Server.Audit.{Message, text}
use raxd.Keystore.{World, StoreError}
use raxd.Config.Paths.{PathsError}

-- A line on standard output or on standard error; `info` and `warning` are lines of the
-- logger, on standard error, and `table` what tablewriter makes of a head and rows on standard output.
pub data Line : Type 0 where
  stdout stderr : Message → Line
  info warning : String → List (String × Message) → Line
  table : List String → List (List Bytes) → Line

pub data CliError : Type 0 where
  of_store : StoreError → CliError
  of_paths : PathsError → CliError
  missing_id table_failed : CliError

-- The key store on disk, and what was printed, the oldest line first.
pub record Shell : Type 0 where
  pub store : World
  pub console : List Line

abbrev pub Command : Type 0 → Type 0
Command A = Exec CliError Shell A

abbrev pub print : List Line → Command (Unit {0})
print lines s = (ok tt, record s { console = s.console ++ lines })

abbrev pub blank : Message
blank = text "" ∷ []

-- strings.Repeat of one code point.
unfoldable pub repeat : ℕ → ℕ → Bytes
repeat zero c = []
repeat (suc n) c = c ∷ repeat n c

pub length-repeat : (n c : ℕ) → length (repeat n c) ≡ n
unfolding repeat
length-repeat zero c = refl
length-repeat (suc n) c = omega (arith, length-repeat n c)

pub append_none : (a : List Line) → a ++ [] ≡ a
append_none [] = refl
append_none (l ∷ a) = ap (λ (b : List Line). l ∷ b) (append_none a)
