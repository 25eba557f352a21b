-- ===== src/Service/Systemd/Report.antt =====
-- internal/service/systemd.go: Status, parseSystemctlProps and readProcEUID.
use raxd.Prelude.{
  ℕ, ◌-◌, Bool, true, false, ◌&&◌, Option, none, some, List, [], ◌∷◌, ◌++◌, Bytes, bytes_eq, codes,
  if◌then◌else◌, ◌==◌, leb,
}
use raxd.Prelude.Dict.{get, set}
use raxd.Prelude.Int.{ℤ, pos, negsuc, ltb_ℤ}
use raxd.Server.Request.{split_at}
use raxd.Service.{Status}
use raxd.Service.Paths.{has_prefix}
use raxd.Service.Passwd.{
  Exit, ran_well, decimal, not_empty, split, extend_first, is_space, trim_space,
}
use raxd.Service.Systemd.{Machine, System, unit_missing}

abbrev pub at_most : ℕ → Option ℕ → ℕ
at_most limit none = 0
at_most limit (some n) = if leb n limit then n else limit

abbrev pub minus : ℕ → ℤ
minus n = if n == 0 then pos 0 else negsuc (n - 1)

-- The number of strconv.Atoi where its error is ignored: 0, or the bound that is passed.
unfoldable pub atoi_value : Bytes → ℤ
unfolding decimal
atoi_value [] = pos 0
atoi_value (c ∷ cs) =
    if c == 45
    then minus (at_most 9_223_372_036_854_775_808 (not_empty cs cs))
    else if c == 43
    then pos (at_most 9_223_372_036_854_775_807 (not_empty cs cs))
    else pos (at_most 9_223_372_036_854_775_807 (decimal 0 (c ∷ cs)))

-- A line without `=` says nothing; the last line of a key counts.
abbrev pub add_prop : Option (Bytes × Bytes) → List (Bytes × Bytes) → List (Bytes × Bytes)
add_prop none props = props
add_prop (some (key, value)) props = set (trim_space key) (trim_space value) props

unfoldable pub add_props : List Bytes → List (Bytes × Bytes) → List (Bytes × Bytes)
unfolding split_at set trim_space
add_props [] props = props
add_props (line ∷ lines) props = add_props lines (add_prop (split_at 61 line) props)

unfoldable pub parse_systemctl_props : Bytes → List (Bytes × Bytes)
unfolding add_props split trim_space
parse_systemctl_props out = add_props (split 10 (trim_space out)) []

unfoldable pub words : Bytes → List Bytes
words [] = [] ∷ []
words (c ∷ cs) = let rest = words cs in if is_space c then [] ∷ rest else extend_first c rest

abbrev pub cons_word : Bytes → List Bytes → List Bytes
cons_word [] ws = ws
cons_word (c ∷ cs) ws = (c ∷ cs) ∷ ws

-- strings.Fields of ASCII text.
unfoldable pub without_empty : List Bytes → List Bytes
without_empty [] = []
without_empty (w ∷ ws) = cons_word w (without_empty ws)

abbrev pub third_or : ℤ → List Bytes → ℤ
third_or rest (a ∷ b ∷ c ∷ ws) = atoi_value c
third_or rest _ = rest

-- The effective id of the first line `Uid:` that has one.
unfoldable pub euid_of_lines : List Bytes → ℤ
unfolding has_prefix words without_empty atoi_value
euid_of_lines [] = pos 0
euid_of_lines (line ∷ lines) =
    let rest = euid_of_lines lines in
    if has_prefix (codes "Uid:") line then third_or rest (without_empty (words line)) else rest

abbrev pub euid_of : Option Bytes → ℤ
euid_of none = pos 0
euid_of (some text) = euid_of_lines (split 10 text)

abbrev pub or_empty : Option Bytes → Bytes
or_empty none = []
or_empty (some s) = s

abbrev pub with_sub : Bytes → Bytes → Bytes
with_sub state [] = state
with_sub state (c ∷ cs) = state ++ codes " (" ++ (c ∷ cs) ++ codes ")"

abbrev pub idle : Bool → Bytes → Status
idle installed state = record {
  installed = installed;
  active = false;
  pid = pos 0;
  euid = pos 0;
  state = state;
}

abbrev pub from_props : (ℤ → Option Bytes) → List (Bytes × Bytes) → Status
from_props proc_status props =
    let pid = atoi_value (or_empty (get (codes "MainPID") props)) in
    let active = bytes_eq (or_empty (get (codes "ActiveState") props)) (codes "active") in
    record {
      installed = true;
      active = active;
      pid = pid;
      euid = (if ltb_ℤ (pos 0) pid && active then euid_of (proc_status pid) else pos 0);
      state =
          with_sub (or_empty (get (codes "ActiveState") props))
            (or_empty (get (codes "SubState") props));
    }

abbrev pub shown : (ℤ → Option Bytes) → Exit → Bytes → Status
shown proc_status e output =
    if ran_well e
    then from_props proc_status (parse_systemctl_props output)
    else idle true (codes "unknown")

-- Status has no error.
unfoldable pub status : {M : Type 0} → System M → Machine M → Status
unfolding atoi_value parse_systemctl_props euid_of_lines get split
status sys m =
    if unit_missing sys m
    then idle false (codes "not installed")
    else (let (e, output) = sys.show m.manager in shown sys.proc_status e output)
