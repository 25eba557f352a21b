-- ===== src/Service/Passwd.antt =====
-- internal/service/systemd.go: verifyTargetUserLinux with parsePasswdLine, and the exit codes of
-- userdel.
use raxd.Prelude.{
  ℕ, ◌+◌, ◌*◌, ◌-◌, Bool, true, false, not, ◌&&◌, ◌||◌, Option, none, some, List, [], ◌∷◌, Bytes,
  bytes_eq, codes, if◌then◌else◌, ◌==◌, leb, String,
}
use raxd.Prelude.Exec.{Result, ok, err}
use raxd.Prelude.Int.{ℤ, pos, negsuc, ltb_ℤ}
use raxd.Server.Audit.{text, number}
use raxd.Service.{Sentinel, ServiceError, wrap_err, permission, manager_unavailable, user_mismatch}

-- How a command ends: with this exit code, or it could not be run.
pub data Exit : Type 0 where
  exited : ℕ → Exit
  not_run : Exit

abbrev pub ran_well : Exit → Bool
ran_well (exited code) = code == 0
ran_well not_run = false

abbrev pub is_exit_code : Exit → ℕ → Bool
is_exit_code (exited code) n = code == n
is_exit_code not_run n = false

unfoldable pub decimal : ℕ → Bytes → Option ℕ
decimal acc [] = some acc
decimal acc (c ∷ cs) =
    let rest = decimal (acc * 10 + (c - 48)) cs in if leb 48 c && leb c 57 then rest else none

abbrev pub not_empty : Bytes → Bytes → Option ℕ
not_empty [] digits = none
not_empty (c ∷ cs) digits = decimal 0 digits

abbrev pub up_to : ℕ → Option ℕ → Option ℕ
up_to limit none = none
up_to limit (some n) = if leb n limit then some n else none

abbrev pub signed : Option ℕ → Option ℤ
signed none = none
signed (some n) = some (pos n)

abbrev pub negated : Option ℕ → Option ℤ
negated none = none
negated (some n) = some (if n == 0 then pos 0 else negsuc (n - 1))

-- strconv.Atoi
unfoldable pub atoi : Bytes → Option ℤ
unfolding decimal
atoi [] = none
atoi (c ∷ cs) =
    if c == 45
    then negated (up_to 9_223_372_036_854_775_808 (not_empty cs cs))
    else if c == 43
    then signed (up_to 9_223_372_036_854_775_807 (not_empty cs cs))
    else signed (up_to 9_223_372_036_854_775_807 (decimal 0 (c ∷ cs)))

abbrev pub extend_first : ℕ → List Bytes → List Bytes
extend_first c [] = (c ∷ []) ∷ []
extend_first c (p ∷ ps) = (c ∷ p) ∷ ps

-- strings.Split at a byte.
unfoldable pub split : ℕ → Bytes → List Bytes
split b [] = [] ∷ []
split b (c ∷ cs) = let rest = split b cs in if c == b then [] ∷ rest else extend_first c rest

abbrev pub is_space : ℕ → Bool
is_space c = c == 32 || leb 9 c && leb c 13

unfoldable pub trim_left : Bytes → Bytes
trim_left [] = []
trim_left (c ∷ cs) = let rest = trim_left cs in if is_space c then rest else c ∷ cs

abbrev pub cons_kept : ℕ → Bytes → Bytes
cons_kept c [] = if is_space c then [] else c ∷ []
cons_kept c (d ∷ ds) = c ∷ d ∷ ds

unfoldable pub trim_right : Bytes → Bytes
trim_right [] = []
trim_right (c ∷ cs) = cons_kept c (trim_right cs)

-- strings.TrimSpace of ASCII text.
unfoldable pub trim_space : Bytes → Bytes
unfolding trim_left trim_right
trim_space s = trim_right (trim_left s)

unfoldable pub is_no_login_shell : Bytes → Bool
is_no_login_shell s =
    bytes_eq s (codes "/usr/sbin/nologin")
    || bytes_eq s (codes "/sbin/nologin")
    || bytes_eq s (codes "/usr/bin/false")

-- uid <= 0 || uid >= 1000 is refused.
abbrev pub is_system_uid : Option ℤ → Bool
is_system_uid none = false
is_system_uid (some uid) = ltb_ℤ (pos 0) uid && ltb_ℤ uid (pos 1000)

abbrev pub fails_with : {A : Type 0} → Sentinel → String → Result ServiceError A
fails_with sentinel detail = err (wrap_err sentinel (text detail ∷ []))

-- At least seven fields; the first, the third and the seventh are read.
abbrev pub check_fields : Bytes → List Bytes → Result ServiceError Bool
check_fields name (user ∷ password ∷ uid ∷ gid ∷ gecos ∷ home ∷ shell ∷ rest) =
    if not (bytes_eq user name)
    then fails_with user_mismatch "username does not match expected raxd account"
    else if not (is_system_uid (atoi uid))
    then fails_with user_mismatch "uid is not in system account range [1,999]"
    else if not (is_no_login_shell shell)
    then fails_with user_mismatch "user has a login shell — not a raxd system account"
    else ok true
check_fields name _ = fails_with manager_unavailable "getent passwd: unexpected output format"

unfoldable pub parse_passwd_line : Bytes → Bytes → Result ServiceError Bool
unfolding split
parse_passwd_line line name = check_fields name (split 58 line)

abbrev pub check_line : Bytes → Bytes → Result ServiceError Bool
check_line name [] = ok false
check_line name (c ∷ cs) = parse_passwd_line (c ∷ cs) name

-- A getent that cannot be run counts as an absent user.
abbrev pub check_exit : Bytes → Exit → Bytes → Result ServiceError Bool
check_exit name not_run output = ok false
check_exit name (exited code) output =
    if code == 0
    then check_line name (trim_space output)
    else if code == 2
    then ok false
    else fails_with manager_unavailable "getent passwd failed"

unfoldable pub verify_target_user_linux : (Bytes → Exit × Bytes) → Bytes → Result ServiceError Bool
unfolding parse_passwd_line trim_space is_no_login_shell atoi
verify_target_user_linux getent name = let (e, output) = getent name in check_exit name e output

unfoldable pub map_userdel_exit_code : ℕ → Result ServiceError (Unit {0})
map_userdel_exit_code code =
    if code == 0
    then ok tt
    else if code == 6
    then ok tt
    else if code == 1
    then fails_with permission "userdel: insufficient privileges"
    else if code == 10
    then fails_with permission "userdel: cannot update group file"
    else if code == 8
    then fails_with manager_unavailable "userdel: user is currently logged in"
    else err (
        wrap_err manager_unavailable
          (text "userdel: unexpected exit code " ∷ number (pos code) ∷ []))

-- What deleteUserLinux makes of the end of userdel.
abbrev pub userdel_result : Exit → Result ServiceError (Unit {0})
userdel_result (exited code) = map_userdel_exit_code code
userdel_result not_run = fails_with manager_unavailable "userdel: unexpected error"
