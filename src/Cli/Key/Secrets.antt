-- ===== src/Cli/Key/Secrets.antt =====
-- What the key commands print, and what they leave of the store.
use raxd.Prelude.{
  ℕ, ◌-◌, ◌≡◌, ◌≤◌, ◌<◌, refl, ap, List, [], ◌∷◌, ◌++◌, Bytes, codes, String, length, take,
  length-append, length-take, arith,
}
use raxd.Keystore.{Record, not_found, already_revoked, corrupt, label_too_long, exhausted, io}
use raxd.Server.Audit.{text, bytes}
use raxd.Cli.{
  repeat, length-repeat, Line, stdout, stderr, info, warning, table, CliError, of_store, of_paths,
  missing_id, table_failed, blank,
}
use raxd.Cli.Key.{
  Display, box, inner_of, truncate_ellipsis, or_dash, print_error, print_store_error, hints,
}

-- The three lines of the box have one length.
pub box-lengths :
    (key : Bytes)
    → (length (box key).0 ≡ length (box key).1.0) × (length (box key).1.1 ≡ length (box key).1.0)
unfolding box
box-lengths key =
    let w = length (inner_of key) in
    let a = length-append (repeat w 9472) (9488 ∷ []) in
    let b = length-append (repeat w 9472) (9496 ∷ []) in
    let c = length-append (inner_of key) (9474 ∷ []) in
    let r = length-repeat w 9472 in (omega (arith, a, c, r), omega (arith, b, c, r))

-- A text is printed whole where it has at most n code points, and else cut to exactly n.
pub truncate_ellipsis_lem :
    (s : Bytes) (n : ℕ)
    → 0 < n
    → (length s ≤ n → truncate_ellipsis s n ≡ s)
      × (n < length s → length (truncate_ellipsis s n) ≡ n)
unfolding truncate_ellipsis
truncate_ellipsis_lem s n p = (
  λ h. ground arith,
  λ h. ground (arith, length-append (take (n - 1) s) (8230 ∷ []), length-take (n - 1) s),
)

-- The lines on standard output, and those on standard error.
unfoldable pub stdout_of : List Line → List Line
stdout_of [] = []
stdout_of (stdout m ∷ ls) = stdout m ∷ stdout_of ls
stdout_of (table h rs ∷ ls) = table h rs ∷ stdout_of ls
stdout_of (stderr m ∷ ls) = stdout_of ls
stdout_of (info s kv ∷ ls) = stdout_of ls
stdout_of (warning s kv ∷ ls) = stdout_of ls

unfoldable pub stderr_of : List Line → List Line
stderr_of [] = []
stderr_of (stdout m ∷ ls) = stderr_of ls
stderr_of (table h rs ∷ ls) = stderr_of ls
stderr_of (stderr m ∷ ls) = stderr m ∷ stderr_of ls
stderr_of (info s kv ∷ ls) = info s kv ∷ stderr_of ls
stderr_of (warning s kv ∷ ls) = warning s kv ∷ stderr_of ls

pub stdout_of-append : (a b : List Line) → stdout_of (a ++ b) ≡ stdout_of a ++ stdout_of b
unfolding stdout_of
stdout_of-append [] b = refl
stdout_of-append (stdout m ∷ a) b = ap (λ (l : List Line). stdout m ∷ l) (stdout_of-append a b)
stdout_of-append (table h rs ∷ a) b = ap (λ (l : List Line). table h rs ∷ l) (stdout_of-append a b)
stdout_of-append (stderr m ∷ a) b = stdout_of-append a b
stdout_of-append (info s kv ∷ a) b = stdout_of-append a b
stdout_of-append (warning s kv ∷ a) b = stdout_of-append a b

-- What key create says of a key on standard error.
abbrev pub metadata : Display → Record → List Line
metadata d rec =
    stderr (text "  ! WARNING: This key will NOT be shown again. Save it now." ∷ [])
    ∷ stderr blank
    ∷ stderr (text "  id        " ∷ bytes rec.id ∷ [])
    ∷ stderr (text "  label     " ∷ bytes (or_dash (codes rec.label)) ∷ [])
    ∷ stderr (text "  created   " ∷ bytes (d.date rec.created) ∷ [])
    ∷ stderr blank
    ∷ info "key created" (
        ("action", text "create" ∷ [])
        ∷ ("id", bytes rec.id ∷ [])
        ∷ ("fingerprint", bytes rec.fingerprint ∷ [])
        ∷ [])
    ∷ []

hints_stdout : (hs : List String) → stdout_of (hints hs) ≡ []
unfolding stdout_of
hints_stdout [] = refl
hints_stdout (h ∷ hs) = hints_stdout hs

pub error_stdout :
    (d : Display) (e : CliError) (op : Bytes) → stdout_of (print_store_error d e op) ≡ []
unfolding print_store_error print_error stdout_of
error_stdout d (of_store not_found) op = refl
error_stdout d (of_store already_revoked) op = refl
error_stdout d (of_store corrupt) op = refl
error_stdout d (of_store label_too_long) op = refl
error_stdout d (of_store exhausted) op = refl
error_stdout d (of_store (io s)) op = refl
error_stdout d (of_paths e) op = refl
error_stdout d missing_id op = refl
error_stdout d table_failed op = refl
