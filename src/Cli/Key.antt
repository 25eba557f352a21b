-- ===== src/Cli/Key.antt =====
-- internal/cli/key.go: the commands key create, key list and key delete.
pub mod Secrets
pub mod Failures
use raxd.Prelude.{
  ℕ, zero, suc, ◌+◌, ◌-◌, Bool, true, false, Option, none, some, List, [], ◌∷◌, ◌++◌, Bytes,
  bytes_eq, codes, length, take, String, if◌then◌else◌, ◌==◌, leb,
}
use raxd.Prelude.Exec.{Exec, Result, ok, err, pure, raise, ◌>>=◌, ◌>>◌, when}
use raxd.Server.Audit.{Message, text, bytes}
use raxd.Keystore.{
  Record, World, Faults, StoreError, not_found, already_revoked, corrupt, label_too_long, exhausted,
  io,
}
use raxd.Keystore.Exec.{Exec as StoreExec}
use raxd.Keystore.Store.{Entropy, open_store, create, list, revoke}
use raxd.Config.Paths.{Environment, PathsError, no_home, not_created, PathSet, paths}
use raxd.Cli.{
  repeat, Line, stdout, stderr, info, table, CliError, of_store, of_paths, missing_id, table_failed,
  Shell, Command, print, blank,
}

-- time.Time.Format with the layout of a date, strconv.Quote, and whether tablewriter fails.
pub record Display : Type 0 where
  pub date : ℕ → Bytes
  pub quote : Bytes → Bytes
  pub table_fails : Bool

abbrev pub hint : Message → Line
hint h = stderr (text "  hint: " ∷ h)

abbrev pub hints : List String → List Line
hints [] = []
hints (h ∷ hs) = hint (text h ∷ []) ∷ hints hs

unfoldable pub print_error : Message → List String → List Line
print_error message hs = stderr (text "error: " ∷ message) ∷ hints hs

-- The text of an error that no case names.
abbrev pub error_text : CliError → Message
error_text (of_store (io s)) = text s ∷ []
error_text (of_store e) = []
error_text (of_paths no_home) =
    text "cannot resolve config paths: cannot determine config directory: $HOME is not set" ∷ []
error_text (of_paths (not_created d)) = []
error_text missing_id = text "missing id argument" ∷ []
error_text table_failed = text "cannot render table" ∷ []

module _ (d : Display) where
  abbrev pub default_error : CliError → Bytes → List Line
  default_error e op = print_error (bytes op ∷ text ": " ∷ error_text e) []

  -- printStoreError
  unfoldable pub print_store_error : CliError → Bytes → List Line
  unfolding print_error
  print_store_error (of_store corrupt) op =
      print_error (text "key store is corrupted or unreadable" ∷ []) (
        "check file permissions on keys.db (must be readable by current user)"
        ∷ "do not attempt to repair the file manually — contact support if data recovery is needed"
        ∷ [])
  print_store_error (of_store label_too_long) op =
      print_error (text "label is too long (max 64 characters)" ∷ [])
        ("choose a shorter label and try again" ∷ [])
  print_store_error (of_store not_found) op =
      print_error (text "key " ∷ bytes (d.quote op) ∷ text " not found" ∷ [])
        ("run \"raxd key list\" to see available key IDs" ∷ [])
  print_store_error (of_store already_revoked) op =
      print_error (text "key " ∷ bytes (d.quote op) ∷ text " is already revoked" ∷ [])
        ("run \"raxd key list\" to see active keys" ∷ [])
  print_store_error e op = default_error e op

  abbrev pub report : {A : Type 0} → Bytes → Result CliError A × Shell → Result CliError A × Shell
  report op (ok a, s) = (ok a, s)
  report op (err e, s) = (err e, record s { console = s.console ++ print_store_error e op })

  -- `if err != nil { printStoreError(stderr, err, op); return err }`
  abbrev pub reporting : {A : Type 0} → Bytes → Command A → Command A
  reporting op m s = report op (m s)

  abbrev pub of_result : {A : Type 0} → Result StoreError A → Result CliError A
  of_result (ok a) = ok a
  of_result (err e) = err (of_store e)

  -- A method of the store that was opened.
  abbrev pub on_store : {A : Type 0} → StoreExec A → Command A
  on_store m s = let (r, w) = m s.store in (of_result r, record s { store = w })

  abbrev pub opened : Faults → Result PathsError PathSet → Command (Unit {0})
  opened f (err e) s = (err (of_paths e), s)
  opened f (ok p) s = (of_result (open_store f s.store), s)

  -- openStore: the store is that at KeysDB.
  abbrev pub open_keys : Environment → Faults → Command (Unit {0})
  open_keys env f = opened f (paths env)

abbrev pub inner_of : Bytes → Bytes
inner_of key = codes "  " ++ key ++ codes "  "

-- The three lines of the box: 9472 is ─, 9474 is │, the corners are 9484, 9488, 9492 and 9496.
unfoldable pub box : Bytes → Bytes × (Bytes × Bytes)
unfolding repeat
box key =
    let width = length (inner_of key) in
    (
      9484 ∷ repeat width 9472 ++ 9488 ∷ [],
      (9474 ∷ inner_of key ++ 9474 ∷ [], 9492 ∷ repeat width 9472 ++ 9496 ∷ []),
    )

unfoldable pub print_key_box : Bytes → List Line
print_key_box key =
    let (top, (mid, bot)) = box key in
    stdout (bytes top ∷ []) ∷ stdout (bytes mid ∷ []) ∷ stdout (bytes bot ∷ []) ∷ []

abbrev pub or_dash : Bytes → Bytes
or_dash [] = codes "-"
or_dash (c ∷ cs) = c ∷ cs

unfoldable pub truncate_ellipsis : Bytes → ℕ → Bytes
truncate_ellipsis s n = if leb (length s) n then s else take (n - 1) s ++ 8230 ∷ []

-- What key create prints where it succeeds: the warning, the key, and what is known of it.
unfoldable pub created_lines : Display → Bytes → Record → List Line
unfolding print_key_box
created_lines d body rec =
    stderr (text "  ! WARNING: This key will NOT be shown again. Save it now." ∷ [])
    ∷ stderr blank
    ∷ (print_key_box body
        ++ stdout blank
          ∷ stderr (text "  id        " ∷ bytes rec.id ∷ [])
          ∷ stderr (text "  label     " ∷ bytes (or_dash (codes rec.label)) ∷ [])
          ∷ stderr (text "  created   " ∷ bytes (d.date rec.created) ∷ [])
          ∷ stderr blank
          ∷ info "key created" (
              ("action", text "create" ∷ [])
              ∷ ("id", bytes rec.id ∷ [])
              ∷ ("fingerprint", bytes rec.fingerprint ∷ [])
              ∷ [])
          ∷ [])

unfoldable pub run_key_create :
    (Bytes → Bytes)
    → Display
    → Environment
    → Faults
    → Faults
    → Entropy
    → ℕ
    → String
    → Command (Unit {0})
unfolding print_store_error
run_key_create sha256 d env f_open f e now label = do
  reporting d (codes "create") (open_keys d env f_open)
  made ← reporting d (codes "create") (on_store d (create sha256 f e now label))
  print (created_lines d made.0 made.1)

abbrev pub last_used : Display → ℕ → Bytes
last_used d zero = codes "never"
last_used d (suc n) = d.date (suc n)

abbrev pub row : Display → Record → List Bytes
row d r =
    (codes "  " ++ r.id)
    ∷ truncate_ellipsis (or_dash (codes r.label)) 20
    ∷ d.date r.created
    ∷ last_used d r.last_used
    ∷ []

unfoldable pub rows : Display → List Record → List (List Bytes)
unfolding truncate_ellipsis
rows d [] = []
rows d (r ∷ rs) = row d r ∷ rows d rs

abbrev pub list_lines : Display → List Record → List Line
list_lines d [] =
    stdout (text "  No API keys found." ∷ [])
    ∷ stdout (text "  hint: create your first key with \"raxd key create --name <label>\"" ∷ [])
    ∷ []
list_lines d (r ∷ rs) =
    table ("  ID" ∷ "LABEL" ∷ "CREATED" ∷ "LAST USED" ∷ []) (rows d (r ∷ rs)) ∷ []

abbrev pub table_fault : Display → List Record → Command (Unit {0})
table_fault d [] = pure tt
table_fault d (r ∷ rs) = when d.table_fails (raise table_failed)

unfoldable pub run_key_list : Display → Environment → Faults → Faults → Command (Unit {0})
unfolding print_store_error
run_key_list d env f_open f = do
  reporting d (codes "list") (open_keys d env f_open)
  records ← reporting d (codes "list") (on_store d (list f))
  table_fault d records
  print (list_lines d records)

-- The loop over the records of List.
unfoldable pub fingerprint_of : Bytes → List Record → Bytes
fingerprint_of id [] = []
fingerprint_of id (r ∷ rs) =
    let rest = fingerprint_of id rs in if bytes_eq r.id id then r.fingerprint else rest

abbrev pub found_fingerprint :
    Bytes → Result CliError (List Record) × Shell → Result CliError Bytes × Shell
found_fingerprint id (ok rs, s) = (ok (fingerprint_of id rs), s)
found_fingerprint id (err e, s) = (ok [], s)

-- The fingerprint for the log; an error of List is ignored.
abbrev pub look_up : Display → Faults → Bytes → Command Bytes
look_up d f id s = found_fingerprint id (on_store d (list f) s)

unfoldable pub deleted_lines : Bytes → Bytes → List Line
deleted_lines id fp =
    stderr (text "  key " ∷ bytes id ∷ text " revoked" ∷ [])
    ∷ stderr (text "  hint: the key can no longer be used for authentication" ∷ [])
    ∷ info "key revoked" (
        ("action", text "delete" ∷ [])
        ∷ ("id", bytes id ∷ [])
        ∷ ("fingerprint", bytes fp ∷ [])
        ∷ [])
    ∷ []

-- The arguments of the command; the system calls of Open, List and Revoke fail each on their own.
unfoldable pub run_key_delete :
    Display → Environment → Faults → Faults → Faults → ℕ → List Bytes → Command (Unit {0})
unfolding print_store_error
run_key_delete d env f_open f_list f now [] = do
  print (
      print_error (text "key delete requires an id argument" ∷ [])
        ("run \"raxd key list\" to find the key ID, then use \"raxd key delete <id>\"" ∷ []))
  raise missing_id
run_key_delete d env f_open f_list f now (id ∷ ids) = do
  reporting d (codes "delete") (open_keys d env f_open)
  fp ← look_up d f_list id
  reporting d id (on_store d (revoke f now id))
  print (deleted_lines id fp)
