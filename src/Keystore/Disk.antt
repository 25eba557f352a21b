-- ===== src/Keystore/Disk.antt =====
-- internal/keystore: acquireLock of lock.go, readDB and writeDB of keystore.go. The lock itself
-- is the subject of Keystore/Locking; here it matters that an exclusive lock creates the file.
use raxd.Prelude.{Bool, true, false, Option, none, some, List, [], ◌∷◌, if◌then◌else◌}
use raxd.Keystore.{Database, corrupt, io, Contents, empty, malformed, json, Faults}
use raxd.Keystore.Exec.{Exec, ok, err, pure, raise, ◌>>◌, attempt}

pub data LockMode : Type 0 where
  lock_shared lock_exclusive : LockMode

-- O_CREATE makes an absent file, with no bytes.
abbrev pub or_empty : Option Contents → Contents
or_empty none = empty
or_empty (some c) = c

abbrev pub is_some : Option Contents → Bool
is_some none = false
is_some (some c) = true

abbrev flock : Faults → Exec Bool
flock f = if f.flock_fails then raise (io "key store is locked by another process") else pure true

-- `false` is the nil handle: the file is absent and only shared access was asked for.
unfoldable pub acquire_lock : Faults → LockMode → Exec Bool
acquire_lock f lock_shared w =
    if f.open_fails
    then (err (io "cannot open key store"), w)
    else if is_some w.file
    then flock f w
    else (ok false, w)
acquire_lock f lock_exclusive w =
    if f.open_fails
    then (err (io "cannot open key store"), w)
    else flock f (record w { file = some (or_empty w.file) })

abbrev pub empty_db : Database
empty_db = record { version = 1; keys = [] }

-- `json.Unmarshal` after the tests on absence, the read error and the empty file.
abbrev unmarshal : Contents → Exec Database
unmarshal empty = pure empty_db
unmarshal malformed = raise corrupt
unmarshal (json db) = pure db

abbrev read_contents : Bool → Option Contents → Exec Database
read_contents fails none = pure empty_db
read_contents true (some c) = raise corrupt
read_contents false (some c) = unmarshal c

unfoldable pub read_db : Faults → Exec Database
read_db f w = read_contents f.read_fails w.file w

create_temp : Exec (Unit {0})
create_temp w = (ok tt, record w { temps = empty ∷ w.temps })

abbrev replace_newest : Contents → List Contents → List Contents
replace_newest c [] = []
replace_newest c (t ∷ ts) = c ∷ ts

write_temp : Contents → Exec (Unit {0})
write_temp c w = (ok tt, record w { temps = replace_newest c w.temps })

abbrev without_newest : List Contents → List Contents
without_newest [] = []
without_newest (t ∷ ts) = ts

-- A failing os.Remove is ignored.
remove_temp : Faults → Exec (Unit {0})
remove_temp f w = (ok tt, if f.remove_fails then w else record w { temps = without_newest w.temps })

abbrev newest : Option Contents → List Contents → Option Contents
newest file [] = file
newest file (t ∷ ts) = some t

rename_temp : Exec (Unit {0})
rename_temp w = (ok tt, record w { file = newest w.file w.temps; temps = without_newest w.temps })

-- A write that fails may have left part of the bytes.
unfoldable pub write_db : Faults → Database → Exec (Unit {0})
unfolding create_temp write_temp remove_temp rename_temp
write_db f db = do
  attempt f.marshal_fails (pure tt) (io "cannot serialise key store")
  attempt f.create_fails (pure tt) (io "cannot create temp file for key store")
  create_temp
  attempt f.chmod_fails (remove_temp f) (io "cannot set temp file permissions")
  attempt f.write_fails (write_temp malformed >> remove_temp f) (io "cannot write key store")
  write_temp (json db)
  attempt f.sync_fails (remove_temp f) (io "cannot sync key store")
  attempt f.close_fails (remove_temp f) (io "cannot close temp key store")
  attempt f.rename_fails (remove_temp f) (io "cannot commit key store")
  rename_temp
