-- ===== src/Server/Tls.antt =====
-- internal/server/tls.go: the certificate and its key on disk, and how a start loads or makes them.
pub mod Pair
use raxd.Prelude.{
  ℕ, Bool, true, false, not, ◌&&◌, ◌||◌, Option, none, some, List, [], ◌∷◌, Bytes, ltb, length,
  if◌then◌else◌,
}
use raxd.Prelude.Exec.{Exec, Result, ok, err, pure, raise, attempt, when, ◌>>=◌, ◌>>◌}

-- `corrupt` is ErrTLSCert; `generation` any error that generateSelfSigned returns.
pub data TlsError : Type 0 where
  corrupt generation : TlsError

pub record File : Type 0 where
  pub mode : ℕ
  pub contents : Bytes

-- cert.pem, key.pem, and the temporary files beside them, the newest first.
pub record Disk : Type 0 where
  pub cert : Option File
  pub key : Option File
  pub temps : List File

-- Which calls of one writePEM fail; `part` is what pem.Encode has written where it fails.
pub record PemFaults : Type 0 where
  pub create_fails : Bool
  pub chmod_fails : Bool
  pub encode_fails : Bool
  pub part : Bytes
  pub sync_fails : Bool
  pub close_fails : Bool
  pub rename_fails : Bool

-- What one start meets: the two key files as crypto/ecdsa and crypto/x509 make them in PEM, `none`
-- where one of these calls fails, and the calls that fail. `pairs` says whether
-- tls.LoadX509KeyPair takes the contents of a certificate and a key.
pub record Crypto : Type 0 where
  pub generated : Option (Bytes × Bytes)
  pub pairs : Bytes → Bytes → Bool
  pub stat_cert_fails : Bool
  pub stat_key_fails : Bool
  pub read_fails : Bool
  pub remove_fails : Bool
  pub key_faults : PemFaults
  pub cert_faults : PemFaults

pub data CertResult : Type 0 where
  loaded generated : CertResult

abbrev pub Action : Type 0 → Type 0
Action A = Exec TlsError Disk A

pub data Slot : Type 0 where
  cert_pem key_pem : Slot

abbrev pub without_newest : List File → List File
without_newest [] = []
without_newest (t ∷ ts) = ts

abbrev pub replace_newest : Bytes → List File → List File
replace_newest contents [] = []
replace_newest contents (t ∷ ts) = record t { contents = contents } ∷ ts

abbrev pub with_mode : ℕ → List File → List File
with_mode perm [] = []
with_mode perm (t ∷ ts) = record t { mode = perm } ∷ ts

-- os.CreateTemp makes an empty file of mode 0600.
abbrev pub create_temp : Action (Unit {0})
create_temp d = (ok tt, record d { temps = record { mode = 384; contents = [] } ∷ d.temps })

abbrev pub chmod_temp : ℕ → Action (Unit {0})
chmod_temp perm d = (ok tt, record d { temps = with_mode perm d.temps })

abbrev pub write_temp : Bytes → Action (Unit {0})
write_temp contents d = (ok tt, record d { temps = replace_newest contents d.temps })

-- A failing os.Remove is ignored.
abbrev pub remove_temp : Bool → Action (Unit {0})
remove_temp fails d = (ok tt, if fails then d else record d { temps = without_newest d.temps })

abbrev pub put_newest : Slot → List File → Disk → Disk
put_newest slot [] d = d
put_newest cert_pem (t ∷ ts) d = record d { cert = some t; temps = ts }
put_newest key_pem (t ∷ ts) d = record d { key = some t; temps = ts }

abbrev pub rename_temp : Slot → Action (Unit {0})
rename_temp slot d = (ok tt, put_newest slot d.temps d)

-- Where the rename fails, the temporary file stays.
unfoldable pub write_pem : PemFaults → Bool → Slot → ℕ → Bytes → Action (Unit {0})
write_pem f remove_fails slot perm contents = do
  attempt f.create_fails (pure tt) generation
  create_temp
  attempt f.chmod_fails (remove_temp remove_fails) generation
  chmod_temp perm
  attempt f.encode_fails (write_temp f.part >> remove_temp remove_fails) generation
  write_temp contents
  attempt f.sync_fails (remove_temp remove_fails) generation
  attempt f.close_fails (remove_temp remove_fails) generation
  attempt f.rename_fails (pure tt) generation
  rename_temp slot

abbrev pub contents_of : Option File → Bytes
contents_of none = []
contents_of (some file) = file.contents

-- tls.LoadX509KeyPair
abbrev pub loads : Crypto → Disk → Bool
loads c d = not c.read_fails && c.pairs (contents_of d.cert) (contents_of d.key)

-- A failing os.Stat counts as an absent file, and so does an empty file.
abbrev pub file_exists : Bool → Option File → Bool
file_exists stat_fails none = false
file_exists stat_fails (some file) = not stat_fails && ltb 0 (length file.contents)

-- os.Remove of the key.
abbrev pub remove_key : Bool → Action (Unit {0})
remove_key fails d = (ok tt, if fails then d else record d { key = none })

abbrev pub or_clean_up :
    Bool → Result TlsError (Unit {0}) × Disk → Result TlsError (Unit {0}) × Disk
or_clean_up remove_fails (ok u, d) = (ok u, d)
or_clean_up remove_fails (err e, d) = (err e, (remove_key remove_fails d).1)

-- 384 is 0600, 420 is 0644.
abbrev pub write_pair : Crypto → Option (Bytes × Bytes) → Action (Unit {0})
write_pair c none = raise generation
write_pair c (some (cert, key)) = do
  write_pem c.key_faults c.remove_fails key_pem 384 key
  λ d. or_clean_up c.remove_fails (write_pem c.cert_faults c.remove_fails cert_pem 420 cert d)

abbrev pub check_loads : Crypto → Action CertResult
check_loads c d = (if loads c d then ok generated else err generation, d)

unfoldable pub generate_self_signed : Crypto → Action CertResult
generate_self_signed c = do write_pair c c.generated; check_loads c

unfoldable pub load_or_create_cert : Crypto → Action CertResult
load_or_create_cert c d =
    let cert_exists = file_exists c.stat_cert_fails d.cert in
    let key_exists = file_exists c.stat_key_fails d.key in
    if cert_exists && key_exists
    then (if loads c d then ok loaded else err corrupt, d)
    else if cert_exists || key_exists
    then (err corrupt, d)
    else generate_self_signed c d
