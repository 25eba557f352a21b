-- ===== src/Server/Tls/Pair.antt =====
-- What a start leaves of the certificate and its key.
use raxd.Prelude.{
  ℕ, ◌≡◌, ◌≢◌, refl, ap, sym, ◌∙◌, Bool, true, false, not, ◌&&◌, ◌||◌, none, some, [], Bytes,
  length, arith, ◌⊎◌, inl, inr, if◌then◌else◌, Option-cases, ◌<◌,
}
use raxd.Prelude.Exec.{Result, ok, err, Result-cases}
use raxd.Server.Tls.{
  TlsError, generation, File, Disk, PemFaults, Crypto, CertResult, loaded, generated, cert_pem,
  key_pem, write_pem, loads, file_exists, generate_self_signed, load_or_create_cert,
}

-- One of the two files is there, and no os.Stat fails: then both are there and are taken, or the
-- start fails.
pub existing_kept :
    (c : Crypto) (d : Disk)
    → (file_exists c.stat_cert_fails d.cert || file_exists c.stat_key_fails d.key) ≡ true
    → ((load_or_create_cert c d).1 ≡ d) × ((load_or_create_cert c d).0 ≢ ok generated)
unfolding load_or_create_cert
existing_kept c d h = ground arith

module _ (f : PemFaults) (remove_fails : Bool) (perm : ℕ) (contents : Bytes) (d : Disk) where
  abbrev file : File
  file = record { mode = perm; contents = contents }

  write_key-ok :
      (write_pem f remove_fails key_pem perm contents d).0 ≡ ok tt
      → (write_pem f remove_fails key_pem perm contents d).1 ≡ record d { key = some file }
  unfolding write_pem
  write_key-ok h = ground arith

  write_key-err :
      {e : TlsError}
      → (write_pem f remove_fails key_pem perm contents d).0 ≡ err e
      → ((write_pem f remove_fails key_pem perm contents d).1.key ≡ d.key)
        × ((write_pem f remove_fails key_pem perm contents d).1.cert ≡ d.cert)
  unfolding write_pem
  write_key-err h = ground arith

  write_cert-ok :
      (write_pem f remove_fails cert_pem perm contents d).0 ≡ ok tt
      → (write_pem f remove_fails cert_pem perm contents d).1 ≡ record d { cert = some file }
  unfolding write_pem
  write_cert-ok h = ground arith

  write_cert-err :
      {e : TlsError}
      → (write_pem f remove_fails cert_pem perm contents d).0 ≡ err e
      → ((write_pem f remove_fails cert_pem perm contents d).1.key ≡ d.key)
        × ((write_pem f remove_fails cert_pem perm contents d).1.cert ≡ d.cert)
  unfolding write_pem
  write_cert-err h = ground arith

module _ (c : Crypto) (d : Disk) (cert key : Bytes) (made : c.generated ≡ some (cert, key)) where
  abbrev both : Disk
  both = record d {
    cert = some (record { mode = 420; contents = cert });
    key = some (record { mode = 384; contents = key });
  }

  abbrev keyed : Disk
  keyed = record d { key = some (record { mode = 384; contents = key }) }

  abbrev key_write : Result TlsError (Unit {0}) × Disk
  key_write = write_pem c.key_faults c.remove_fails key_pem 384 key d

  abbrev cert_write : Result TlsError (Unit {0}) × Disk
  cert_write = write_pem c.cert_faults c.remove_fails cert_pem 420 cert keyed

  generate_no_key :
      {e : TlsError} → key_write.0 ≡ err e → generate_self_signed c d ≡ (err e, key_write.1)
  unfolding generate_self_signed
  generate_no_key k = ground arith

  generate_no_cert :
      {e : TlsError}
      → key_write.0 ≡ ok tt
      → cert_write.0 ≡ err e
      → ((generate_self_signed c d).0 ≡ err e)
        × ((generate_self_signed c d).1
            ≡ (if c.remove_fails then cert_write.1 else record cert_write.1 { key = none }))
  unfolding generate_self_signed
  generate_no_cert k w = ground (arith, write_key-ok c.key_faults c.remove_fails 384 key d k)

  generate_both :
      key_write.0 ≡ ok tt
      → cert_write.0 ≡ ok tt
      → generate_self_signed c d ≡ (if loads c both then ok generated else err generation, both)
  unfolding generate_self_signed
  generate_both k w = ground (
    arith,
    write_key-ok c.key_faults c.remove_fails 384 key d k,
    write_cert-ok c.cert_faults c.remove_fails 420 cert keyed w,
  )

not_ok : {A : Type 0} {e : TlsError} {a : A} → ◌≢◌ {A = Result TlsError A} (err e) (ok a)
not_ok h = cc

accepted_of :
    (b : Bool)
    → ◌≡◌ {A = Result TlsError CertResult}
        (if b then ok generated else err generation)
        (ok generated)
    → b ≡ true
accepted_of true h = refl
accepted_of false h = absurd (not_ok h)

module _ (c : Crypto) (d : Disk) where
  not_made : c.generated ≡ none → generate_self_signed c d ≡ (err generation, d)
  unfolding generate_self_signed
  not_made n = ground arith

  -- What a start that made the files has made.
  pub record Made : Type 0 where
    pub cert : Bytes
    pub key : Bytes
    pub drawn : c.generated ≡ some (cert, key)
    pub accepted : loads c (both c d cert key drawn) ≡ true
    pub disk : (generate_self_signed c d).1 ≡ both c d cert key drawn

  made_with :
      (cert key : Bytes) (m : c.generated ≡ some (cert, key))
      → (generate_self_signed c d).0 ≡ ok generated
      → Made
  made_with cert key m h = elim (Result-cases (key_write c d cert key m).0) [
    | inr (e, k) ↦ absurd (
        not_ok (
          sym
            (ap (λ (r : Result TlsError CertResult × Disk). r.0) (generate_no_key c d cert key m k))
          ∙ h))
    | inl (u, k) ↦ elim (Result-cases (cert_write c d cert key m).0) [
      | inr (e, w) ↦ absurd (not_ok (sym ((generate_no_cert c d cert key m k w).0) ∙ h))
      | inl (v, w) ↦
          let all = generate_both c d cert key m k w in
          record {
            cert = cert;
            key = key;
            drawn = m;
            accepted =
                accepted_of (loads c (both c d cert key m))
                  (sym (ap (λ (r : Result TlsError CertResult × Disk). r.0) all) ∙ h);
            disk = rw all refl;
          }
    ]
  ]

  made : (generate_self_signed c d).0 ≡ ok generated → Made
  made h = elim (Option-cases c.generated) [
    | inl n ↦
        absurd (not_ok (sym (ap (λ (r : Result TlsError CertResult × Disk). r.0) (not_made n)) ∙ h))
    | inr ((cert, key), m) ↦ made_with cert key m h
  ]

  generates :
      (load_or_create_cert c d).0 ≡ ok generated
      → load_or_create_cert c d ≡ generate_self_signed c d
  unfolding load_or_create_cert
  generates h = ground arith

loads_existing :
    (c : Crypto) (d : Disk)
    → file_exists c.stat_cert_fails d.cert ≡ true
    → file_exists c.stat_key_fails d.key ≡ true
    → loads c d ≡ true
    → load_or_create_cert c d ≡ (ok loaded, d)
unfolding load_or_create_cert
loads_existing c d x y l = ground arith

-- Let a start make the certificate and the key, with contents that are not empty. Then a later
-- start that can read the files, with the same test of a pair, takes them and changes nothing,
-- whatever it would make.
pub generated_then_loaded :
    (c later : Crypto) (d : Disk)
    → (load_or_create_cert c d).0 ≡ ok generated
    → (m : (cert key : Bytes)
        → c.generated ≡ some (cert, key)
        → (0 < length cert) × (0 < length key))
    → ((cert key : Bytes) → later.pairs cert key ≡ c.pairs cert key)
    → later.stat_cert_fails ≡ false
    → later.stat_key_fails ≡ false
    → later.read_fails ≡ false
    → load_or_create_cert later (load_or_create_cert c d).1
      ≡ (ok loaded, (load_or_create_cert c d).1)
generated_then_loaded c later d h sizes same s t r =
    let e = generates c d h in
    let x = made c d (rw (sym e) h) in
    let (lc, lk) = sizes x.cert x.key x.drawn in
    rw (e, x.disk)
      (loads_existing later (both c d x.cert x.key x.drawn) (rw s (ground arith))
        (rw t (ground arith)) (rw (r, same x.cert x.key) (ground (arith, x.accepted))))

without_key :
    (fails : Bool) (e x : Disk)
    → e ≡ (if fails then x else record x { key = none })
    → fails ≡ false
    → x.cert ≡ none
    → (e.cert ≡ none) × (e.key ≡ none)
without_key true e x p f n = cc
without_key false e x p f n = (ground (arith), ground arith)

module _ (c : Crypto) (d : Disk) where
  -- Neither file is there, or both are.
  abbrev pub Settled : Disk → Type 0
  Settled e = ((e.cert ≡ none) × (e.key ≡ none)) ⊎ ((e.cert ≢ none) × (e.key ≢ none))

  generate-Settled :
      c.remove_fails ≡ false → d.cert ≡ none → d.key ≡ none → Settled (generate_self_signed c d).1
  generate-Settled r x y = elim (Option-cases c.generated) [
    | inl n ↦ rw (not_made c d n) (inl (x, y))
    | inr ((cert, key), m) ↦ elim (Result-cases (key_write c d cert key m).0) [
      | inr (e, k) ↦
          let (a, b) = write_key-err c.key_faults c.remove_fails 384 key d k in
          rw (generate_no_key c d cert key m k) (inl (b ∙ x, a ∙ y))
      | inl (u, k) ↦ elim (Result-cases (cert_write c d cert key m).0) [
        | inr (e, w) ↦
            let (a, b) =
              write_cert-err c.cert_faults c.remove_fails 420 cert (keyed c d cert key m) w in
            let (_, left) = generate_no_cert c d cert key m k w in
            inl (without_key c.remove_fails _ _ left r (b ∙ x))
        | inl (v, w) ↦
            rw (generate_both c d cert key m k w) (inr ((λ n. ground arith), (λ n. ground arith)))
      ]
    ]
  ]

  creates : d.cert ≡ none → d.key ≡ none → load_or_create_cert c d ≡ generate_self_signed c d
  unfolding load_or_create_cert
  creates x y = ground arith

  -- Let neither file be there, and let os.Remove work. Then whatever else fails, a start leaves
  -- neither file or both, never one alone, which the next start would take for corrupt.
  pub load_or_create_cert-Settled :
      c.remove_fails ≡ false → d.cert ≡ none → d.key ≡ none → Settled (load_or_create_cert c d).1
  load_or_create_cert-Settled r x y = rw (creates x y) (generate-Settled r x y)

  -- Let both files be there and be empty, and let nothing fail in the start. Then it does not
  -- report them as corrupt: it replaces both by a pair that it makes.
  pub empty_pair_replaced :
      (f g : File) (cert key : Bytes)
      → d.cert ≡ some f
      → d.key ≡ some g
      → f.contents ≡ []
      → g.contents ≡ []
      → c.generated ≡ some (cert, key)
      → (write_pem c.key_faults c.remove_fails key_pem 384 key d).0 ≡ ok tt
      → (write_pem c.cert_faults c.remove_fails cert_pem 420 cert
          (record d { key = some (record { mode = 384; contents = key }) })).0
        ≡ ok tt
      → not c.read_fails && c.pairs cert key ≡ true
      → load_or_create_cert c d ≡ (
        ok generated,
        record d {
          cert = some (record { mode = 420; contents = cert });
          key = some (record { mode = 384; contents = key });
        },
      )
  unfolding load_or_create_cert
  empty_pair_replaced f g cert key x y ex ey m k w l =
      ground (arith, generate_both c d cert key m k w)
