-- ===== src/Cli/Key/Failures.antt =====
-- The key commands where they fail, and what key delete promises.
use raxd.Prelude.{
  ℕ, ◌≡◌, ◌≢◌, refl, sym, ap, ◌∙◌, true, some, List, [], ◌∷◌, ◌++◌, Bytes, codes, String, arith,
  inl, inr,
}
use raxd.Prelude.Exec.{Result, ok, err, Result-cases}
use raxd.Keystore.{Record, World, Faults, StoreError}
use raxd.Keystore.Store.{Entropy, create, list, revoke, verify, ids_of}
use raxd.Keystore.Atomic.{keys_of, list_world}
use raxd.Keystore.Revocation.{unique}
use raxd.Keystore.History.{Call, run, step, creates}
use raxd.Keystore.Outcomes.{failure_keeps_keys}
use raxd.Keystore.Verification.{revoked_for_good}
use raxd.Config.Paths.{Environment, paths}
use raxd.Cli.{Line, CliError, of_store, Shell, append_none}
use raxd.Cli.Key.{
  Display, open_keys, run_key_create, run_key_delete, print_store_error, fingerprint_of, look_up,
}
use raxd.Cli.Key.Secrets.{stdout_of, stdout_of-append, error_stdout}

-- The lines of an error add nothing to standard output.
quiet_error :
    (d : Display) (e : CliError) (op : Bytes) (console : List Line)
    → stdout_of (console ++ print_store_error d e op) ≡ stdout_of console
quiet_error d e op console =
    rw (stdout_of-append console (print_store_error d e op), error_stdout d e op)
      (append_none (stdout_of console))

module _ (sha256 : Bytes → Bytes) (d : Display) (env : Environment) (f_open : Faults) where
  -- A command that fails prints its error, and leaves the records.
  record Failed (op : Bytes) (x : CliError) (s t : Shell) : Type 0 where
    store : World
    same_keys : keys_of store.file ≡ keys_of s.store.file
    after : t ≡ record { store = store; console = s.console ++ print_store_error d x op }

  Failed-here :
      (op : Bytes) (x : CliError) (s : Shell)
      → Failed op x s (record s { console = s.console ++ print_store_error d x op })
  Failed-here op x s = record { store = s.store; same_keys = refl; after = refl }

  opened_same : (s : Shell) → (open_keys d env f_open s).1 ≡ s
  opened_same s = elim (Result-cases (paths env)) [
    | inl (p, e) ↦ ground (arith)
    | inr (x, e) ↦ ground (arith)
  ]

  create_not_opened :
      (f : Faults) (e : Entropy) (now : ℕ) (label : String) (s : Shell) {x : CliError}
      → (open_keys d env f_open s).0 ≡ err x
      → run_key_create sha256 d env f_open f e now label s
        ≡ (err x, record s { console = s.console ++ print_store_error d x (codes "create") })
  unfolding run_key_create
  create_not_opened f e now label s o = ground (arith, opened_same s)

  create_not_made :
      (f : Faults) (e : Entropy) (now : ℕ) (label : String) (s : Shell) {x : StoreError}
      → (open_keys d env f_open s).0 ≡ ok tt
      → (create sha256 f e now label s.store).0 ≡ err x
      → run_key_create sha256 d env f_open f e now label s ≡ (
        err (of_store x),
        record {
          store = (create sha256 f e now label s.store).1;
          console = s.console ++ print_store_error d (of_store x) (codes "create");
        },
      )
  unfolding run_key_create
  create_not_made f e now label s o c = ground (arith, opened_same s)

  same_error : (x y : CliError) → ◌≡◌ {A = Result CliError (Unit {0})} (err y) (err x) → y ≡ x
  same_error x y h = cc

  kept :
      (f : Faults) (e : Entropy) (now : ℕ) (label : String) (w : World) {x : StoreError}
      → (create sha256 f e now label w).0 ≡ err x
      → keys_of (create sha256 f e now label w).1.file ≡ keys_of w.file
  unfolding step
  kept f e now label w h = failure_keeps_keys sha256 w (creates f e now label) (ground arith)

  create_made :
      (f : Faults) (e : Entropy) (now : ℕ) (label : String) (s : Shell) {made : Bytes × Record}
      {x : CliError}
      → (open_keys d env f_open s).0 ≡ ok tt
      → (create sha256 f e now label s.store).0 ≡ ok made
      → (run_key_create sha256 d env f_open f e now label s).0 ≢ err x
  unfolding run_key_create
  create_made f e now label s o c = λ h. ground (arith, opened_same s)

  create_error_of :
      (f : Faults) (e : Entropy) (now : ℕ) (label : String) (s : Shell) {x : CliError}
      → (run_key_create sha256 d env f_open f e now label s).0 ≡ err x
      → Failed (codes "create") x s (run_key_create sha256 d env f_open f e now label s).1
  create_error_of f e now label s {x} h = elim (Result-cases (open_keys d env f_open s).0) [
    | inr (y, o) ↦
        let r = create_not_opened f e now label s o in
        rw (r, same_error x y (sym (ap (λ (z : Result CliError (Unit {0}) × Shell). z.0) r) ∙ h))
          (Failed-here (codes "create") x s)
    | inl (u, o) ↦ elim (Result-cases (create sha256 f e now label s.store).0) [
      | inr (y, c) ↦
          let r = create_not_made f e now label s o c in
          record {
            store = (create sha256 f e now label s.store).1;
            same_keys = kept f e now label s.store c;
            after =
                rw
                  (
                    r,
                    same_error x (of_store y)
                        (sym (ap (λ (z : Result CliError (Unit {0}) × Shell). z.0) r) ∙ h),
                  )
                  refl;
          }
      | inl (made, c) ↦ absurd (create_made f e now label s o c h)
    ]
  ]

  -- Where key create ends with an error, standard output has no new line, so no key, and the
  -- records of the store are as before.
  pub run_key_create-err :
      (f : Faults) (e : Entropy) (now : ℕ) (label : String) (s : Shell) {x : CliError}
      → (run_key_create sha256 d env f_open f e now label s).0 ≡ err x
      → (stdout_of (run_key_create sha256 d env f_open f e now label s).1.console
          ≡ stdout_of s.console)
        × (keys_of (run_key_create sha256 d env f_open f e now label s).1.store.file
            ≡ keys_of s.store.file)
  run_key_create-err f e now label s {x} h =
      let r = create_error_of f e now label s h in
      (rw r.after (quiet_error d x (codes "create") s.console), rw r.after r.same_keys)

  looked_up : (f : Faults) (id : Bytes) (s : Shell) → (fp : Bytes) × (look_up d f id s ≡ (ok fp, s))
  looked_up f id s = elim (Result-cases (list f s.store).0) [
    | inl (rs, e) ↦ (fingerprint_of id rs, ground (arith, list_world f s.store))
    | inr (x, e) ↦ ([], ground (arith, list_world f s.store))
  ]

  delete_reached :
      (f_list f : Faults) (now : ℕ) (id : Bytes) (ids : List Bytes) (s : Shell)
      → (run_key_delete d env f_open f_list f now (id ∷ ids) s).0 ≡ ok tt
      → ((revoke f now id s.store).0 ≡ ok tt)
        × ((run_key_delete d env f_open f_list f now (id ∷ ids) s).1.store
            ≡ (revoke f now id s.store).1)
  unfolding run_key_delete
  delete_reached f_list f now id ids s h = ground (arith, opened_same s, (looked_up f_list id s).1)

  -- Let ids on disk be distinct, and let key delete of an id end without an error. Then after any
  -- further calls, with any failing system calls, a key that Verify accepts has another id.
  pub run_key_delete-ok :
      (f_list f g : Faults) (now later : ℕ) (id presented : Bytes) (ids : List Bytes) (s : Shell)
      (cs : List Call) {r : Record}
      → unique (ids_of (keys_of s.store.file)) ≡ true
      → (run_key_delete d env f_open f_list f now (id ∷ ids) s).0 ≡ ok tt
      → (verify sha256 g later presented
          (run sha256 (run_key_delete d env f_open f_list f now (id ∷ ids) s).1.store cs)).0
        ≡ ok (some r)
      → r.id ≢ id
  run_key_delete-ok f_list f g now later id presented ids s cs {r} u h v =
      let (done, after) = delete_reached f_list f now id ids s h in
      revoked_for_good sha256 s.store f g now later id presented cs {r = r} u done (rw after at v)
