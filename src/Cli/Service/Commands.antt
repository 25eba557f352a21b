-- ===== src/Cli/Service/Commands.antt =====
-- What the service commands do to the host, over any manager that has the laws.
use raxd.Prelude.{◌≡◌, ◌≢◌, refl, ap, ◌∙◌, Bool, true, false, not, ◌&&◌, [], Bytes, arith, inl, inr}
use raxd.Prelude.Exec.{Result, ok, err, Result-cases}
use raxd.Prelude.Int.{ℤ}
use raxd.Service.{
  ServiceError, Sentinel, wrap_err, not_installed, permission, PurgeOptions, already_installed,
  manager_unavailable, unsupported, user_mismatch, suspicious_path, purge_not_confirmed,
  no_sentinel,
}
use raxd.Service.Manager.{Manager}
use raxd.Service.Manager.Laws.{Laws}
use raxd.Cli.Service.{Session, CommandError, needs_yes, run_install, run_uninstall, uninstall_error}

module _ {S : Type 0} (m : Manager S) (port : ℤ) (goos : Bytes) (linux : Bool) where
  abbrev yes_purge : PurgeOptions
  yes_purge = record { confirmed = true; audit_out = true }

  -- What the flags ask for.
  abbrev pub asked : Bool → Bool → S → S
  asked false do_yes h = (m.uninstall h).1
  asked true false h = h
  asked true true h = (m.purge yes_purge h).1

  -- Without --purge the host is what Uninstall leaves; with --purge and --yes it is what a confirmed
  -- Purge with an audit writer leaves; with --purge alone it is untouched, and the command fails.
  pub run_uninstall_host :
      (do_purge do_yes : Bool) (s : Session S)
      → ((run_uninstall goos linux do_purge do_yes (ok (m, port)) s).1.host
          ≡ asked do_purge do_yes s.host)
        × ((do_purge && not do_yes) ≡ true
            → (run_uninstall goos linux do_purge do_yes (ok (m, port)) s).0 ≡ err needs_yes)
  unfolding run_uninstall
  run_uninstall_host false do_yes s = (ground arith, λ h. ground arith)
  run_uninstall_host true false s = (ground arith, λ h. ground arith)
  run_uninstall_host true true s = (ground arith, λ h. ground arith)

  abbrev uninstalls : Session S → Result CommandError (Unit {0}) × Session S
  uninstalls s = run_uninstall goos linux false false (ok (m, port)) s

  exit_of_error :
      (x : Sentinel) (e : ServiceError) (s : Session S)
      → (uninstall_error x e s).0 ≡ ok tt
      → x ≡ not_installed
  exit_of_error not_installed e s h = refl
  exit_of_error already_installed e s h = cc
  exit_of_error manager_unavailable e s h = cc
  exit_of_error permission e s h = cc
  exit_of_error unsupported e s h = cc
  exit_of_error user_mismatch e s h = cc
  exit_of_error suspicious_path e s h = cc
  exit_of_error purge_not_confirmed e s h = cc
  exit_of_error no_sentinel e s h = cc

  missing_exit :
      (s : Session S) {e : ServiceError}
      → (m.uninstall s.host).0 ≡ err e
      → e.sentinel ≡ not_installed
      → ((uninstalls s).0 ≡ ok tt) × ((uninstalls s).1.host ≡ (m.uninstall s.host).1)
  unfolding run_uninstall
  missing_exit s h n = (ground arith, ground arith)

  failed_exit :
      (s : Session S) {e : ServiceError}
      → (m.uninstall s.host).0 ≡ err e
      → (uninstalls s).0 ≡ ok tt
      → e.sentinel ≡ not_installed
  unfolding run_uninstall
  failed_exit s {e} h x =
      exit_of_error e.sentinel e (record s { host = (m.uninstall s.host).1 }) (ground arith)

  module _ (is_root stats : Bool) (registered : S → Bool)
      (laws : Laws m is_root stats registered) where
    again_missing :
        (s : Session S)
        → is_root ≡ true
        → stats ≡ true
        → registered s.host ≡ false
        → ((uninstalls s).0 ≡ ok tt) × ((uninstalls s).1.host ≡ s.host)
    again_missing s r t n =
        let e = laws.uninstall_missing r t s.host n in
        let (a, b) =
          missing_exit s {e = wrap_err not_installed []}
            (ap (λ (x : Result ServiceError (Unit {0}) × S). x.0) e) refl in
        (a, b ∙ ap (λ (x : Result ServiceError (Unit {0}) × S). x.1) e)

    -- Let the process be root and os.Stat work, and let uninstall end without an error. Then a
    -- second uninstall ends without an error too, and changes nothing on the host.
    pub run_uninstall_twice :
        (s : Session S)
        → is_root ≡ true
        → stats ≡ true
        → (uninstalls s).0 ≡ ok tt
        → ((uninstalls (uninstalls s).1).0 ≡ ok tt)
          × ((uninstalls (uninstalls s).1).1.host ≡ (uninstalls s).1.host)
    run_uninstall_twice s r t h =
        let same = (run_uninstall_host false false s).0 in
        elim (Result-cases (m.uninstall s.host).0) [
          | inl (u, e) ↦
              again_missing (uninstalls s).1 r t (rw same (laws.uninstall_removes s.host e))
          | inr (x, e) ↦
              let n = failed_exit s e h in
              let kept = same ∙ laws.uninstall_refused s.host e n in
              let (a, b) = missing_exit (uninstalls s).1 {e = x} (rw kept e) n in
              (a, b ∙ rw kept (laws.uninstall_refused s.host e n))
        ]

    install_refused :
        (s : Session S)
        → is_root ≡ false
        → ((run_install goos linux (ok (m, port)) s).0 ≢ ok tt)
          × ((run_install goos linux (ok (m, port)) s).1.host ≡ s.host)
    unfolding run_install
    install_refused s r =
        let e = laws.install_unprivileged r s.host in ((λ h. ground (arith, e)), ground (arith, e))

    uninstall_refused :
        (do_purge do_yes : Bool) (s : Session S)
        → is_root ≡ false
        → ((run_uninstall goos linux do_purge do_yes (ok (m, port)) s).0 ≢ ok tt)
          × ((run_uninstall goos linux do_purge do_yes (ok (m, port)) s).1.host ≡ s.host)
    unfolding run_uninstall
    uninstall_refused false do_yes s r =
        let e = laws.uninstall_unprivileged r s.host in
        ((λ h. ground (arith, e)), ground (arith, e))
    uninstall_refused true false s r = ((λ h. ground arith), ground arith)
    uninstall_refused true true s r =
        let e = laws.purge_unprivileged r yes_purge s.host in
        ((λ h. ground (arith, e)), ground (arith, e))

    -- Let the process not be root. Then install, uninstall and purge end with an error, and the
    -- host is untouched.
    pub unprivileged_harmless :
        (do_purge do_yes : Bool) (s : Session S)
        → is_root ≡ false
        → ((run_install goos linux (ok (m, port)) s).0 ≢ ok tt)
          × ((run_install goos linux (ok (m, port)) s).1.host ≡ s.host)
          × ((run_uninstall goos linux do_purge do_yes (ok (m, port)) s).0 ≢ ok tt)
          × ((run_uninstall goos linux do_purge do_yes (ok (m, port)) s).1.host ≡ s.host)
    unprivileged_harmless do_purge do_yes s r =
        let (a, b) = install_refused s r in
        let (c, e) = uninstall_refused do_purge do_yes s r in (a, b, c, e)
