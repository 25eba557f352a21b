-- ===== src/Service/Systemd/Rollback.antt =====
-- What Install and Uninstall leave of the unit and of the drop-in.
use raxd.Prelude.{
  ℕ, ◌≡◌, ◌≢◌, Bool, true, false, none, some, [], Bytes, String, arith, take, inl, inr, ◌∷◌, ◌⊎◌,
  ◌∙◌, sym, ap, refl, Bool-cases,
}
use raxd.Prelude.Exec.{Result, ok, err, Result-cases}
use raxd.Service.{Config, ServiceError, wrap_err, already_installed, no_sentinel}
use raxd.Server.Audit.{text}
use raxd.Service.Templates.{template_data_from_config}
use raxd.Service.Templates.Unit.{render_unit, journald_drop_in}
use raxd.Service.Systemd.{
  WriteEnd, done, nothing, partly, Machine, System, install, uninstall, user_result, register,
  put_files, create_user, unit_found,
}

abbrev pub is_whole : WriteEnd → Bool
is_whole done = true
is_whole nothing = true
is_whole (partly n) = false

module _ {M : Type 0} (sys : System M) where
  register-ok :
      (m : Machine M)
      → (register sys m).0 ≡ ok tt
      → ((register sys m).1.unit ≡ m.unit) × ((register sys m).1.drop_in ≡ m.drop_in)
  unfolding register
  register-ok m h = ground arith

  register-err :
      (m : Machine M) {e : ServiceError}
      → sys.unit_remove_fails ≡ false
      → sys.drop_in_remove_fails ≡ false
      → (register sys m).0 ≡ err e
      → ((register sys m).1.unit ≡ none) × ((register sys m).1.drop_in ≡ none)
  unfolding register
  register-err m ru rd h = ground arith

  -- The machine with both files.
  abbrev filled : Bytes → Machine M → Machine M
  filled contents m = record m { unit = some contents; drop_in = some journald_drop_in }

  put_files-ok :
      (contents : Bytes) (m : Machine M)
      → (put_files sys contents m).0 ≡ ok tt
      → ((put_files sys contents m).1.unit ≡ some contents)
        × ((put_files sys contents m).1.drop_in ≡ some journald_drop_in)
  unfolding put_files
  put_files-ok contents m h = ground (arith, register-ok (filled contents m))

  put_files-err :
      (contents : Bytes) (m : Machine M) {e : ServiceError}
      → m.unit ≡ none
      → m.drop_in ≡ none
      → is_whole sys.unit_write ≡ true
      → is_whole sys.drop_in_write ≡ true
      → sys.unit_remove_fails ≡ false
      → sys.drop_in_remove_fails ≡ false
      → (put_files sys contents m).0 ≡ err e
      → ((put_files sys contents m).1.unit ≡ none) × ((put_files sys contents m).1.drop_in ≡ none)
  unfolding put_files
  put_files-err contents m {e} x d u w ru rd h =
      ground (arith, register-err (filled contents m) {e = e} ru rd)

  put_files_partly :
      (contents : Bytes) (m : Machine M) (n : ℕ)
      → sys.unit_write ≡ partly n
      → put_files sys contents m ≡ (
        err (wrap_err no_sentinel (text "service install: write unit" ∷ [])),
        record m { unit = some (take n contents) },
      )
  unfolding put_files
  put_files_partly contents m n w = ground arith

not_ok : {e : ServiceError} → ◌≢◌ {A = Result ServiceError (Unit {0})} (err e) (ok tt)
not_ok h = cc

module _ {M : Type 0} (sys : System M) (cfg : Config) (m : Machine M) where
  -- The machine after useradd.
  abbrev with_user : Machine M
  with_user = (create_user sys cfg m).1

  -- An Install that ends before it writes the unit.
  record Unreached : Type 0 where
    same_unit : (install sys cfg m).1.unit ≡ m.unit
    same_drop_in : (install sys cfg m).1.drop_in ≡ m.drop_in
    fails : (install sys cfg m).0 ≢ ok tt

  -- An Install that gets so far does what putting the files does.
  record Reached : Type 0 where
    contents : Bytes
    rendered : render_unit (template_data_from_config cfg) ≡ ok contents
    not_found : unit_found sys m ≡ false
    puts : install sys cfg m ≡ put_files sys contents with_user

  reached :
      (s : Bytes)
      → sys.is_root ≡ true
      → unit_found sys m ≡ false
      → user_result sys (sys.useradd cfg.user m.manager).0 ≡ ok tt
      → render_unit (template_data_from_config cfg) ≡ ok s
      → install sys cfg m ≡ put_files sys s with_user
  unfolding install
  reached s r f us re = ground arith

  unreached_by_user :
      {e : ServiceError}
      → sys.is_root ≡ true
      → unit_found sys m ≡ false
      → user_result sys (sys.useradd cfg.user m.manager).0 ≡ err e
      → Unreached
  unfolding install
  unreached_by_user r f us = record {
    same_unit = ground arith;
    same_drop_in = ground arith;
    fails = λ h. ground arith;
  }

  unreached_by_text :
      {x : String}
      → sys.is_root ≡ true
      → unit_found sys m ≡ false
      → user_result sys (sys.useradd cfg.user m.manager).0 ≡ ok tt
      → render_unit (template_data_from_config cfg) ≡ err x
      → Unreached
  unfolding install
  unreached_by_text r f us re = record {
    same_unit = ground arith;
    same_drop_in = ground arith;
    fails = λ h. ground arith;
  }

  unreached_early : (sys.is_root ≡ false) ⊎ (unit_found sys m ≡ true) → Unreached
  unfolding install
  unreached_early w = record {
    same_unit = ground arith;
    same_drop_in = ground arith;
    fails = λ h. ground arith;
  }

  after_checks : sys.is_root ≡ true → unit_found sys m ≡ false → Unreached ⊎ Reached
  after_checks r f = elim (Result-cases (user_result sys (sys.useradd cfg.user m.manager).0)) [
    | inr (e, us) ↦ inl (unreached_by_user r f us)
    | inl (tt, us) ↦ elim (Result-cases (render_unit (template_data_from_config cfg))) [
      | inr (x, re) ↦ inl (unreached_by_text r f us re)
      | inl (s, re) ↦
          inr (record { contents = s; rendered = re; not_found = f; puts = reached s r f us re })
    ]
  ]

  install_cases : Unreached ⊎ Reached
  install_cases = elim (Bool-cases sys.is_root) [
    | inr n ↦ inl (unreached_early (inl n))
    | inl r ↦ elim (Bool-cases (unit_found sys m)) [
      | inl y ↦ inl (unreached_early (inr y))
      | inr f ↦ after_checks r f
    ]
  ]

  no_unit : unit_found sys m ≡ false → sys.stat_fails ≡ false → m.unit ≡ none
  no_unit f s = ground arith

  -- Let Stat work, let there be no drop-in, let no write stop half way, and let files be removed.
  -- Then an Install that fails leaves the unit as it was, and no drop-in.
  pub install-err :
      {e : ServiceError}
      → sys.stat_fails ≡ false
      → m.drop_in ≡ none
      → is_whole sys.unit_write ≡ true
      → is_whole sys.drop_in_write ≡ true
      → sys.unit_remove_fails ≡ false
      → sys.drop_in_remove_fails ≡ false
      → (install sys cfg m).0 ≡ err e
      → ((install sys cfg m).1.unit ≡ m.unit) × ((install sys cfg m).1.drop_in ≡ none)
  install-err {e} s d u w ru rd h = elim install_cases [
    | inl x ↦ (x.same_unit, x.same_drop_in ∙ d)
    | inr x ↦
        let gone = no_unit x.not_found s in
        let (a, b) =
          put_files-err sys x.contents with_user {e = e} gone d u w ru rd (rw (sym x.puts) h) in
        (rw x.puts (a ∙ sym gone), rw x.puts b)
  ]

  -- An Install that succeeds has written the unit as RenderUnit gives it, and the drop-in.
  pub install-ok :
      (install sys cfg m).0 ≡ ok tt
      → (s : Bytes) × (render_unit (template_data_from_config cfg) ≡ ok s)
        × ((install sys cfg m).1.unit ≡ some s)
        × ((install sys cfg m).1.drop_in ≡ some journald_drop_in)
  install-ok h = elim install_cases [
    | inl x ↦ absurd (x.fails h)
    | inr x ↦
        let (a, b) = put_files-ok sys x.contents with_user (rw (sym x.puts) h) in
        (x.contents, x.rendered, rw x.puts a, rw x.puts b)
  ]

  installed_already :
      (next : System M) (t : Bytes) (n : Machine M)
      → next.is_root ≡ true
      → next.stat_fails ≡ false
      → n.unit ≡ some t
      → install next cfg n ≡ (err (wrap_err already_installed []), n)
  unfolding install
  installed_already next t n r st u = ground arith

  -- Let the write of the unit stop half way in an Install as root that gets so far. Then it fails,
  -- what was written stays, and the next Install as root whose Stat does not fail ends with
  -- ErrAlreadyInstalled and changes nothing, whatever else it meets.
  pub partial_unit_stays :
      (next : System M) (n : ℕ) {s : Bytes}
      → sys.is_root ≡ true
      → next.is_root ≡ true
      → next.stat_fails ≡ false
      → m.unit ≡ none
      → user_result sys (sys.useradd cfg.user m.manager).0 ≡ ok tt
      → render_unit (template_data_from_config cfg) ≡ ok s
      → sys.unit_write ≡ partly n
      → ((install sys cfg m).0 ≢ ok tt)
        × ((install sys cfg m).1.unit ≡ some (take n s))
        × (install next cfg (install sys cfg m).1
            ≡ (err (wrap_err already_installed []), (install sys cfg m).1))
  partial_unit_stays next n {s} r r2 st u us re w =
      let e = reached s r (ground arith) us re ∙ put_files_partly sys s with_user n w in
      let kept : (install sys cfg m).1.unit ≡ some (take n s) = rw e refl in
      (
        λ h. not_ok (sym (ap (λ (r : Result ServiceError (Unit {0}) × Machine M). r.0) e) ∙ h),
        kept,
        installed_already next (take n s) (install sys cfg m).1 r2 st kept,
      )

pub uninstall_lem :
    {M : Type 0} (sys : System M) (m : Machine M) (s : Bytes)
    → sys.is_root ≡ true
    → m.unit ≡ some s
    → sys.unit_remove_fails ≡ false
    → sys.drop_in_remove_fails ≡ false
    → ((uninstall sys m).0 ≡ ok tt)
      × ((uninstall sys m).1.unit ≡ none)
      × ((uninstall sys m).1.drop_in ≡ none)
unfolding uninstall
uninstall_lem sys m s r u a b = ground arith

-- After an Install that succeeds, an Uninstall as root that can remove files succeeds, whatever
-- systemctl does, and leaves neither unit nor drop-in.
pub install-uninstall :
    {M : Type 0} (sys later : System M) (cfg : Config) (m : Machine M)
    → (install sys cfg m).0 ≡ ok tt
    → later.is_root ≡ true
    → later.unit_remove_fails ≡ false
    → later.drop_in_remove_fails ≡ false
    → ((uninstall later (install sys cfg m).1).0 ≡ ok tt)
      × ((uninstall later (install sys cfg m).1).1.unit ≡ none)
      × ((uninstall later (install sys cfg m).1).1.drop_in ≡ none)
install-uninstall sys later cfg m h r a b =
    let (s, _, u, _) = install-ok sys cfg m h in uninstall_lem later (install sys cfg m).1 s r u a b
