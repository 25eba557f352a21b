-- ===== src/Service/Purge/Order.antt =====
-- The order of Purge: what was checked and recorded before a directory goes.
use raxd.Prelude.{◌≡◌, refl, ◌∙◌, Bool, true, false, List, [], ◌∷◌, ◌++◌, arith, ◌⊎◌, inl, inr}
use raxd.Prelude.Exec.{ok, Result-cases}
use raxd.Prelude.{Bool-cases}
use raxd.Service.{Config, PurgeOptions, PurgeIntent}
use raxd.Service.Paths.{validate_purge_path}
use raxd.Service.Passwd.{verify_target_user_linux}
use raxd.Service.Systemd.{Machine, System, stop_service, uninstall}
use raxd.Service.Systemd.Report.{status}
use raxd.Service.Purge.{
  Removal, intent_of, roots, present, destroy, checks, purge, stop_if, uninstalled_of,
}

module _ {M : Type 0} (sys : System M) (rm : Removal M) (cfg : Config) where
  -- Neither the directories nor the audit records change.
  abbrev pub Same : Machine M → Machine M → Type 0
  Same m n = (n.dirs ≡ m.dirs) × (n.intents ≡ m.intents)

  stop_service-Same : (m : Machine M) → Same m (stop_service sys m).1
  unfolding stop_service
  stop_service-Same m = ground arith

  pub uninstall-Same : (m : Machine M) → Same m (uninstall sys m).1
  unfolding uninstall
  uninstall-Same m = ground arith

  pub stop_if-Same : (b : Bool) (m : Machine M) → Same m (stop_if sys rm cfg b m).1
  stop_if-Same false m = (refl, refl)
  stop_if-Same true m = ground (arith, stop_service-Same m)

  abbrev pub record_if : Bool → Bool → Machine M → List PurgeIntent
  record_if true user m =
      m.intents ++ intent_of user (present sys rm cfg m.dirs (roots sys rm cfg)) ∷ []
  record_if false user m = m.intents

  destroy-intents :
      (opts : PurgeOptions) (a b user : Bool) (m : Machine M)
      → (destroy sys rm cfg opts a b user m).1.intents ≡ record_if opts.audit_out user m
  unfolding destroy
  destroy-intents opts a b user m = ground arith

  module _ (opts : PurgeOptions) (m : Machine M) where
    -- The machine after the service was stopped, and after it was uninstalled.
    abbrev pub halted : Machine M
    halted = (stop_if sys rm cfg (status sys m).active m).1

    abbrev pub unregistered : Machine M
    unregistered = (uninstall sys halted).1

    -- What holds where a directory was removed.
    pub record Checked : Type 0 where
      pub root : sys.is_root ≡ true
      pub confirmed : opts.confirmed ≡ true
      pub state_dir : validate_purge_path rm.links cfg.state_dir (roots sys rm cfg) ≡ ok tt
      pub config_dir : validate_purge_path rm.links cfg.config_dir (roots sys rm cfg) ≡ ok tt
      pub user : Bool
      pub verified : verify_target_user_linux (rm.getent unregistered.manager) cfg.user ≡ ok user
      pub recorded : (purge sys rm cfg opts m).1.intents ≡ record_if opts.audit_out user m

    abbrev Outcome : Type 0
    Outcome = ((purge sys rm cfg opts m).1.dirs ≡ m.dirs) ⊎ Checked

    unregistered-Same : Same m unregistered
    unregistered-Same = ground (arith, stop_if-Same (status sys m).active m, uninstall-Same halted)

    abbrev active : Bool
    active = (status sys m).active

    pub from_here :
        (b : Bool)
        → sys.is_root ≡ true
        → opts.confirmed ≡ true
        → (stop_if sys rm cfg active m).0 ≡ ok tt
        → uninstalled_of sys rm cfg (uninstall sys halted).0 ≡ ok b
        → (purge sys rm cfg opts m).1 ≡ (checks sys rm cfg opts active b unregistered).1
    unfolding purge
    from_here b r c s t = ground arith

    recorded_by :
        (b user : Bool)
        → validate_purge_path rm.links cfg.state_dir (roots sys rm cfg) ≡ ok tt
        → validate_purge_path rm.links cfg.config_dir (roots sys rm cfg) ≡ ok tt
        → verify_target_user_linux (rm.getent unregistered.manager) cfg.user ≡ ok user
        → (checks sys rm cfg opts active b unregistered).1.intents
          ≡ record_if opts.audit_out user unregistered
    recorded_by b user v c g = rw (v, c, g) (destroy-intents opts active b user unregistered)

    same_record :
        (user : Bool) → record_if opts.audit_out user unregistered ≡ record_if opts.audit_out user m
    same_record user = ground (arith, unregistered-Same)

    checked :
        (b : Bool)
        → sys.is_root ≡ true
        → opts.confirmed ≡ true
        → (purge sys rm cfg opts m).1 ≡ (checks sys rm cfg opts active b unregistered).1
        → Outcome
    checked b r c e =
        elim (Result-cases (validate_purge_path rm.links cfg.state_dir (roots sys rm cfg))) [
          | inr (x, v) ↦ inl (rw (e, v) (unregistered-Same.0))
          | inl (tt, v) ↦
              elim (Result-cases (validate_purge_path rm.links cfg.config_dir (roots sys rm cfg))) [
                | inr (x, w) ↦ inl (rw (e, v, w) (unregistered-Same.0))
                | inl (tt, w) ↦
                    elim (Result-cases
                      (verify_target_user_linux (rm.getent unregistered.manager) cfg.user)) [
                        | inr (x, g) ↦ inl (rw (e, v, w, g) (unregistered-Same.0))
                        | inl (user, g) ↦ inr (record {
                          root = r;
                          confirmed = c;
                          state_dir = v;
                          config_dir = w;
                          user = user;
                          verified = g;
                          recorded = rw e (recorded_by b user v w g ∙ same_record user);
                        })
                      ]
              ]
        ]

    with_root : sys.is_root ≡ true → opts.confirmed ≡ true → Outcome
    unfolding purge
    with_root r c = elim (Result-cases (stop_if sys rm cfg (status sys m).active m).0) [
      | inr (e, s) ↦ inl (ground (arith, stop_if-Same (status sys m).active m))
      | inl (tt, s) ↦ elim (Result-cases (uninstalled_of sys rm cfg (uninstall sys halted).0)) [
        | inr (e, t) ↦ inl (ground (arith, unregistered-Same))
        | inl (b, t) ↦ checked b r c (from_here b r c s t)
      ]
    ]

    -- Purge either leaves the directories, or it was run as root and confirmed, both paths were
    -- found safe, the account was found absent or that of the service, and the audit record, where
    -- there is a writer for it, was written with the account and the directories that were there.
    pub purge_order : Outcome
    unfolding purge
    purge_order = elim (Bool-cases sys.is_root) [
      | inr n ↦ inl (ground arith)
      | inl r ↦ elim (Bool-cases opts.confirmed) [
        | inr n ↦ inl (ground arith)
        | inl c ↦ with_root r c
      ]
    ]
