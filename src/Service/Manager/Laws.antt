-- ===== src/Service/Manager/Laws.antt =====
-- What a caller may rely on, whichever manager it is given.
use raxd.Prelude.{◌≡◌, refl, Bool, true, false, not, [], arith}
use raxd.Prelude.Exec.{ok, err}
use raxd.Service.{Config, ServiceError, wrap_err, not_installed, PurgeOptions}
use raxd.Service.Systemd.{Machine, System, must_be_root, exists, install, uninstall}
use raxd.Service.Systemd.Rollback.{install-ok}
use raxd.Service.Purge as LinuxPurge
use raxd.Service.Launchd.{Mac, Darwin}
use raxd.Service.Launchd as Launchd
use raxd.Service.Launchd.Purge as DarwinPurge
use raxd.Service.Manager.{Manager, systemd_manager, launchd_manager}

-- Whether the process is root, whether os.Stat works, and whether the service is registered.
pub record Laws {S : Type 0} (m : Manager S) (is_root stats : Bool) (registered : S → Bool)
    : Type 0 where
  pub install_unprivileged : is_root ≡ false → (s : S) → m.install s ≡ (err must_be_root, s)
  pub uninstall_unprivileged : is_root ≡ false → (s : S) → m.uninstall s ≡ (err must_be_root, s)
  pub purge_unprivileged :
      is_root ≡ false → (opts : PurgeOptions) (s : S) → m.purge opts s ≡ (err must_be_root, s)
  pub purge_unconfirmed :
      (opts : PurgeOptions) (s : S) → opts.confirmed ≡ false → (m.purge opts s).1 ≡ s
  pub install_registers : (s : S) → (m.install s).0 ≡ ok tt → registered (m.install s).1 ≡ true
  pub uninstall_removes : (s : S) → (m.uninstall s).0 ≡ ok tt → registered (m.uninstall s).1 ≡ false
  pub uninstall_missing :
      is_root ≡ true
      → stats ≡ true
      → (s : S) → registered s ≡ false
      → m.uninstall s ≡ (err (wrap_err not_installed []), s)
  pub uninstall_refused :
      (s : S) {e : ServiceError}
      → (m.uninstall s).0 ≡ err e
      → e.sentinel ≡ not_installed
      → (m.uninstall s).1 ≡ s

module _ {M : Type 0} (sys : System M) (rm : LinuxPurge.Removal M) (cfg : Config) where
  abbrev unit_there : Machine M → Bool
  unit_there m = exists m.unit

  systemd_install_unprivileged :
      sys.is_root ≡ false → (m : Machine M) → install sys cfg m ≡ (err must_be_root, m)
  unfolding install
  systemd_install_unprivileged r m = ground arith

  systemd_uninstall_unprivileged :
      sys.is_root ≡ false → (m : Machine M) → uninstall sys m ≡ (err must_be_root, m)
  unfolding uninstall
  systemd_uninstall_unprivileged r m = ground arith

  systemd_purge_unprivileged :
      sys.is_root ≡ false
      → (opts : PurgeOptions) (m : Machine M)
      → LinuxPurge.purge sys rm cfg opts m ≡ (err must_be_root, m)
  unfolding LinuxPurge.purge
  systemd_purge_unprivileged r opts m = ground arith

  systemd_purge_unconfirmed :
      (opts : PurgeOptions) (m : Machine M)
      → opts.confirmed ≡ false
      → (LinuxPurge.purge sys rm cfg opts m).1 ≡ m
  unfolding LinuxPurge.purge
  systemd_purge_unconfirmed opts m c = ground arith

  systemd_uninstall_removes :
      (m : Machine M) → (uninstall sys m).0 ≡ ok tt → exists (uninstall sys m).1.unit ≡ false
  unfolding uninstall
  systemd_uninstall_removes m h = ground arith

  systemd_uninstall_missing :
      sys.is_root ≡ true
      → not sys.stat_fails ≡ true
      → (m : Machine M) → exists m.unit ≡ false
      → uninstall sys m ≡ (err (wrap_err not_installed []), m)
  unfolding uninstall
  systemd_uninstall_missing r s m n = ground arith

  systemd_uninstall_refused :
      (m : Machine M) {e : ServiceError}
      → (uninstall sys m).0 ≡ err e
      → e.sentinel ≡ not_installed
      → (uninstall sys m).1 ≡ m
  unfolding uninstall
  systemd_uninstall_refused m h n = ground arith

  systemd_install_registers :
      (m : Machine M) → (install sys cfg m).0 ≡ ok tt → exists (install sys cfg m).1.unit ≡ true
  systemd_install_registers m h = let (s, _, u, _) = install-ok sys cfg m h in rw u refl

  -- The systemd manager has the laws, its unit file being what registers the service.
  pub systemd-Laws : Laws (systemd_manager sys rm cfg) sys.is_root (not sys.stat_fails) unit_there
  systemd-Laws = record {
    install_unprivileged = systemd_install_unprivileged;
    uninstall_unprivileged = systemd_uninstall_unprivileged;
    purge_unprivileged = systemd_purge_unprivileged;
    purge_unconfirmed = systemd_purge_unconfirmed;
    install_registers = systemd_install_registers;
    uninstall_removes = systemd_uninstall_removes;
    uninstall_missing = systemd_uninstall_missing;
    uninstall_refused = systemd_uninstall_refused;
  }

module _ {M : Type 0} (sys : Darwin M) (rm : DarwinPurge.Removal M) (cfg : Config) where
  abbrev plist_there : Mac M → Bool
  plist_there m = exists m.plist

  launchd_install_unprivileged :
      sys.is_root ≡ false → (m : Mac M) → Launchd.install sys cfg m ≡ (err must_be_root, m)
  unfolding Launchd.install
  launchd_install_unprivileged r m = ground arith

  launchd_uninstall_unprivileged :
      sys.is_root ≡ false → (m : Mac M) → Launchd.uninstall sys m ≡ (err must_be_root, m)
  unfolding Launchd.uninstall
  launchd_uninstall_unprivileged r m = ground arith

  launchd_purge_unprivileged :
      sys.is_root ≡ false
      → (opts : PurgeOptions) (m : Mac M)
      → DarwinPurge.purge sys rm cfg opts m ≡ (err must_be_root, m)
  unfolding DarwinPurge.purge
  launchd_purge_unprivileged r opts m = ground arith

  launchd_purge_unconfirmed :
      (opts : PurgeOptions) (m : Mac M)
      → opts.confirmed ≡ false
      → (DarwinPurge.purge sys rm cfg opts m).1 ≡ m
  unfolding DarwinPurge.purge
  launchd_purge_unconfirmed opts m c = ground arith

  launchd_uninstall_removes :
      (m : Mac M)
      → (Launchd.uninstall sys m).0 ≡ ok tt
      → exists (Launchd.uninstall sys m).1.plist ≡ false
  unfolding Launchd.uninstall
  launchd_uninstall_removes m h = ground arith

  launchd_uninstall_missing :
      sys.is_root ≡ true
      → not sys.stat_fails ≡ true
      → (m : Mac M) → exists m.plist ≡ false
      → Launchd.uninstall sys m ≡ (err (wrap_err not_installed []), m)
  unfolding Launchd.uninstall
  launchd_uninstall_missing r s m n = ground arith

  launchd_uninstall_refused :
      (m : Mac M) {e : ServiceError}
      → (Launchd.uninstall sys m).0 ≡ err e
      → e.sentinel ≡ not_installed
      → (Launchd.uninstall sys m).1 ≡ m
  unfolding Launchd.uninstall
  launchd_uninstall_refused m h n = ground arith

  launchd_install_registers :
      (m : Mac M)
      → (Launchd.install sys cfg m).0 ≡ ok tt
      → exists (Launchd.install sys cfg m).1.plist ≡ true
  unfolding Launchd.install
  launchd_install_registers m h = ground arith

  -- The launchd manager has the laws, its plist being what registers the service.
  pub launchd-Laws : Laws (launchd_manager sys rm cfg) sys.is_root (not sys.stat_fails) plist_there
  launchd-Laws = record {
    install_unprivileged = launchd_install_unprivileged;
    uninstall_unprivileged = launchd_uninstall_unprivileged;
    purge_unprivileged = launchd_purge_unprivileged;
    purge_unconfirmed = launchd_purge_unconfirmed;
    install_registers = launchd_install_registers;
    uninstall_removes = launchd_uninstall_removes;
    uninstall_missing = launchd_uninstall_missing;
    uninstall_refused = launchd_uninstall_refused;
  }
