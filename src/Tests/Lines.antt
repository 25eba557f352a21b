-- ===== src/Tests/Lines.antt =====
-- The key commands on a concrete store.
use raxd.Prelude.{◌≢◌, refl, false, some, [], bytes_eq, codes}
use raxd.Keystore.{to_db_record, from_db_record}
use raxd.Keystore.Crypto.{hash_key, generate_id, hex, contains, generate_body, raw_url, fingerprint}
use raxd.Keystore.Disk.{acquire_lock, read_db, write_db}
use raxd.Keystore.Usage.{get_usage, set_usage, restore}
use raxd.Keystore.Store.{
  create, revoke, revoke_loop, verify_loop, verify, active_records, list, apply_usage,
  flush_snapshot, flush_usage, open_store,
}
use raxd.Keystore.History.{step, run}
use raxd.Service.Paths.{clean}
use raxd.Config.Paths.{Environment, paths, join}
use raxd.Cli.{repeat, Shell}
use raxd.Cli.Key.{
  Display, run_key_create, run_key_delete, created_lines, print_key_box, print_store_error,
  print_error, box, deleted_lines, fingerprint_of,
}
use raxd.Cli.Key.Failures.{run_key_delete-ok}
use raxd.Tests.Keys.{same, quiet, two_keys, history, record_b}

abbrev plain : Display
plain = record { date = λ t. codes "2026-01-01"; quote = λ s. s; table_fails = false }

abbrev pub at_home : Environment
at_home = record { home = some (codes "/root"); xdg_config_home = []; xdg_state_home = [] }

abbrev shell : Shell
shell = record { store = two_keys; console = [] }

run_key_delete-ok_example : codes "b" ≢ codes "a"
unfolding run_key_create run_key_delete created_lines print_key_box print_store_error print_error
    box repeat deleted_lines fingerprint_of paths join clean run step create revoke acquire_lock
    read_db write_db flush_usage flush_snapshot verify contains bytes_eq revoke_loop verify_loop
    hash_key generate_id hex set_usage apply_usage get_usage to_db_record from_db_record list
    active_records generate_body raw_url fingerprint open_store restore
run_key_delete-ok_example =
    run_key_delete-ok same plain at_home quiet quiet quiet quiet 5 9 (codes "a") (codes "kb") []
      shell history {r = record_b} refl refl refl
