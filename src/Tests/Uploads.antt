-- ===== src/Tests/Uploads.antt =====
-- The upload root and the tool upload_file on concrete trees.
use raxd.Prelude.{
  ◌≡◌, refl, true, false, some, List, [], ◌∷◌, bytes_eq, codes, arith, if◌then◌else◌,
}
use raxd.Prelude.Exec.{err}
use raxd.Prelude.Int.{to_int64, pos}
use raxd.Keystore.Crypto.{hex}
use raxd.FileUpload.{Config, Input, Written, exists, quota_exceeded}
use raxd.FileUpload.Mode.{parse_int, octal_digits, parse_mode, parse_mode_str, format_mode}
use raxd.FileUpload.Path.{split_slash, is_skipped, clean_parts, is_local, dir_of}
use raxd.FileUpload.Root.Following.{led_by}
use raxd.FileUpload.Confinement.{never_leaves}
use raxd.FileUpload.Root.{
  FilePath, dir, file, Tree, Faults, path_eq, find, put, delete, total, node_at, walk, resolve,
  stat, mkdir_all, open_new, set_file, remove, rename,
}
use raxd.FileUpload.Write.{
  random_tmp_name, do_write, write_under_root, exceeds, write_with_quota, write,
}
use raxd.FileUpload.Write.Outcomes.{write_ok_effect}
use raxd.FileUpload.Write.History.{Request, writes}
use raxd.Server.Audit.{deny, text}
use raxd.Mcp.Caller.{Caller}
use raxd.Mcp.Base64.{sextet, without_breaks, decode_groups, decode_string, decoded_len}
use raxd.Mcp.UploadTool.{
  UploadInput, Host, over, read_content, upload_output, upload_handler, too_large_message,
  upload_record,
}
use raxd.Mcp.UploadTool.Reports.{site, full_size_refused, upload_handler-error_node}

abbrev quiet : Faults
quiet = record {
  open_fails = false;
  stat_fails = false;
  walk_fails = false;
  mkdir_fails = false;
  rand_fails = false;
  create_fails = false;
  chmod_fails = false;
  write_fails = false;
  short_write = 0;
  sync_fails = false;
  close_fails = false;
  rename_fails = false;
  remove_fails = false;
}

abbrev no_sync : Faults
no_sync = record quiet { sync_fails = true }

abbrev pub limits : Config
limits = record {
  upload_root = codes "/srv";
  max_file_bytes = pos 4;
  max_total_bytes = pos 6;
  default_mode = 384;
  deny_root = true;
}

-- The file d/x with three bytes.
abbrev pub tree : Tree
tree = (codes "d" ∷ [], dir) ∷ (codes "x" ∷ codes "d" ∷ [], file (codes "abc") 384) ∷ []

abbrev new_file : Input
new_file = record { rel_path = codes "e/y"; contents = codes "hi"; overwrite = false; mode = 384 }

abbrev same_file : Input
same_file = record new_file { rel_path = codes "d/./x" }

abbrev requests : List Request
requests =
    record { faults = quiet; drawn = codes "r1"; input = new_file }
    ∷ record { faults = no_sync; drawn = codes "r2"; input = record new_file { overwrite = true } }
    ∷ record {
      faults = quiet;
      drawn = codes "r3";
      input = record new_file { rel_path = codes "z" };
    }
    ∷ []

abbrev written : Written
written = record { rel_path = codes "e/y"; size = 2; overwritten = false; mode = 384 }

abbrev pub host : Host
host = record { is_root = false; faults = quiet; drawn = codes "r1" }

abbrev caller : Caller
caller = record { fingerprint = codes "fa"; remote_addr = codes "::1" }

-- The content is `hi`.
abbrev upload : UploadInput
upload = record {
  path = codes "e/y";
  content = codes "aGk=";
  overwrite = false;
  mode = codes "0600";
}

-- The content is four bytes, as many as the limit.
abbrev full : UploadInput
full = record upload { content = codes "YWJjZA==" }

abbrev outside_file : Input
outside_file = record new_file { rel_path = codes "a/../../b" }

write_ok_effect_example :
    ((p : FilePath)
      → find p (write quiet (codes "r1") limits new_file tree).1 ≡ (
          if path_eq p (codes "y" ∷ codes "e" ∷ [])
          then some (file (codes "hi") 384)
          else find p (mkdir_all (dir_of (codes "e/y")) tree).1))
    × (written.rel_path ≡ codes "e/y")
    × (written.size ≡ 2)
    × (written.mode ≡ 384)
unfolding to_int64 sextet without_breaks decode_groups decode_string decoded_len over read_content
    upload_output upload_handler parse_mode parse_int octal_digits parse_mode_str format_mode
    is_skipped split_slash clean_parts is_local dir_of path_eq find put delete total node_at walk
    resolve stat mkdir_all open_new set_file remove rename random_tmp_name hex do_write
    write_under_root exceeds write_with_quota write bytes_eq writes never_leaves led_by
write_ok_effect_example = write_ok_effect quiet (codes "r1") limits new_file tree {r = written} refl

upload_handler-error_node_example :
    (node_at
        (upload_handler (record host { faults = no_sync }) limits caller upload (site tree)).1.tree
        (codes "d" ∷ [])
      ≡ some dir)
    × (total
          (upload_handler
            (record host { faults = no_sync })
            limits
            caller
            upload
            (site tree)).1.tree
        ≡ 3)
unfolding to_int64 sextet without_breaks decode_groups decode_string decoded_len over read_content
    upload_output upload_handler parse_mode parse_int octal_digits parse_mode_str format_mode
    is_skipped split_slash clean_parts is_local dir_of path_eq find put delete total node_at walk
    resolve stat mkdir_all open_new set_file remove rename random_tmp_name hex do_write
    write_under_root exceeds write_with_quota write bytes_eq writes never_leaves
upload_handler-error_node_example =
    upload_handler-error_node (record host { faults = no_sync }) limits caller upload tree
      {e = text "write failed" ∷ []} (codes "d" ∷ []) dir refl refl refl

full_size_refused_example : upload_handler host limits caller full (site tree) ≡ (
  err too_large_message,
  record { audits = upload_record caller (codes "e/y") deny too_large_message ∷ []; tree = tree },
)
unfolding to_int64 sextet without_breaks decode_groups decode_string decoded_len over read_content
    upload_output upload_handler parse_mode parse_int octal_digits parse_mode_str format_mode
    is_skipped split_slash clean_parts is_local dir_of path_eq find put delete total node_at walk
    resolve stat mkdir_all open_new set_file remove rename random_tmp_name hex do_write
    write_under_root exceeds write_with_quota write bytes_eq writes never_leaves
full_size_refused_example =
    full_size_refused host limits caller full tree 4 {decoded = codes "abcd"} refl refl
      (λ e. omega arith) refl refl

-- A file within the quota is written; one over it is refused, and the one there is kept.
test_quota :
    (write quiet (codes "r1") limits (record new_file { contents = codes "abcd" }) tree).0
    ≡ err quota_exceeded
unfolding to_int64 sextet without_breaks decode_groups decode_string decoded_len over read_content
    upload_output upload_handler parse_mode parse_int octal_digits parse_mode_str format_mode
    is_skipped split_slash clean_parts is_local dir_of path_eq find put delete total node_at walk
    resolve stat mkdir_all open_new set_file remove rename random_tmp_name hex do_write
    write_under_root exceeds write_with_quota write bytes_eq writes never_leaves
test_quota = refl

test_exists : write quiet (codes "r1") limits same_file tree ≡ (err exists, tree)
unfolding to_int64 sextet without_breaks decode_groups decode_string decoded_len over read_content
    upload_output upload_handler parse_mode parse_int octal_digits parse_mode_str format_mode
    is_skipped split_slash clean_parts is_local dir_of path_eq find put delete total node_at walk
    resolve stat mkdir_all open_new set_file remove rename random_tmp_name hex do_write
    write_under_root exceeds write_with_quota write bytes_eq writes never_leaves
test_exists = refl
