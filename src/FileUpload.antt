-- ===== src/FileUpload.antt =====
-- internal/fileupload: the configuration of config.go, the input, the result and the errors of
-- upload.go, quota.go and mode.go.
pub mod Mode
pub mod Policy
pub mod Path
pub mod Confinement
pub mod Root
pub mod Write
use raxd.Prelude.{ℕ, String, Bool, Bytes}
use raxd.Prelude.Int.{ℤ}

pub record Config : Type 0 where
  pub upload_root : Bytes
  pub max_file_bytes : ℤ
  pub max_total_bytes : ℤ
  pub default_mode : ℕ
  pub deny_root : Bool

pub record Input : Type 0 where
  pub rel_path : Bytes
  pub contents : Bytes
  pub overwrite : Bool
  pub mode : ℕ

pub record Written : Type 0 where
  pub rel_path : Bytes
  pub size : ℕ
  pub overwritten : Bool
  pub mode : ℕ

-- `io` is any other error, with the text that wraps it.
pub data UploadError : Type 0 where
  traversal exists is_dir too_large bad_mode quota_exceeded : UploadError
  io : String → UploadError
