-- ===== src/Daemon.antt =====
-- The server of internal/server with the handler of internal/mcp at /mcp, as runServe of
-- internal/cli/serve.go puts them together: what requests can make it do.
pub mod Authority
pub mod Quota
pub mod Revocation
pub mod Serve
use raxd.Prelude.{ℕ, Option, some, Bytes}
use raxd.CmdExec.{Config as ExecConfig}
use raxd.FileUpload.{Config as UploadConfig}
use raxd.Server.Limiters.{Buckets}
use raxd.Server.Pipeline.{McpHandler}
use raxd.Server.Lifecycle.{Server}
use raxd.Mcp.Server.{Sdk, Machine, Daemon, new_handler}

-- What the server is built of.
pub record Setting (L : Type 0) : Type 0 where
  pub buckets : Buckets L
  pub server : Server
  pub sdk : Sdk
  pub meets : ℕ → Machine
  pub version : Bytes
  pub exec_cfg : ExecConfig
  pub upl_cfg : UploadConfig

abbrev pub mcp_of : {L : Type 0} → Setting L → Option (McpHandler Daemon)
mcp_of c = some (new_handler c.meets c.version c.exec_cfg c.upl_cfg c.sdk)
