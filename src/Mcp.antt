-- ===== src/Mcp.antt =====
-- internal/mcp: the handlers of the tools execute_command, upload_file, ping and server_info.
pub mod Caller
pub mod ExecTool
pub mod Base64
pub mod UploadTool
pub mod Tools
pub mod Server
