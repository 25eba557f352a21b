-- ===== src/Lib.antt =====
-- raxd is a daemon that runs commands and takes files for AI agents, over TLS and MCP. A request
-- is authenticated by a key of the key store; the tools execute_command and upload_file then check
-- their input, run a process or write a file, and write audit records.
--
-- Which file models what:
--   Keystore          internal/keystore: the records (record.go), the errors (errors.go), the state
--                     of the file, of its temporary files and of `usageBuf`, and the faults.
--   Keystore/Crypto   crypto.go. Keystore/Disk: acquireLock, readDB and writeDB.
--   Keystore/Usage    the usage buffer. Keystore/Store: Open, Create, Verify, List, Revoke and
--                     FlushUsage of keystore.go.
--   Keystore/History  sequences of calls; Atomic, Revocation, Verification, Effects, Flush and
--                     Outcomes hold the lemmas and theorems about them.
--   Keystore/Locking  flock and rename between processes, as a step relation: exclusive and
--                     shared locks, and the errors.
--   FileUpload        internal/fileupload: config.go and the types of upload.go.
--   FileUpload/Mode   mode.go, and parseModeStr of internal/config/config.go; FileUpload/Policy.
--   FileUpload/Path   path/filepath as upload.go uses it; FileUpload/Confinement.
--   FileUpload/Root   os.Root as a tree, currentBytes of quota.go; FileUpload/Write: Write,
--                     writeWithQuota, writeUnderRoot and doWrite of upload.go.
--   CmdExec           internal/cmdexec: config.go and the types of exec.go; CmdExec/CappedWriter is
--                     cappedwriter.go, CmdExec/Run the rest of exec.go; CmdExec/Group: sysproc_linux.go,
--                     sysproc_unix.go, sysproc_unix_other.go and sysproc_stub.go.
--   Server/Audit      AuditRecord of internal/server/audit.go; Server/Audit/Lines: writeAudit,
--                     formatArgs and joinStrings.
--   Server/Limiters   ratelimit.go: the buckets of keys and addresses; its Isolation follows them
--                     through requests and sweeps.
--   Server/Request    what the middlewares read of a request (auth.go, middleware.go).
--   Server/Pipeline   the middlewares of auth.go and middleware.go, the handlers of handlers.go,
--                     and the chain of New of server.go; Gate, Passing and Revoked hold its
--                     lemmas and theorems.
--   Mcp/ExecTool      execHandler of internal/mcp/exec_tool.go; Mcp/UploadTool: uploadHandler of
--                     upload_tool.go; Mcp/Base64: encoding/base64; Mcp/Caller: the context;
--                     Mcp/Tools: withAudit of audit.go, and ping and server_info of tools.go.
--   Mcp/Server        NewHandler of internal/mcp/server.go: the tools on one state, called in turn;
--                     Mcp/Server/Tools: the descriptors of the tools.
--   Daemon            the server with the handler of NewHandler; its Authority, Quota, Revocation
--                     and Serve/Quota are about whole requests, runs of the server, and the command
--                     serve, whose configuration of the tools is in Daemon/Serve.
--   Config            internal/config/config.go: Load, buildConfig and parseDuration;
--                     Config/Bounds; Config/Defaults: the calls of SetDefault.
--   Service           internal/service: the types of service.go. Service/Paths: purge.go;
--                     Service/Passwd: the account line and the exit codes of userdel (systemd.go).
--   Service/Templates templates.go; Service/Systemd: Install, Uninstall, Start, Stop and Status of
--                     systemd.go, with RunManager of exec.go; Service/Purge: Purge;
--                     Service/Launchd: launchd.go. Service/Exec: the results of RunManager, and
--                     mapExitCode and neutralizeStderr.
--                     Service/Manager: ServiceManager and New of service.go; its Laws are what
--                     the theorems on commands take of a manager.
--   Config/Paths      internal/config/paths.go. Server/Tls: internal/server/tls.go; Server/Lifecycle:
--                     New and Run of internal/server/server.go, with the shutdown.
--   Cli               internal/cli: the lines that a command prints. Cli/Key: key.go; Cli/Service:
--                     service.go, with the texts in Cli/Service/Messages; Cli/Serve: serve.go;
--                     Cli/Root: root.go, status.go, version.go, stub.go and cmd/raxd/main.go;
--                     Cli/Banner: internal/banner/banner.go and internal/version/version.go.
--   Prelude           the shared names and lemmas. Tests: runs and applied theorems.
--
-- A function that changes state takes the state and returns its result or error with the state
-- after it, so what was done before an error stays done. A record of faults says which system
-- calls of an operation fail; theorems hold for every such record unless they say otherwise. The
-- calls of a history of the key store follow one another, except that calls may stand between the
-- snapshot of FlushUsage and its write: the mutex of `Store` guards the usage buffer, and the lock
-- on the file is modelled on its own in Keystore/Locking. An upload under a quota holds a mutex.
-- SHA-256 is a parameter. Random bytes are arguments. The loop for an id runs over the list of
-- draws; it ends with an error only where the list is used up. Times are numbers; bytes are
-- numbers, and nothing needs them below 256.
--
-- Parameters stand for golang.org/x/time/rate (a bucket and its Allow at a time), for the mux and
-- the text functions of the standard library on Unicode, for viper, which is given the
-- defaults, and for systemctl, launchctl, useradd, userdel, getent, dscl and the links of the file
-- system. One request reads one clock. A request runs to its end before the next one in the model,
-- also where the source would answer two at a time. The handler
-- that is mounted at /mcp has a state of its own. A write of a unit file may stop half way. Texts
-- of the templates are lists of code points.
--
-- The command serve composes the paths, the configuration, the key store, the certificate, the
-- server and the tools, the way runServe does; what one start meets is a record, as is what one
-- run of the server meets: whether the port is bound, how the wait ends, and the requests that are
-- answered before Shutdown returns. Parameters stand there for the generation of a key and a
-- certificate, for the test of a pair by crypto/tls, for the texts of errors that are printed as
-- they are, for the format of a date, quoting, and tablewriter. Cli/Serve takes the handler at
-- /mcp as a parameter, and Daemon/Serve gives it that of NewHandler. The MCP SDK is a parameter
-- there: which calls of tools a request asks for, and the reply; it hands the context of the
-- request on to the tools, which are called one after another. What the call after n calls meets,
-- faults and random bytes included, is `meets n`, and so is what becomes of the upload root
-- outside the daemon while a command runs, through its processes or others.
--
-- The operating system of a process group is a record of functions on a state: the clock, start,
-- wait, wait4, kill and sleep. That the clock advances during wait4, and does not run back in a
-- sleep, is a record of hypotheses; the group may start processes meanwhile. The loop of
-- reapGroupOrphans has fuel: one turn for each nanosecond of its timeout, and one more.
--
-- Not modelled: the tree of commands that cobra is given, the schemas that the SDK derives, the
-- fields of the certificate and the settings of TLS, requests that still run when the time of
-- Shutdown is over, the escapes of JSON, and the parents that MkdirAll makes. Symbolic links in
-- the upload root, which os.Root follows within it: a tree has directories, regular files, and
-- pipes, sockets and devices. The operating system of CmdExec/Run is a parameter, so that the end
-- of a process is what it gives; CmdExec/Group follows the calls on the group on their own. A
-- negative max_output_bytes, on which make panics, counts as 0. Time stamps of audit records are
-- left out, as is the report that Purge returns besides an error, which no caller reads. The
-- console of serve has the lines of the command and the warnings of Run; the lines of the audit,
-- which the logger writes to standard error between them, are kept as records.
pub mod Prelude
pub mod Keystore
pub mod FileUpload
pub mod CmdExec
pub mod Server
pub mod Mcp
pub mod Service
pub mod Config
pub mod Cli
pub mod Daemon
pub mod Tests
