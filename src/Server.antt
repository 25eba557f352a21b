-- ===== src/Server.antt =====
-- internal/server: the audit records and lines, the rate limiters, and the chain of middlewares.
pub mod Audit
pub mod Limiters
pub mod Request
pub mod Pipeline
pub mod Tls
pub mod Lifecycle
