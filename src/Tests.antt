-- ===== src/Tests.antt =====
-- Runs at concrete inputs, and the theorems applied at such inputs.
mod Keys
mod Uploads
mod Commands
mod Requests
mod Services
mod Lines
mod Managers
mod Starts
mod Daemons
