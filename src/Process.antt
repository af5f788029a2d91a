-- ===== src/Process.antt =====
-- src/process-manager/: the OPC UA runtime as a child process.
pub mod Sessions
pub mod Manager
