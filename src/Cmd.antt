-- ===== src/Cmd.antt =====
-- cmd/meshd: the command line and the system service.
pub mod Args
pub mod Init
pub mod Service
