-- ===== src/Tests.antt =====
-- Runs of the theorems at concrete inputs.
pub mod Toy
mod StoreTests
mod RoomTests
mod MeshTests
mod RosterTests
mod DhtTests
mod RouterTests
pub mod DaemonTests
mod CmdTests
