-- ===== src/Mesh.antt =====
-- internal/mesh: the overlay network.
pub mod Deriver
pub mod Spokes
pub mod Record
pub mod Roster
pub mod Peers
pub mod Candidates
pub mod FakeDevice
pub mod LinuxDevice
pub mod Router
pub mod Daemon
pub mod Export
