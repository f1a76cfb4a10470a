-- ===== src/Mesh/Daemon.antt =====
-- internal/mesh/daemon.go: the loop that ties names, roster, candidates, device and router together.
pub mod World
pub mod Node
pub mod Cidrs
pub mod Spokes
pub mod Plans
pub mod Race
pub mod Tick
