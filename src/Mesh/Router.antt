-- ===== src/Mesh/Router.antt =====
-- internal/mesh/router.go: forwarding, firewall rules and masquerading on the node's host.
pub mod Host
pub mod Nft
pub mod Scan
pub mod Ports
pub mod Forwarding
pub mod Masquerade
pub mod Lifetime
pub mod Cleanup
