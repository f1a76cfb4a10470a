-- ===== src/Engine.antt =====
-- internal/engine: the storage substrate, the envelopes and the chat room on top of it.
pub mod Store
pub mod MockStore
pub mod Crypto
pub mod Envelope
pub mod Window
pub mod Room
pub mod OpenDht
