-- ===== src/Sdk/Crypto.antt =====
-- walletpair-sdk/src/crypto.ts: encodings, keys, sealed payloads, snapshots and pairing URIs. A text
-- is the list of its codes, and bytes are the list of their numbers.
pub mod Encodings
pub mod Primitives
pub mod Keys
pub mod Payloads
pub mod Snapshots
pub mod PairingUris
mod Tests
