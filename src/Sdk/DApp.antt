-- ===== src/Sdk/DApp.antt =====
-- walletpair-sdk/src/dapp-session.ts: the session of a dApp.
pub mod State
pub mod Closing
pub mod Reconnecting
pub mod Requests
pub mod Joining
pub mod Messages
pub mod Lifecycle
pub mod Soundness
pub mod Replays
pub mod Numbering
pub mod Retries
pub mod Snapshots
pub mod Edges
