-- ===== src/Sdk/Wallet.antt =====
-- walletpair-sdk/src/wallet-session.ts: the session of a wallet.
pub mod State
pub mod Closing
pub mod Responses
pub mod Requests
pub mod Reconnecting
pub mod Incoming
pub mod Messages
pub mod Lifecycle
pub mod Soundness
pub mod Repeats
pub mod Answers
pub mod Duplicates
pub mod Asking
pub mod Edges
pub mod Tests
