-- ===== src/Relay/Channel.antt =====
-- walletpair-websocket-relay-cf-worker/src/channel.ts: the Durable Object of a channel.
pub mod State
pub mod Pairing
pub mod Traffic
pub mod Events
pub mod Runs
pub mod Quiet
pub mod Sets
pub mod Invariant
pub mod States
pub mod Transitions
pub mod Recovery
pub mod Storage
pub mod Delivery
pub mod Edges
