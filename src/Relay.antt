-- ===== src/Relay.antt =====
-- The Cloudflare relay worker (walletpair-websocket-relay-cf-worker/src).
pub mod Types
pub mod Protocol
pub mod Channel
pub mod Routing
mod Tests
