-- ===== src/Sdk/Provider.antt =====
-- walletpair-sdk/src/evm/eip1193.ts: how the EVM provider routes a request, and where it reads the
-- state of a chain.
pub mod Chains
pub mod Endpoints
pub mod Events
pub mod Mapper
pub mod Numbers
pub mod Routing
pub mod Urls
mod Tests
