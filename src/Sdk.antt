-- ===== src/Sdk.antt =====
-- The SDK (walletpair-sdk/src).
pub mod Types
pub mod ChainIds
pub mod Crypto
pub mod DApp
pub mod Wallet
pub mod Exchange
pub mod Transport
pub mod Errors
pub mod DisconnectLog
pub mod Provider
pub mod Maps
pub mod Objects
pub mod Tests
