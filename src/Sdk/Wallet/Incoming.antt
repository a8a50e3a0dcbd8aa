-- ===== src/Sdk/Wallet/Incoming.antt =====
-- walletpair-sdk/src/types.ts: the messages that a wallet receives.
use walletpair.Common.{String, Bool, true, false, Option}
use walletpair.Json.{Json}

-- What a message has beside its type, as far as a wallet reads it.
pub data WalletBody : Type 0 where
  -- `state` and `remote`
  ready : Option String → Option String → WalletBody
  -- `id` and `sealed`
  req : Option String → Option String → WalletBody
  ping pong close : WalletBody
  -- `reason`
  terminate : Option String → WalletBody
  -- `create`, `join`, `accept`, `res`, `evt`, and types that are not of the protocol.
  other : WalletBody

-- `v`, `from` and the body.
pub record WalletMessage : Type 0 where
  pub v : Option Json
  pub from : String
  pub body : WalletBody

-- What only the relay sends.
abbrev pub is_from_adapter : WalletBody → Bool
is_from_adapter (WalletBody.ready state remote) = true
is_from_adapter (WalletBody.terminate reason) = true
is_from_adapter _ = false
