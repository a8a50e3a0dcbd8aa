-- ===== src/Sdk/Types.antt =====
-- walletpair-sdk/src/types.ts: the phases of a dApp's session, the messages it receives, and which
-- reasons end it for good.
use walletpair.Common.{
  String, Bool, true, false, not, ◌||◌, Option, none, some, List, [], ◌∷◌, ◌=s◌, if◌then◌else◌,
}
use walletpair.Json.{Json}

pub data DAppPhase : Type 0 where
  idle waiting pending_accept connected disconnected closed : DAppPhase

-- What a message has beside its type, as far as a dApp reads it.
pub data Body : Type 0 where
  -- `state` and `remote`
  ready : Option String → Option String → Body
  -- `sealed_join`
  join : Option Json → Body
  -- `id` and `sealed`
  res evt : Option String → Option String → Body
  ping pong close : Body
  -- `reason`
  terminate : Option String → Body
  -- `create`, `accept`, `req`, and types that are not of the protocol.
  other : Body

-- `v`, `from` and the body.
pub record ProtocolMessage : Type 0 where
  pub v : Option Json
  pub from : String
  pub body : Body

unfoldable pub includes : String → List String → Bool
includes x [] = false
includes x (y ∷ ys) = x =s y || includes x ys

abbrev pub permanent_close_reasons : List String
permanent_close_reasons =
    "normal" ∷ "user_rejected" ∷ "unsupported_capability" ∷ "unsupported_version"
    ∷ "already_connected" ∷ "decryption_failed" ∷ []

unfoldable pub is_recoverable_close_reason : Option String → Bool
unfolding includes
is_recoverable_close_reason none = true
is_recoverable_close_reason (some reason) =
    if reason =s "" then true else not (includes reason permanent_close_reasons)
