-- ===== src/Relay/Channel/Quiet.antt =====
-- What sending, closing and forwarding leave alone: all of a channel but its sockets and what has
-- been sent.
use walletpair.Common.{ℕ, String, Option, none, some, ◌≡◌, Bool, arith, List, [], ◌∷◌}
use walletpair.Relay.Types.{Role, timeout}
use walletpair.Relay.Protocol.{AdapterMessage, terminate}
use walletpair.Relay.Channel.State.{
  Socket, Frame, built, Channel, send, send_then_close, send_and_close, close_ws,
}
use walletpair.Relay.Channel.Pairing.{replace_peer, or_same, tell}
use walletpair.Relay.Channel.Traffic.{forward, close_peer}
use walletpair.Relay.Channel.Events.{time_out}

pub record Quiet (c c' : Channel) : Type 0 where
  pub state : c'.channel_state ≡ c.channel_state
  pub id : c'.channel_id ≡ c.channel_id
  pub dapp : c'.dapp_peer_id ≡ c.dapp_peer_id
  pub wallet : c'.wallet_peer_id ≡ c.wallet_peer_id
  pub reconnect : c'.is_reconnect ≡ c.is_reconnect
  pub pending : c'.pending_requests ≡ c.pending_requests
  pub initialized : c'.initialized ≡ c.initialized
  pub storage : c'.storage ≡ c.storage
  pub alarm : c'.alarm_at ≡ c.alarm_at

pub close_ws-Quiet : (id : ℕ) (reason : String) (c : Channel) → Quiet c (close_ws id reason c)
unfolding close_ws
close_ws-Quiet id reason c = ground arith

module _ (throws : Socket → Bool) where
  pub send-Quiet :
      (id : ℕ) (frame : Frame) (c c' : Channel) → send throws id frame c ≡ some c' → Quiet c c'
  unfolding send
  send-Quiet id frame c c' e = ground arith

  pub send_then_close-Quiet :
      (id : ℕ) (frame : Frame) (reason : String) (c : Channel)
      → Quiet c (send_then_close throws id frame reason c)
  unfolding send_then_close
  send_then_close-Quiet id frame reason c = ground arith

  pub send_and_close-Quiet :
      (id : ℕ) (message : AdapterMessage) (c : Channel)
      → Quiet c (send_and_close throws id message c)
  unfolding send_and_close
  send_and_close-Quiet id message c = ground arith

  pub replace_peer-Quiet :
      (r : Role) (ch : String) (c : Channel) → Quiet c (replace_peer throws r ch c)
  unfolding replace_peer
  replace_peer-Quiet r ch c = ground arith

  pub forward-Quiet : (r : Role) (raw : String) (c : Channel) → Quiet c (forward throws r raw c)
  unfolding forward
  forward-Quiet r raw c = ground arith

  pub close_peer-Quiet :
      (r : Role) (raw : String) (c : Channel) → Quiet c (close_peer throws r raw c)
  unfolding close_peer
  close_peer-Quiet r raw c = ground arith

  pub or_same-Quiet :
      (o : Option Socket) (frame : Frame) (c : Channel)
      → Quiet c (or_same (tell throws o frame c) c)
  unfolding send
  or_same-Quiet none frame c = ground arith
  or_same-Quiet (some s) frame c = ground arith

  pub Quiet-trans : {a b c : Channel} → Quiet a b → Quiet b c → Quiet a c
  Quiet-trans p q = ground arith

  pub time_out-Quiet :
      (ss : List Socket) (ch : String) (c : Channel) → Quiet c (time_out throws ss ch c)
  unfolding time_out
  time_out-Quiet [] ch c = ground arith
  time_out-Quiet (s ∷ ss) ch c =
      Quiet-trans (send_then_close-Quiet s.id (built (terminate ch timeout)) "timeout" c)
        (time_out-Quiet ss ch _)
