-- ===== src/Relay/Channel/Storage.antt =====
-- Storage and memory: when storage holds what is in memory.
pub mod Pairing
pub mod Traffic
pub mod Steps
use walletpair.Common.{
  ℕ, ◌+◌, String, Bool, true, false, not, ◌&&◌, ◌||◌, Option, none, some, List, [], ◌∷◌, ◌≡◌, ◌≢◌,
  refl, sym, ◌∙◌, ap, arith, Option-cases, Bool-cases, inl, inr, if◌then◌else◌, is_just,
}
use walletpair.Json.{Json}
use walletpair.Relay.Types.{
  Role, dapp, wallet, ChannelState, no_channel, waiting, pending_accept, connected, closed,
  WsAttachment, invalid_role, invalid_state, protocol_error,
}
use walletpair.Relay.Protocol.{
  ClientMessage, create, join, accept, req, res, evt, ping, pong, close, ch_of, Parsed, ok, fail,
  parse_message, terminate, terminate_with_target, ready_waiting, ready_connected, AdapterMessage,
  is_dapp, state_allows_message,
}
use walletpair.Relay.Channel.State.{
  Socket, Channel, Flow, returned, thrown, truthy, or_empty, snapshot, persist_state, built,
  raw_text, ensure_initialized, send, send_and_close, find_peer_ws, arm_alarm, delete_alarm,
  get_attachment, unpaired_ttl_ms, connected_ttl_ms,
}
use walletpair.Relay.Channel.Pairing.{
  Room, cleared, refused, make_room, create_in, open_channel, handle_create, join_in, handle_join,
  register_wallet, forward_join, join_failed, revert_to_waiting, handle_accept, connect_peers, tell,
  or_same, was_sent, is_pending_accept, replace_peer,
}
use walletpair.Relay.Channel.Traffic.{
  DataMessage, a_req, a_res, a_evt, a_ping, a_pong, track, data_refusal, handle_data, admit,
  persist_if_tracked, handle_close, other_role, close_peer, forward, dapp_gone, wallet_gone,
  disconnect_in, handle_disconnect, type_of, expected_peer_id,
}
use walletpair.Relay.Channel.Quiet.{
  Quiet, send-Quiet, send_then_close-Quiet, send_and_close-Quiet, replace_peer-Quiet, forward-Quiet,
  close_peer-Quiet, close_ws-Quiet, or_same-Quiet, Quiet-trans, time_out-Quiet,
}

pub record Durable (c : Channel) : Type 0 where
  pub awake : c.initialized ≡ true
  pub named : truthy c.channel_id ≡ true
  pub saved : c.storage ≡ some (snapshot c)

pub Quiet-Durable : {c c' : Channel} → Quiet c c' → Durable c → Durable c'
unfolding snapshot
Quiet-Durable q d = ground arith

-- In memory, and knowing its id.
pub record Live (c : Channel) : Type 0 where
  pub awake : c.initialized ≡ true
  pub named : truthy c.channel_id ≡ true

pub Durable-Live : {c : Channel} → Durable c → Live c
Durable-Live d = record { awake = d.awake; named = d.named }

pub Quiet-Live : {c c' : Channel} → Quiet c c' → Live c → Live c'
Quiet-Live q l = record { awake = q.initialized ∙ l.awake; named = ap truthy q.id ∙ l.named }

-- A channel with a name becomes durable when it is persisted.
pub persist_state-Durable : (c : Channel) → Live c → Durable (persist_state c)
unfolding persist_state
persist_state-Durable c l = rw l.named (record { awake = l.awake; named = l.named; saved = refl })

pub thrown-ne-returned : thrown ≡ returned → ⊥
thrown-ne-returned e = cc

pub Durable-alarm : {c : Channel} (o : Option ℕ) → Durable c → Durable (record c { alarm_at = o })
unfolding snapshot
Durable-alarm o d = record { awake = d.awake; named = d.named; saved = d.saved }

pub if-Durable : (b : Bool) {x y : Channel} → Durable x → Durable y → Durable (if b then x else y)
if-Durable true d e = d
if-Durable false d e = e

module _ (throws : Socket → Bool) where
  pub refuse-Durable :
      (id : ℕ) (m : AdapterMessage) (c : Channel)
      → Durable c
      → Durable (send_and_close throws id m c)
  refuse-Durable id m c = Quiet-Durable (send_and_close-Quiet throws id m c)
