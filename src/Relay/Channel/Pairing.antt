-- ===== src/Relay/Channel/Pairing.antt =====
-- channel.ts: handleCreate, handleJoin and handleAccept. `id` is the socket that the message came
-- on, and `now` is `Date.now()`.
use walletpair.Common.{
  ℕ, ◌+◌, String, Bool, true, false, not, ◌||◌, Option, none, some, [], is_just, if◌then◌else◌,
}
use walletpair.Relay.Types.{
  Role, dapp, wallet, ChannelState, no_channel, waiting, pending_accept, connected, closed,
  CloseReasonString, normal, channel_not_found, channel_exists, already_connected, invalid_state,
  invalid_role, protocol_error,
}
use walletpair.Relay.Protocol.{
  ready_waiting, ready_connected, terminate, terminate_with_target, is_dapp,
}
use walletpair.Relay.Channel.State.{
  unpaired_ttl_ms, connected_ttl_ms, Socket, built, raw_text, Frame, Channel, Flow, returned,
  thrown, or_empty, set_attachment, find_peer_ws, send, send_then_close, send_and_close,
  persist_state, arm_alarm, delete_alarm,
}

-- What stands in the way of a new channel has been closed, or the create was turned down.
pub data Room : Type 0 where
  cleared refused : Channel → Room

unfoldable pub open_channel : ℕ → String → String → Channel → Channel
unfolding set_attachment
open_channel id ch from c = record c {
  channel_state = waiting;
  dapp_peer_id = some from;
  wallet_peer_id = none;
  is_reconnect = false;
  pending_requests = [];
  sockets = set_attachment id (record { role = dapp; peer_id = from; channel_id = ch }) c.sockets;
}

unfoldable pub register_wallet : ℕ → String → String → Bool → Channel → Channel
unfolding set_attachment
register_wallet id ch from sealed_join_null c = record c {
  wallet_peer_id = some from;
  is_reconnect = sealed_join_null;
  channel_state = pending_accept;
  sockets = set_attachment id (record { role = wallet; peer_id = from; channel_id = ch }) c.sockets;
}

-- The wallet is forgotten, and the channel waits again.
unfoldable pub revert_to_waiting : Channel → Channel
revert_to_waiting c = record c {
  wallet_peer_id = none;
  is_reconnect = false;
  channel_state = waiting;
}

abbrev join_refusal : ChannelState → CloseReasonString
join_refusal closed = channel_not_found
join_refusal no_channel = channel_not_found
join_refusal _ = already_connected

abbrev pub or_same : Option Channel → Channel → Channel
or_same none c = c
or_same (some c') c = c'

abbrev pub was_sent : Option Channel → Bool
was_sent none = false
was_sent (some c) = true

abbrev pub is_pending_accept : ChannelState → Bool
is_pending_accept pending_accept = true
is_pending_accept _ = false

module _ (throws : Socket → Bool) where
  -- The socket of a peer that is replaced, if it is still open.
  unfoldable pub replace_peer : Role → String → Channel → Channel
  unfolding find_peer_ws send_then_close
  replace_peer r ch c = elim (find_peer_ws r c.sockets) [
    | none ↦ c
    | some s ↦ send_then_close throws s.id (built (terminate ch normal)) "replaced" c
  ]

  -- The switch of `handleCreate`.
  unfoldable pub make_room : ChannelState → ℕ → String → Channel → Room
  unfolding replace_peer send_and_close
  make_room waiting id ch c = cleared (replace_peer dapp ch c)
  make_room connected id ch c = elim (find_peer_ws dapp c.sockets) [
    | none ↦ cleared (replace_peer wallet ch c)
    | some s ↦ refused (send_and_close throws id (terminate ch channel_exists) c)
  ]
  make_room pending_accept id ch c =
      refused (send_and_close throws id (terminate ch channel_exists) c)
  make_room closed id ch c = cleared c
  make_room no_channel id ch c = cleared c

  -- The rest of `handleCreate`; the send of `ready` stands outside a `try`.
  unfoldable pub create_in : ℕ → ℕ → String → String → Room → Channel × Flow
  unfolding open_channel send persist_state
  create_in now id ch from (refused c) = (c, returned)
  create_in now id ch from (cleared c) =
      let c' = open_channel id ch from c in
      elim (send throws id (built (ready_waiting ch dapp from false)) c') [
        | none ↦ (c', thrown)
        | some c'' ↦ (persist_state (arm_alarm (now + unpaired_ttl_ms) c''), returned)
      ]

  unfoldable pub handle_create : ℕ → ℕ → String → String → Channel → Channel × Flow
  unfolding make_room create_in
  handle_create now id ch from c = create_in now id ch from (make_room c.channel_state id ch c)

  unfoldable pub join_failed : ℕ → String → Channel → Channel
  unfolding revert_to_waiting send_and_close persist_state
  join_failed id ch c =
      persist_state
        (send_and_close throws id (terminate ch channel_not_found) (revert_to_waiting c))

  unfoldable pub forward_join : ℕ → String → Bool → String → String → Channel → Channel × Flow
  unfolding find_peer_ws send join_failed persist_state
  forward_join id from sealed_join_null ch raw c = elim (find_peer_ws dapp c.sockets) [
    | none ↦ (join_failed id ch c, returned)
    | some s ↦ elim (send throws s.id (raw_text raw) c) [
      | none ↦ (join_failed id ch c, returned)
      | some c' ↦ elim (send throws id (built (ready_waiting ch wallet from sealed_join_null)) c') [
        | none ↦ (c', thrown)
        | some c'' ↦ (persist_state c'', returned)
      ]
    ]
  ]

  unfoldable pub join_in :
      ChannelState → ℕ → String → String → Bool → String → Channel → Channel × Flow
  unfolding send_and_close register_wallet forward_join
  join_in waiting id ch from sealed_join_null raw c =
      forward_join id from sealed_join_null ch raw (register_wallet id ch from sealed_join_null c)
  join_in state id ch from sealed_join_null raw c =
      (send_and_close throws id (terminate ch (join_refusal state)) c, returned)

  unfoldable pub handle_join : ℕ → String → String → Bool → String → Channel → Channel × Flow
  unfolding join_in
  handle_join id ch from sealed_join_null raw c =
      join_in c.channel_state id ch from sealed_join_null raw c

  abbrev pub tell : Option Socket → Frame → Channel → Option Channel
  tell none frame c = none
  tell (some s) frame c = send throws s.id frame c

  -- Both peers are told; the channel is connected if one of them could be.
  unfoldable pub connect_peers : ℕ → String → String → Channel → Channel
  unfolding find_peer_ws send persist_state
  connect_peers now ch from c =
      let wallet_id = or_empty c.wallet_peer_id in
      let to_dapp =
        tell (find_peer_ws dapp c.sockets)
          (built (ready_connected ch dapp from wallet_id c.is_reconnect)) c in
      let c' = or_same to_dapp c in
      let to_wallet =
        tell (find_peer_ws wallet c.sockets)
          (built (ready_connected ch wallet wallet_id from c.is_reconnect)) c' in
      let c'' = or_same to_wallet c' in
      if was_sent to_dapp || was_sent to_wallet
      then persist_state
          (arm_alarm (now + connected_ttl_ms) (record c'' { channel_state = connected }))
      else delete_alarm (persist_state (record c'' { channel_state = closed }))

  unfoldable pub handle_accept : ℕ → ℕ → String → String → String → Role → Channel → Channel
  unfolding send_and_close connect_peers
  handle_accept now id ch from target sender_role c =
      if not (is_dapp sender_role) || not (is_just from c.dapp_peer_id)
      then send_and_close throws id (terminate ch invalid_role) c
      else if not (is_pending_accept c.channel_state)
      then send_and_close throws id (terminate ch invalid_state) c
      else if not (is_just target c.wallet_peer_id)
      then send_and_close throws id (terminate_with_target ch protocol_error target) c
      else connect_peers now ch from c
