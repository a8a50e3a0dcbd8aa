-- ===== src/Relay/Channel/Invariant/Traffic.antt =====
-- Well-formedness of a channel under data, close and disconnect.
use walletpair.Common.{
  ℕ, ◌≤◌, String, Bool, true, false, Option, none, some, List, ◌≡◌, arith, length, Option-cases,
  inl, inr, is_just, not, refl,
}
use walletpair.Relay.Types.{Role, dapp, wallet, ChannelState, waiting, pending_accept, invalid_role}
use walletpair.Relay.Protocol.{terminate, state_allows_message}
use walletpair.Relay.Channel.State.{
  Socket, Channel, truthy, find_peer_ws, get_attachment, pending_request_limit,
}
use walletpair.Relay.Channel.Traffic.{
  DataMessage, a_req, a_res, a_evt, a_ping, a_pong, other_role, persist_if_tracked,
  expected_peer_id, type_of, data_refusal, track, admit, handle_data, handle_close,
  handle_disconnect, disconnect_in, close_peer, dapp_gone, wallet_gone,
}
use walletpair.Relay.Channel.Sets.{
  Distinct, add-Distinct, delete-Distinct, length-add-le, length-delete-le,
}
use walletpair.Relay.Channel.Quiet.{
  send_then_close-Quiet, send_and_close-Quiet, forward-Quiet, close_peer-Quiet, close_ws-Quiet,
}
use walletpair.Relay.Channel.Invariant.{
  Peers, Inv, persist_state-Inv, Quiet-Inv, Inv-alarm, Inv-closed, if-Inv,
}

track-Fine :
    (m : DataMessage) (ps : List String) {qs : List String}
    → length ps ≤ pending_request_limit
    → Distinct ps
    → track m ps ≡ some qs
    → (length qs ≤ pending_request_limit) × Distinct qs
unfolding track
track-Fine (a_req n) ps l d e = ground (arith, length-add-le ps n, add-Distinct ps n d)
track-Fine (a_res n) ps l d e = ground (arith, length-delete-le ps n, delete-Distinct ps n d)
track-Fine (a_evt n) ps l d e = ground arith
track-Fine a_ping ps l d e = ground arith
track-Fine a_pong ps l d e = ground arith

persist_if_tracked-Inv : (m : DataMessage) (c : Channel) → Inv c → Inv (persist_if_tracked m c)
persist_if_tracked-Inv (a_req n) c v = persist_state-Inv c v
persist_if_tracked-Inv (a_res n) c v = persist_state-Inv c v
persist_if_tracked-Inv (a_evt n) c v = v
persist_if_tracked-Inv a_ping c v = v
persist_if_tracked-Inv a_pong c v = v

module _ (throws : Socket → Bool) where
  admit-Inv :
      (id : ℕ) (raw ch : String) (m : DataMessage) (r : Role) (o : Option (List String))
      (c : Channel)
      → track m c.pending_requests ≡ o
      → Inv c
      → Inv (admit throws id raw ch m r o c)
  unfolding admit
  admit-Inv id raw ch m r none c e v = Quiet-Inv (send_and_close-Quiet throws id _ c) v
  admit-Inv id raw ch m r (some qs) c e v =
      let f = track-Fine m c.pending_requests v.memory.bounded v.memory.distinct e in
      persist_if_tracked-Inv m _ (
        Quiet-Inv (forward-Quiet throws (other_role r) raw (record c { pending_requests = qs }))
          (record {
            memory = record { peers = v.memory.peers; bounded = f.0; distinct = f.1 };
            stored = v.stored;
          }))

  -- A message of data, whether it is refused or forwarded.
  pub handle_data-Inv :
      (id : ℕ) (raw ch from : String) (m : DataMessage) (r : Role) (c : Channel)
      → Inv c
      → Inv (handle_data throws id raw ch from m r c)
  unfolding handle_data
  handle_data-Inv id raw ch from m r c v =
      if-Inv (not (is_just from (expected_peer_id r c)))
        (Quiet-Inv (send_and_close-Quiet throws id (terminate ch invalid_role) c) v)
        (if-Inv (not (state_allows_message c.channel_state (type_of m) r))
          (Quiet-Inv
            (send_and_close-Quiet throws id (terminate ch (data_refusal c.channel_state m)) c) v)
          (admit-Inv id raw ch m r (track m c.pending_requests) c refl v))

  pub handle_close-Inv :
      (id : ℕ) (raw ch from : String) (r : Role) (c : Channel)
      → Inv c
      → Inv (handle_close throws id raw ch from r c)
  unfolding handle_close
  handle_close-Inv id raw ch from r c v =
      let w = Quiet-Inv (close_peer-Quiet throws (other_role r) raw c) v in
      let u = Quiet-Inv (close_ws-Quiet id "closed" (close_peer throws (other_role r) raw c)) w in
      if-Inv _ (Quiet-Inv (send_and_close-Quiet throws id _ c) v)
        (Inv-alarm none (persist_state-Inv _ (Inv-closed u)))

  dapp_gone-Inv : (ch : String) (c : Channel) → Inv c → Inv (dapp_gone throws ch c)
  unfolding dapp_gone
  dapp_gone-Inv ch c v = elim (Option-cases (find_peer_ws wallet c.sockets)) [
    | inl e ↦ rw (e, dapp_gone) (Inv-alarm none (persist_state-Inv _ (Inv-closed v)))
    | inr (s, e) ↦
        rw (e, dapp_gone)
          (Inv-alarm none (
            persist_state-Inv _
              (Inv-closed (Quiet-Inv (send_then_close-Quiet throws s.id _ _ c) v))))
  ]

  wallet_gone-Inv :
      (now : ℕ) (c : Channel) → truthy c.dapp_peer_id ≡ true → Inv c → Inv (wallet_gone now c)
  unfolding wallet_gone
  wallet_gone-Inv now c h v = persist_state-Inv _ (
      Inv-alarm
        {c = record c { wallet_peer_id = none; is_reconnect = false; channel_state = waiting }} _
        (record {
          memory = record {
            peers = (h, refl);
            bounded = v.memory.bounded;
            distinct = v.memory.distinct;
          };
          stored = v.stored;
        }))

  disconnect_in-Inv :
      (state : ChannelState) (r : Role) (now : ℕ) (ch : String) (c : Channel)
      → c.channel_state ≡ state
      → Inv c
      → Inv (disconnect_in throws state r now ch c)
  unfolding disconnect_in
  disconnect_in-Inv waiting dapp now ch c e v = dapp_gone-Inv ch c v
  disconnect_in-Inv pending_accept dapp now ch c e v = dapp_gone-Inv ch c v
  disconnect_in-Inv pending_accept wallet now ch c e v =
      let p : Peers pending_accept c.dapp_peer_id c.wallet_peer_id = rw e at v.memory.peers in
      wallet_gone-Inv now c p.0 v
  disconnect_in-Inv _ _ now ch c e v = v

  pub handle_disconnect-Inv :
      (now id : ℕ) (c : Channel) → Inv c → Inv (handle_disconnect throws now id c)
  unfolding handle_disconnect
  handle_disconnect-Inv now id c v = elim (Option-cases (get_attachment id c.sockets)) [
    | inl e ↦ rw (e, handle_disconnect) v
    | inr (a, e) ↦
        rw (e, handle_disconnect)
          (if-Inv _ (disconnect_in-Inv c.channel_state a.role now _ c refl v) v)
  ]
