-- ===== src/Relay/Channel/Storage/Traffic.antt =====
-- Storage and memory after data, close and disconnect.
use walletpair.Common.{
  ℕ, ◌+◌, String, Bool, false, not, Option, none, some, List, ◌≡◌, refl, arith, Option-cases, inl,
  inr, is_just,
}
use walletpair.Relay.Types.{
  Role, dapp, wallet, ChannelState, waiting, pending_accept, closed, invalid_role,
}
use walletpair.Relay.Protocol.{terminate, state_allows_message}
use walletpair.Relay.Channel.State.{
  Socket, Channel, snapshot, persist_state, find_peer_ws, arm_alarm, delete_alarm, get_attachment,
  unpaired_ttl_ms,
}
use walletpair.Relay.Channel.Traffic.{
  DataMessage, a_req, a_res, track, data_refusal, handle_data, admit, handle_close, other_role,
  close_peer, dapp_gone, wallet_gone, disconnect_in, handle_disconnect, type_of, expected_peer_id,
}
use walletpair.Relay.Channel.Quiet.{
  send_then_close-Quiet, forward-Quiet, close_peer-Quiet, close_ws-Quiet,
}
use walletpair.Relay.Channel.Storage.{
  Durable, Live, Durable-Live, Quiet-Live, Quiet-Durable, persist_state-Durable, Durable-alarm,
  if-Durable, refuse-Durable,
}

module _ (throws : Socket → Bool) where
  -- Only a request or a response changes the pending set, and both are persisted.
  admit-Durable :
      (id : ℕ) (raw ch : String) (m : DataMessage) (r : Role) (o : Option (List String))
      (c : Channel)
      → track m c.pending_requests ≡ o
      → Durable c
      → Durable (admit throws id raw ch m r o c)
  unfolding admit track
  admit-Durable id raw ch m r none c e d = refuse-Durable throws id _ c d
  admit-Durable id raw ch (a_req n) r (some qs) c e d = persist_state-Durable _ (
      Quiet-Live (forward-Quiet throws (other_role r) raw (record c { pending_requests = qs }))
        (record { awake = d.awake; named = d.named }))
  admit-Durable id raw ch (a_res n) r (some qs) c e d = persist_state-Durable _ (
      Quiet-Live (forward-Quiet throws (other_role r) raw (record c { pending_requests = qs }))
        (record { awake = d.awake; named = d.named }))
  admit-Durable id raw ch m r (some qs) c e d =
      Quiet-Durable (forward-Quiet throws (other_role r) raw (record c { pending_requests = qs }))
        (unfold snapshot in ground arith)

  pub handle_data-Durable :
      (id : ℕ) (raw ch from : String) (m : DataMessage) (r : Role) (c : Channel)
      → Durable c
      → Durable (handle_data throws id raw ch from m r c)
  unfolding handle_data
  handle_data-Durable id raw ch from m r c d =
      if-Durable (not (is_just from (expected_peer_id r c)))
        (refuse-Durable throws id (terminate ch invalid_role) c d)
        (if-Durable (not (state_allows_message c.channel_state (type_of m) r))
          (refuse-Durable throws id (terminate ch (data_refusal c.channel_state m)) c d)
          (admit-Durable id raw ch m r (track m c.pending_requests) c refl d))

  pub closed-Durable :
      (c : Channel)
      → Live c
      → Durable (delete_alarm (persist_state (record c { channel_state = closed })))
  closed-Durable c l = Durable-alarm none (
      persist_state-Durable (record c { channel_state = closed })
        (record { awake = l.awake; named = l.named }))

  pub handle_close-Durable :
      (id : ℕ) (raw ch from : String) (r : Role) (c : Channel)
      → Durable c
      → Durable (handle_close throws id raw ch from r c)
  unfolding handle_close
  handle_close-Durable id raw ch from r c d =
      if-Durable (not (is_just from (expected_peer_id r c)))
        (refuse-Durable throws id (terminate ch invalid_role) c d)
        (closed-Durable _ (
          Quiet-Live (close_ws-Quiet id "closed" (close_peer throws (other_role r) raw c))
            (Quiet-Live (close_peer-Quiet throws (other_role r) raw c) (Durable-Live d))))

  dapp_gone-Durable : (ch : String) (c : Channel) → Live c → Durable (dapp_gone throws ch c)
  unfolding dapp_gone
  dapp_gone-Durable ch c l = elim (Option-cases (find_peer_ws wallet c.sockets)) [
    | inl e ↦ rw (e, dapp_gone) (closed-Durable c l)
    | inr (s, e) ↦
        rw (e, dapp_gone)
          (closed-Durable _ (Quiet-Live (send_then_close-Quiet throws s.id _ _ c) l))
  ]

  wallet_gone-Durable : (now : ℕ) (c : Channel) → Live c → Durable (wallet_gone now c)
  unfolding wallet_gone
  wallet_gone-Durable now c l =
      persist_state-Durable
        (arm_alarm (now + unpaired_ttl_ms)
          (record c { wallet_peer_id = none; is_reconnect = false; channel_state = waiting }))
        (record { awake = l.awake; named = l.named })

  disconnect_in-Durable :
      (s : ChannelState) (r : Role) (now : ℕ) (ch : String) (c : Channel)
      → Durable c
      → Durable (disconnect_in throws s r now ch c)
  unfolding disconnect_in
  disconnect_in-Durable waiting dapp now ch c d = dapp_gone-Durable ch c (Durable-Live d)
  disconnect_in-Durable pending_accept dapp now ch c d = dapp_gone-Durable ch c (Durable-Live d)
  disconnect_in-Durable pending_accept wallet now ch c d =
      wallet_gone-Durable now c (Durable-Live d)
  disconnect_in-Durable _ _ now ch c d = d

  pub handle_disconnect-Durable :
      (now id : ℕ) (c : Channel) → Durable c → Durable (handle_disconnect throws now id c)
  unfolding handle_disconnect
  handle_disconnect-Durable now id c d = elim (Option-cases (get_attachment id c.sockets)) [
    | inl e ↦ rw (e, handle_disconnect) d
    | inr (a, e) ↦
        rw (e, handle_disconnect)
          (if-Durable _ (disconnect_in-Durable c.channel_state a.role now _ c d) d)
  ]
