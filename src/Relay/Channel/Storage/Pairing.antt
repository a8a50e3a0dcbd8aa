-- ===== src/Relay/Channel/Storage/Pairing.antt =====
-- Storage and memory after creating, joining and accepting.
use walletpair.Common.{
  ℕ, ◌+◌, String, Bool, false, not, ◌||◌, none, ◌≡◌, Option-cases, inl, inr, is_just,
}
use walletpair.Relay.Types.{
  Role, dapp, wallet, ChannelState, no_channel, waiting, pending_accept, connected, closed,
}
use walletpair.Relay.Protocol.{ready_waiting, ready_connected, is_dapp}
use walletpair.Relay.Channel.State.{
  Socket, Channel, returned, thrown, or_empty, built, raw_text, send, find_peer_ws, arm_alarm,
  unpaired_ttl_ms, connected_ttl_ms,
}
use walletpair.Relay.Channel.Pairing.{
  Room, cleared, refused, make_room, create_in, open_channel, join_in, register_wallet,
  forward_join, join_failed, revert_to_waiting, handle_accept, connect_peers, tell, or_same,
  was_sent, is_pending_accept,
}
use walletpair.Relay.Channel.Quiet.{
  send-Quiet, send_and_close-Quiet, replace_peer-Quiet, or_same-Quiet,
}
use walletpair.Relay.Channel.Storage.{
  Durable, Live, Durable-Live, Quiet-Live, Quiet-Durable, persist_state-Durable, Durable-alarm,
  thrown-ne-returned, if-Durable, refuse-Durable,
}

module _ (throws : Socket → Bool) where
  abbrev pub RoomDurable : Room → Type 0
  RoomDurable (cleared c) = Durable c
  RoomDurable (refused c) = Durable c

  pub make_room-Durable :
      (s : ChannelState) (id : ℕ) (ch : String) (c : Channel)
      → Durable c
      → RoomDurable (make_room throws s id ch c)
  unfolding make_room
  make_room-Durable waiting id ch c d = Quiet-Durable (replace_peer-Quiet throws dapp ch c) d
  make_room-Durable connected id ch c d = elim (Option-cases (find_peer_ws dapp c.sockets)) [
    | inl e ↦ rw (e, make_room) (Quiet-Durable (replace_peer-Quiet throws wallet ch c) d)
    | inr (s, e) ↦ rw (e, make_room) (refuse-Durable throws id _ c d)
  ]
  make_room-Durable pending_accept id ch c d = refuse-Durable throws id _ c d
  make_room-Durable closed id ch c d = d
  make_room-Durable no_channel id ch c d = d

  open_channel-Live :
      (id : ℕ) (ch from : String) (c : Channel) → Durable c → Live (open_channel id ch from c)
  unfolding open_channel
  open_channel-Live id ch from c d = record { awake = d.awake; named = d.named }

  pub create_in-Durable :
      (now id : ℕ) (ch from : String) (room : Room)
      → RoomDurable room
      → (create_in throws now id ch from room).1 ≡ returned
      → Durable (create_in throws now id ch from room).0
  unfolding create_in
  create_in-Durable now id ch from (refused c) d h = d
  create_in-Durable now id ch from (cleared c) d h =
      let frame = built (ready_waiting ch dapp from false) in
      let c' = open_channel id ch from c in
      elim (Option-cases (send throws id frame c')) [
        | inl e ↦ absurd (unsent e)
        | inr (c'', e) ↦
            let l =
              Quiet-Live (send-Quiet throws id frame c' c'' e) (open_channel-Live id ch from c d) in
            rw (e, create_in)
              (persist_state-Durable (arm_alarm (now + unpaired_ttl_ms) c'')
                (record { awake = l.awake; named = l.named }))
      ]
    where
      unsent :
          send throws id (built (ready_waiting ch dapp from false)) (open_channel id ch from c)
            ≡ none
          → ⊥
      unsent e = let h' : thrown ≡ returned = rw (e, create_in) at h in cc

  join_failed-Durable :
      (id : ℕ) (ch : String) (c : Channel) → Live c → Durable (join_failed throws id ch c)
  unfolding join_failed
  join_failed-Durable id ch c l = persist_state-Durable _ (
      Quiet-Live (send_and_close-Quiet throws id _ (revert_to_waiting c))
        (unfold revert_to_waiting in record { awake = l.awake; named = l.named }))

  forward_join-Durable :
      (id : ℕ) (from : String) (b : Bool) (ch raw : String) (c : Channel)
      → Live c
      → (forward_join throws id from b ch raw c).1 ≡ returned
      → Durable (forward_join throws id from b ch raw c).0
  unfolding forward_join
  forward_join-Durable id from b ch raw c l h = elim (Option-cases (find_peer_ws dapp c.sockets)) [
    | inl e ↦ rw (e, forward_join) (join_failed-Durable id ch c l)
    | inr (s, e) ↦ elim (Option-cases (send throws s.id (raw_text raw) c)) [
      | inl f ↦ rw (e, f, forward_join) (join_failed-Durable id ch c l)
      | inr (c', f) ↦
          let frame = built (ready_waiting ch wallet from b) in
          let l' = Quiet-Live (send-Quiet throws s.id (raw_text raw) c c' f) l in
          elim (Option-cases (send throws id frame c')) [
            | inl g ↦
                let h' : thrown ≡ returned = rw (e, f, g, forward_join) at h in
                absurd (thrown-ne-returned h')
            | inr (c'', g) ↦
                rw (e, f, g, forward_join)
                  (persist_state-Durable c'' (Quiet-Live (send-Quiet throws id frame c' c'' g) l'))
          ]
    ]
  ]

  pub join_in-Durable :
      (s : ChannelState) (id : ℕ) (ch from : String) (b : Bool) (raw : String) (c : Channel)
      → Durable c
      → (join_in throws s id ch from b raw c).1 ≡ returned
      → Durable (join_in throws s id ch from b raw c).0
  unfolding join_in
  join_in-Durable waiting id ch from b raw c d h =
      forward_join-Durable id from b ch raw (register_wallet id ch from b c)
        (unfold register_wallet in record { awake = d.awake; named = d.named }) h
  join_in-Durable _ id ch from b raw c d h = refuse-Durable throws id _ c d

  connect_peers-Durable :
      (now : ℕ) (ch from : String) (c : Channel)
      → Live c
      → Durable (connect_peers throws now ch from c)
  unfolding connect_peers
  connect_peers-Durable now ch from c l =
      let wallet_id = or_empty c.wallet_peer_id in
      let to_dapp = built (ready_connected ch dapp from wallet_id c.is_reconnect) in
      let to_wallet = built (ready_connected ch wallet wallet_id from c.is_reconnect) in
      let at_dapp = find_peer_ws dapp c.sockets in
      let at_wallet = find_peer_ws wallet c.sockets in
      let told = or_same (tell throws at_dapp to_dapp c) c in
      let both = or_same (tell throws at_wallet to_wallet told) told in
      let l' : Live both =
        Quiet-Live (or_same-Quiet throws at_wallet to_wallet told)
          (Quiet-Live (or_same-Quiet throws at_dapp to_dapp c) l) in
      if-Durable
        (was_sent (tell throws at_dapp to_dapp c)
          || was_sent (tell throws at_wallet to_wallet told))
        (persist_state-Durable
          (arm_alarm (now + connected_ttl_ms) (record both { channel_state = connected }))
          (record { awake = l'.awake; named = l'.named }))
        (Durable-alarm none (
          persist_state-Durable (record both { channel_state = closed })
            (record { awake = l'.awake; named = l'.named })))

  pub handle_accept-Durable :
      (now id : ℕ) (ch from target : String) (r : Role) (c : Channel)
      → Durable c
      → Durable (handle_accept throws now id ch from target r c)
  unfolding handle_accept
  handle_accept-Durable now id ch from target r c d =
      if-Durable (not (is_dapp r) || not (is_just from c.dapp_peer_id))
        (refuse-Durable throws id _ c d)
        (if-Durable (not (is_pending_accept c.channel_state)) (refuse-Durable throws id _ c d) (
          if-Durable (not (is_just target c.wallet_peer_id)) (refuse-Durable throws id _ c d)
            (connect_peers-Durable now ch from c (Durable-Live d))))
