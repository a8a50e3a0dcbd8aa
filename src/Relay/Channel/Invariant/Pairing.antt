-- ===== src/Relay/Channel/Invariant/Pairing.antt =====
-- Well-formedness of a channel under creating, joining and accepting.
use walletpair.Common.{
  ℕ, ◌+◌, String, Bool, true, false, Option, none, some, ◌≡◌, ◌∙◌, arith, Option-cases, inl, inr,
  is_just, not, ◌||◌, ap, refl,
}
use walletpair.Relay.Types.{
  Role, dapp, wallet, ChannelState, no_channel, waiting, pending_accept, connected, closed,
  invalid_role, invalid_state, protocol_error,
}
use walletpair.Relay.Protocol.{
  AdapterMessage, ready_waiting, ready_connected, terminate, terminate_with_target, is_dapp,
}
use walletpair.Relay.Channel.State.{
  Socket, Channel, truthy, or_empty, built, raw_text, find_peer_ws, send, arm_alarm,
  unpaired_ttl_ms, send_and_close,
}
use walletpair.Relay.Channel.Pairing.{
  handle_create, create_in, make_room, open_channel, Room, cleared, refused, handle_join, join_in,
  join_failed, register_wallet, forward_join, revert_to_waiting, handle_accept, connect_peers,
  is_pending_accept, tell, or_same,
}
use walletpair.Relay.Channel.Quiet.{
  Quiet, send-Quiet, send_and_close-Quiet, replace_peer-Quiet, or_same-Quiet, Quiet-trans,
}
use walletpair.Relay.Channel.Invariant.{
  Peers, Inv, persist_state-Inv, Quiet-Inv, Inv-alarm, if-Inv, if_cases-Inv, Inv-closed, Inv-closed,
}

module _ (throws : Socket → Bool) where
  abbrev RoomInv : Room → Type 0
  RoomInv (cleared c) = Inv c
  RoomInv (refused c) = Inv c

  make_room-Inv :
      (state : ChannelState) (id : ℕ) (ch : String) (c : Channel)
      → Inv c
      → RoomInv (make_room throws state id ch c)
  unfolding make_room
  make_room-Inv waiting id ch c v = Quiet-Inv (replace_peer-Quiet throws dapp ch c) v
  make_room-Inv connected id ch c v = elim (Option-cases (find_peer_ws dapp c.sockets)) [
    | inl e ↦ rw (e, make_room) (Quiet-Inv (replace_peer-Quiet throws wallet ch c) v)
    | inr (s, e) ↦ rw (e, make_room) (Quiet-Inv (send_and_close-Quiet throws id _ c) v)
  ]
  make_room-Inv pending_accept id ch c v = Quiet-Inv (send_and_close-Quiet throws id _ c) v
  make_room-Inv closed id ch c v = v
  make_room-Inv no_channel id ch c v = v

  open_channel-Inv :
      (id : ℕ) (ch from : String) (c : Channel)
      → truthy (some from) ≡ true
      → Inv c
      → Inv (open_channel id ch from c)
  unfolding open_channel
  open_channel-Inv id ch from c h v = record {
    memory = record { peers = (h, refl); bounded = omega arith; distinct = tt };
    stored = v.stored;
  }

  create_in-Inv :
      (now id : ℕ) (ch from : String) (room : Room)
      → truthy (some from) ≡ true
      → RoomInv room
      → Inv (create_in throws now id ch from room).0
  unfolding create_in
  create_in-Inv now id ch from (refused c) h v = v
  create_in-Inv now id ch from (cleared c) h v =
      let w = open_channel-Inv id ch from c h v in
      let frame = built (ready_waiting ch dapp from false) in
      elim (Option-cases (send throws id frame (open_channel id ch from c))) [
        | inl e ↦ rw (e, create_in) w
        | inr (c', e) ↦
            let u = Quiet-Inv (send-Quiet throws id frame _ c' e) w in
            rw (e, create_in)
              (persist_state-Inv (arm_alarm (now + unpaired_ttl_ms) c') (Inv-alarm _ u))
      ]

  -- Creating a channel, in every state, keeps the invariant.
  pub handle_create-Inv :
      (now id : ℕ) (ch from : String) (c : Channel)
      → truthy (some from) ≡ true
      → Inv c
      → Inv (handle_create throws now id ch from c).0
  unfolding handle_create
  handle_create-Inv now id ch from c h v =
      create_in-Inv now id ch from (make_room throws c.channel_state id ch c) h
        (make_room-Inv c.channel_state id ch c v)

  -- A channel whose dApp is known can wait, whatever it was.
  revert_to_waiting-Inv :
      (c : Channel) → truthy c.dapp_peer_id ≡ true → Inv c → Inv (revert_to_waiting c)
  unfolding revert_to_waiting
  revert_to_waiting-Inv c h v = record {
    memory = record { peers = (h, refl); bounded = v.memory.bounded; distinct = v.memory.distinct };
    stored = v.stored;
  }

  join_failed-Inv :
      (id : ℕ) (ch : String) (c : Channel)
      → truthy c.dapp_peer_id ≡ true
      → Inv c
      → Inv (join_failed throws id ch c)
  unfolding join_failed
  join_failed-Inv id ch c h v =
      persist_state-Inv _
        (Quiet-Inv (send_and_close-Quiet throws id _ _) (revert_to_waiting-Inv c h v))

  forward_join-Inv :
      (id : ℕ) (from : String) (b : Bool) (ch raw : String) (c : Channel)
      → truthy c.dapp_peer_id ≡ true
      → Inv c
      → Inv (forward_join throws id from b ch raw c).0
  unfolding forward_join
  forward_join-Inv id from b ch raw c h v = elim (Option-cases (find_peer_ws dapp c.sockets)) [
    | inl e ↦ rw (e, forward_join) (join_failed-Inv id ch c h v)
    | inr (s, e) ↦ elim (Option-cases (send throws s.id (raw_text raw) c)) [
      | inl f ↦ rw (e, f, forward_join) (join_failed-Inv id ch c h v)
      | inr (c', f) ↦
          let u = Quiet-Inv (send-Quiet throws s.id (raw_text raw) c c' f) v in
          let frame = built (ready_waiting ch wallet from b) in
          elim (Option-cases (send throws id frame c')) [
            | inl g ↦ rw (e, f, g, forward_join) u
            | inr (c'', g) ↦
                rw (e, f, g, forward_join)
                  (persist_state-Inv c'' (Quiet-Inv (send-Quiet throws id frame c' c'' g) u))
          ]
    ]
  ]

  join_in-Inv :
      (state : ChannelState) (id : ℕ) (ch from : String) (b : Bool) (raw : String) (c : Channel)
      → c.channel_state ≡ state
      → truthy (some from) ≡ true
      → Inv c
      → Inv (join_in throws state id ch from b raw c).0
  unfolding join_in
  join_in-Inv waiting id ch from b raw c e h v =
      let p : Peers waiting c.dapp_peer_id c.wallet_peer_id = rw e at v.memory.peers in
      forward_join-Inv id from b ch raw (register_wallet id ch from b c)
        (unfold register_wallet in p.0)
        (unfold register_wallet in
          record {
            memory = record {
              peers = (p.0, h);
              bounded = v.memory.bounded;
              distinct = v.memory.distinct;
            };
            stored = v.stored;
          })
  join_in-Inv _ id ch from b raw c e h v = Quiet-Inv (send_and_close-Quiet throws id _ c) v

  -- So does joining one.
  pub handle_join-Inv :
      (id : ℕ) (ch from : String) (b : Bool) (raw : String) (c : Channel)
      → truthy (some from) ≡ true
      → Inv c
      → Inv (handle_join throws id ch from b raw c).0
  unfolding handle_join
  handle_join-Inv id ch from b raw c h v = join_in-Inv c.channel_state id ch from b raw c refl h v

  -- The two states that the accept may end in.
  connect_peers-Inv :
      (now : ℕ) (ch from : String) (c : Channel)
      → truthy c.dapp_peer_id ≡ true
      → truthy c.wallet_peer_id ≡ true
      → Inv c
      → Inv (connect_peers throws now ch from c)
  unfolding connect_peers
  connect_peers-Inv now ch from c d w v =
      let wallet_id = or_empty c.wallet_peer_id in
      let to_dapp = built (ready_connected ch dapp from wallet_id c.is_reconnect) in
      let to_wallet = built (ready_connected ch wallet wallet_id from c.is_reconnect) in
      let at_dapp = find_peer_ws dapp c.sockets in
      let at_wallet = find_peer_ws wallet c.sockets in
      let told = or_same (tell throws at_dapp to_dapp c) c in
      let both = or_same (tell throws at_wallet to_wallet told) told in
      let q : Quiet c both =
        Quiet-trans throws (or_same-Quiet throws at_dapp to_dapp c)
          (or_same-Quiet throws at_wallet to_wallet told) in
      let u = Quiet-Inv q v in
      let connects : Inv (record both { channel_state = connected }) = record {
        memory = record {
          peers = (ap truthy q.dapp ∙ d, ap truthy q.wallet ∙ w);
          bounded = u.memory.bounded;
          distinct = u.memory.distinct;
        };
        stored = u.stored;
      } in
      if-Inv _ (persist_state-Inv _ (Inv-alarm _ connects))
        (Inv-alarm none (persist_state-Inv _ (Inv-closed u)))

  pending_Peers :
      (state : ChannelState) (d w : Option String)
      → is_pending_accept state ≡ true
      → Peers state d w
      → (truthy d ≡ true) × (truthy w ≡ true)
  pending_Peers waiting d w e p = cc
  pending_Peers pending_accept d w e p = p
  pending_Peers connected d w e p = cc
  pending_Peers closed d w e p = cc
  pending_Peers no_channel d w e p = cc

  pub handle_accept-Inv :
      (now id : ℕ) (ch from target : String) (r : Role) (c : Channel)
      → Inv c
      → Inv (handle_accept throws now id ch from target r c)
  unfolding handle_accept
  handle_accept-Inv now id ch from target r c v =
      let refuse : (m : AdapterMessage) → Inv (send_and_close throws id m c) =
        λ m. Quiet-Inv (send_and_close-Quiet throws id m c) v in
      if-Inv (not (is_dapp r) || not (is_just from c.dapp_peer_id))
        (refuse (terminate ch invalid_role))
        (if_cases-Inv (not (is_pending_accept c.channel_state))
          (λ e. refuse (terminate ch invalid_state))
          (λ (e : not (is_pending_accept c.channel_state) ≡ false).
            let p =
              pending_Peers c.channel_state c.dapp_peer_id c.wallet_peer_id (ground arith)
                v.memory.peers in
            if-Inv (not (is_just target c.wallet_peer_id))
              (refuse (terminate_with_target ch protocol_error target))
              (connect_peers-Inv now ch from c p.0 p.1 v)))
