-- ===== src/Relay/Channel/States.antt =====
-- What the handlers of a channel leave its state at.
use walletpair.Common.{
  ℕ, String, Bool, Option, none, some, ◌≡◌, ◌≢◌, ◌⊎◌, inl, inr, refl, arith, is_just_iff,
  Option-cases, List, ◌∙◌,
}
use walletpair.Relay.Types.{
  Role, dapp, wallet, ChannelState, no_channel, waiting, pending_accept, connected, closed,
  channel_not_found, invalid_role, invalid_state, protocol_error,
}
use walletpair.Relay.Protocol.{terminate, terminate_with_target, ready_waiting}
use walletpair.Relay.Channel.State.{
  Socket, Channel, send_and_close, persist_state, built, raw_text, find_peer_ws, send,
}
use walletpair.Relay.Channel.Pairing.{
  Room, cleared, refused, make_room, create_in, open_channel, join_in, register_wallet,
  forward_join, join_failed, revert_to_waiting, handle_accept, connect_peers,
}
use walletpair.Relay.Channel.Traffic.{
  DataMessage, a_req, a_res, a_evt, a_ping, a_pong, track, data_refusal, handle_data, admit,
  persist_if_tracked, handle_close, expected_peer_id, other_role, forward,
}
use walletpair.Relay.Channel.Quiet.{send_and_close-Quiet, forward-Quiet, send-Quiet}

state-persist : (c : Channel) → (persist_state c).channel_state ≡ c.channel_state
unfolding persist_state
state-persist c = ground arith

module _ (throws : Socket → Bool) where
  abbrev RoomState : ChannelState → Channel → Room → Type 0
  RoomState s c (cleared c') = s ≢ pending_accept
  RoomState s c (refused c') = c'.channel_state ≡ c.channel_state

  pub make_room-state :
      (s : ChannelState) (id : ℕ) (ch : String) (c : Channel)
      → RoomState s c (make_room throws s id ch c)
  unfolding make_room
  make_room-state waiting id ch c = λ e. cc
  make_room-state connected id ch c = elim (Option-cases (find_peer_ws dapp c.sockets)) [
    | inl e ↦ rw (e, make_room) (λ f. cc)
    | inr (s, e) ↦ rw (e, make_room) (send_and_close-Quiet throws id _ c).state
  ]
  make_room-state pending_accept id ch c = (send_and_close-Quiet throws id _ c).state
  make_room-state closed id ch c = λ e. cc
  make_room-state no_channel id ch c = λ e. cc

  pub create_in-state :
      (now id : ℕ) (ch from : String) (s : ChannelState) (c : Channel) (room : Room)
      → RoomState s c room
      → ((create_in throws now id ch from room).0.channel_state ≡ c.channel_state)
        ⊎ ((s ≢ pending_accept)
            × ((create_in throws now id ch from room).0.channel_state ≡ waiting))
  unfolding create_in open_channel send persist_state
  create_in-state now id ch from s c (refused c') h = inl h
  create_in-state now id ch from s c (cleared c') h = inr (h, ground arith)

  join_failed-state :
      (id : ℕ) (ch : String) (c : Channel) → (join_failed throws id ch c).channel_state ≡ waiting
  unfolding join_failed
  join_failed-state id ch c =
      let reverted = revert_to_waiting c in
      let refusal = terminate ch channel_not_found in
      state-persist (send_and_close throws id refusal reverted)
      ∙ (send_and_close-Quiet throws id refusal reverted).state
      ∙ (unfold revert_to_waiting in refl)

  forward_join-state :
      (id : ℕ) (from : String) (b : Bool) (ch raw : String) (c : Channel)
      → ((forward_join throws id from b ch raw c).0.channel_state ≡ waiting)
        ⊎ ((forward_join throws id from b ch raw c).0.channel_state ≡ c.channel_state)
  unfolding forward_join
  forward_join-state id from b ch raw c = elim (Option-cases (find_peer_ws dapp c.sockets)) [
    | inl e ↦ rw (e, forward_join) (inl (join_failed-state id ch c))
    | inr (s, e) ↦ elim (Option-cases (send throws s.id (raw_text raw) c)) [
      | inl f ↦ rw (e, f, forward_join) (inl (join_failed-state id ch c))
      | inr (c', f) ↦
          let told = (send-Quiet throws s.id (raw_text raw) c c' f).state in
          let frame = built (ready_waiting ch wallet from b) in
          elim (Option-cases (send throws id frame c')) [
            | inl g ↦ rw (e, f, g, forward_join) (inr told)
            | inr (c'', g) ↦
                rw (e, f, g, forward_join)
                  (inr (state-persist c'' ∙ (send-Quiet throws id frame c' c'' g).state ∙ told))
          ]
    ]
  ]

  register_wallet-state :
      (id : ℕ) (ch from : String) (b : Bool) (c : Channel)
      → (register_wallet id ch from b c).channel_state ≡ pending_accept
  unfolding register_wallet
  register_wallet-state id ch from b c = refl

  pub join_in-state :
      (s : ChannelState) (id : ℕ) (ch from : String) (b : Bool) (raw : String) (c : Channel)
      → c.channel_state ≡ s
      → ((join_in throws s id ch from b raw c).0.channel_state ≡ c.channel_state)
        ⊎ ((c.channel_state ≡ waiting)
            × ((join_in throws s id ch from b raw c).0.channel_state ≡ pending_accept))
  unfolding join_in
  join_in-state waiting id ch from b raw c e = ground (
    arith,
    forward_join-state id from b ch raw (register_wallet id ch from b c),
    register_wallet-state id ch from b c,
  )
  join_in-state _ id ch from b raw c e = inl (send_and_close-Quiet throws id _ c).state

  connect_peers-state :
      (now : ℕ) (ch from : String) (c : Channel)
      → ((connect_peers throws now ch from c).channel_state ≡ connected)
        ⊎ ((connect_peers throws now ch from c).channel_state ≡ closed)
  unfolding connect_peers persist_state
  connect_peers-state now ch from c = ground arith

  pub handle_accept-state :
      (now id : ℕ) (ch from target : String) (r : Role) (c : Channel)
      → ((handle_accept throws now id ch from target r c).channel_state ≡ c.channel_state)
        ⊎ ((r ≡ dapp)
            × (c.dapp_peer_id ≡ some from)
            × (c.wallet_peer_id ≡ some target)
            × (c.channel_state ≡ pending_accept)
            × (((handle_accept throws now id ch from target r c).channel_state ≡ connected)
                ⊎ ((handle_accept throws now id ch from target r c).channel_state ≡ closed)))
  unfolding handle_accept
  handle_accept-state now id ch from target r c = ground (
    arith,
    connect_peers-state now ch from c,
    (send_and_close-Quiet throws id (terminate ch invalid_role) c).state,
    (send_and_close-Quiet throws id (terminate ch invalid_state) c).state,
    (send_and_close-Quiet throws id (terminate_with_target ch protocol_error target) c).state,
    is_just_iff from c.dapp_peer_id,
    is_just_iff target c.wallet_peer_id,
  )

  persist_if_tracked-state :
      (m : DataMessage) (c : Channel) → (persist_if_tracked m c).channel_state ≡ c.channel_state
  persist_if_tracked-state (a_req n) c = state-persist c
  persist_if_tracked-state (a_res n) c = state-persist c
  persist_if_tracked-state (a_evt n) c = refl
  persist_if_tracked-state a_ping c = refl
  persist_if_tracked-state a_pong c = refl

  admit-state :
      (id : ℕ) (raw ch : String) (m : DataMessage) (r : Role) (o : Option (List String))
      (c : Channel)
      → (admit throws id raw ch m r o c).channel_state ≡ c.channel_state
  unfolding admit
  admit-state id raw ch m r none c = (send_and_close-Quiet throws id _ c).state
  admit-state id raw ch m r (some qs) c =
      let c' = record c { pending_requests = qs } in
      persist_if_tracked-state m (forward throws (other_role r) raw c')
      ∙ (forward-Quiet throws (other_role r) raw c').state

  pub handle_data-state :
      (id : ℕ) (raw ch from : String) (m : DataMessage) (r : Role) (c : Channel)
      → (handle_data throws id raw ch from m r c).channel_state ≡ c.channel_state
  unfolding handle_data
  handle_data-state id raw ch from m r c = ground (
    arith,
    (send_and_close-Quiet throws id (terminate ch invalid_role) c).state,
    (send_and_close-Quiet throws id (terminate ch (data_refusal c.channel_state m)) c).state,
    admit-state id raw ch m r (track m c.pending_requests) c,
  )

  pub handle_close-state :
      (id : ℕ) (raw ch from : String) (r : Role) (c : Channel)
      → ((handle_close throws id raw ch from r c).channel_state ≡ c.channel_state)
        ⊎ ((expected_peer_id r c ≡ some from)
            × ((handle_close throws id raw ch from r c).channel_state ≡ closed))
  unfolding handle_close persist_state
  handle_close-state id raw ch from r c = ground (
    arith,
    (send_and_close-Quiet throws id (terminate ch invalid_role) c).state,
    is_just_iff from (expected_peer_id r c),
  )
