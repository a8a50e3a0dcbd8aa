-- ===== src/Relay/Channel/Transitions.antt =====
-- How a message may change the state of a channel. The specification names, for each change, the
-- message, the sender and what the channel knew.
use walletpair.Common.{
  ℕ, String, Bool, not, ◌&&◌, Option, none, some, ◌≡◌, ◌≢◌, ◌⊎◌, inl, inr, refl, is_just,
  is_just_iff, Bool-cases, ltb, units, codes,
}
use walletpair.Json.{Json}
use walletpair.Relay.Types.{
  dapp, ChannelState, waiting, pending_accept, connected, closed, WsAttachment,
}
use walletpair.Relay.Protocol.{
  ClientMessage, create, join, accept, req, res, evt, ping, pong, close, ch_of, Parsed, ok, fail,
  parse_message,
}
use walletpair.Relay.Channel.State.{
  Socket, Channel, get_attachment, truthy, ensure_initialized, max_message_bytes,
}
use walletpair.Relay.Channel.Pairing.{handle_create, handle_join}
use walletpair.Relay.Channel.Traffic.{a_req, a_res, a_evt, a_ping, a_pong, expected_peer_id}
use walletpair.Relay.Channel.Events.{
  Message, text, binary, handle_message, handle_first_message, dispatch, recreate, deliver, receive,
  web_socket_message,
}
use walletpair.Relay.Channel.Quiet.{send_and_close-Quiet}
use walletpair.Relay.Channel.States.{
  make_room-state, create_in-state, join_in-state, handle_accept-state, handle_data-state,
  handle_close-state,
}

-- The role of the socket that the message came on, if it has one; the message; the channel before;
-- and its state after.
pub data Change (r : Option WsAttachment) (msg : ClientMessage) (c : Channel) (s : ChannelState)
    : Type 0 where
  unchanged : s ≡ c.channel_state → Change r msg c s
  -- A create opens a channel, but not while a wallet waits to be accepted.
  opened :
      (ch from : String)
      → msg ≡ create ch from
      → c.channel_state ≢ pending_accept
      → s ≡ waiting
      → Change r msg c s
  -- A join is a first message, of a channel that waits.
  joined :
      (ch from : String) (b : Bool)
      → msg ≡ join ch from b
      → r ≡ none
      → c.channel_state ≡ waiting
      → s ≡ pending_accept
      → Change r msg c s
  -- An accept comes from the stored dApp, on a dApp's socket, and names the stored wallet. It ends
  -- in a closed channel if neither peer can be told.
  accepted :
      (a : WsAttachment) (ch from target : String)
      → msg ≡ accept ch from target
      → r ≡ some a
      → a.role ≡ dapp
      → c.dapp_peer_id ≡ some from
      → c.wallet_peer_id ≡ some target
      → c.channel_state ≡ pending_accept
      → (s ≡ connected) ⊎ (s ≡ closed)
      → Change r msg c s
  -- A close comes from the stored peer of the socket's role.
  shut :
      (a : WsAttachment) (ch from reason : String)
      → msg ≡ close ch from reason
      → r ≡ some a
      → expected_peer_id a.role c ≡ some from
      → s ≡ closed
      → Change r msg c s

module _ (throws : Socket → Bool) where
  handle_create-Change :
      (now id : ℕ) (ch from : String) (r : Option WsAttachment) (c : Channel)
      → Change r (create ch from) c (handle_create throws now id ch from c).0.channel_state
  unfolding handle_create
  handle_create-Change now id ch from r c =
      elim (create_in-state throws now id ch from c.channel_state c _
        (make_room-state throws c.channel_state id ch c)) [
          | inl e ↦ unchanged e
          | inr (h, e) ↦ opened ch from refl h e
        ]

  recreate-Change :
      (now id : ℕ) (ch from : String) (r : Option WsAttachment) (c : Channel)
      → Change r (create ch from) c (recreate throws now id ch from c).0.channel_state
  unfolding recreate
  recreate-Change now id ch from r c =
      elim (Bool-cases (truthy c.dapp_peer_id && not (is_just from c.dapp_peer_id))) [
        | inl e ↦ rw e (unchanged (send_and_close-Quiet throws id _ c).state)
        | inr e ↦ rw e (handle_create-Change now id ch from r c)
      ]

  dispatch-Change :
      (r : Option WsAttachment) (now id : ℕ) (msg : ClientMessage) (raw : String) (c : Channel)
      → Change r msg c (dispatch throws r now id msg raw c).0.channel_state
  unfolding handle_message handle_first_message handle_join
  dispatch-Change none now id (create ch from) raw c = handle_create-Change now id ch from none c
  dispatch-Change none now id (join ch from b) raw c =
      elim (join_in-state throws c.channel_state id ch from b raw c refl) [
        | inl e ↦ unchanged e
        | inr (w, e) ↦ joined ch from b refl refl w e
      ]
  dispatch-Change none now id msg raw c = unchanged (send_and_close-Quiet throws id _ c).state
  dispatch-Change (some a) now id (create ch from) raw c = recreate-Change now id ch from (some a) c
  dispatch-Change (some a) now id (join ch from b) raw c =
      unchanged (send_and_close-Quiet throws id _ c).state
  dispatch-Change (some a) now id (accept ch from target) raw c =
      elim (handle_accept-state throws now id ch from target a.role c) [
        | inl e ↦ unchanged e
        | inr (h, d, w, p, e) ↦ accepted a ch from target refl refl h d w p e
      ]
  dispatch-Change (some a) now id (close ch from reason) raw c =
      elim (handle_close-state throws id raw ch from a.role c) [
        | inl e ↦ unchanged e
        | inr (h, e) ↦ shut a ch from reason refl refl h e
      ]
  dispatch-Change (some a) now id (req ch from n) raw c =
      unchanged (handle_data-state throws id raw ch from (a_req n) a.role c)
  dispatch-Change (some a) now id (res ch from n) raw c =
      unchanged (handle_data-state throws id raw ch from (a_res n) a.role c)
  dispatch-Change (some a) now id (evt ch from n) raw c =
      unchanged (handle_data-state throws id raw ch from (a_evt n) a.role c)
  dispatch-Change (some a) now id (ping ch from) raw c =
      unchanged (handle_data-state throws id raw ch from a_ping a.role c)
  dispatch-Change (some a) now id (pong ch from) raw c =
      unchanged (handle_data-state throws id raw ch from a_pong a.role c)

  -- A message has been delivered that changed the state as `Change` allows.
  pub Delivered : (String → Option Json) → ℕ → Message → Channel → ChannelState → Type 0
  Delivered parse_json id m c s =
      (raw : String) × (msg : ClientMessage) × (m ≡ text raw)
      × (parse_message parse_json raw ≡ ok msg)
      × (c.channel_id ≡ some (ch_of msg))
      × Change (get_attachment id c.sockets) msg c s

  -- Whatever arrives on whatever socket, and whatever sends throw, the state changes only by a text
  -- that parses to a message for this channel, and then only as `Change` allows: a channel
  -- becomes connected by an accept of the stored dApp that names the stored wallet, and by nothing
  -- else.
  pub web_socket_message-Change :
      (parse_json : String → Option Json) (now id : ℕ) (m : Message) (c : Channel)
      → let s = (web_socket_message throws parse_json now id m c).0.channel_state in
        let c' = ensure_initialized c in (s ≡ c'.channel_state) ⊎ Delivered parse_json id m c' s
  unfolding web_socket_message receive deliver Delivered
  web_socket_message-Change parse_json now id binary c =
      inl (send_and_close-Quiet throws id _ (ensure_initialized c)).state
  web_socket_message-Change parse_json now id (text raw) c =
      let c' = ensure_initialized c in
      elim (Bool-cases (ltb max_message_bytes (units (codes raw)))) [
        | inl e ↦ rw e (inl (send_and_close-Quiet throws id _ c').state)
        | inr e ↦ rw e (delivered c' (parse_message parse_json raw) refl)
      ]
    where
      delivered :
          (c' : Channel) (p : Parsed ClientMessage)
          → parse_message parse_json raw ≡ p
          → ((deliver throws now id p raw c').0.channel_state ≡ c'.channel_state)
            ⊎ ((raw' : String) × (msg : ClientMessage) × (text raw ≡ text raw')
                × (parse_message parse_json raw' ≡ ok msg)
                × (c'.channel_id ≡ some (ch_of msg))
                × Change
                    (get_attachment id c'.sockets)
                    msg
                    c'
                    (deliver throws now id p raw c').0.channel_state)
      delivered c' (fail e) q = inl (send_and_close-Quiet throws id _ c').state
      delivered c' (ok msg) q = elim (Bool-cases (is_just (ch_of msg) c'.channel_id)) [
        | inl f ↦
            rw (f, deliver)
              (inr (
                raw,
                msg,
                refl,
                q,
                (is_just_iff (ch_of msg) c'.channel_id).0 f,
                dispatch-Change (get_attachment id c'.sockets) now id msg raw c',
              ))
        | inr f ↦ rw (f, deliver) (inl (send_and_close-Quiet throws id _ c').state)
      ]
