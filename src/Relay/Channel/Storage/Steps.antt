-- ===== src/Relay/Channel/Storage/Steps.antt =====
-- Storage and memory after every event.
use walletpair.Common.{
  ◌≢◌, ◌∷◌, ◌++◌, [], ℕ, String, Bool, true, false, not, ◌&&◌, Option, none, some, ◌≡◌, refl, ltb,
  is_just, if◌then◌else◌, units, codes, Bool-cases, inl, inr,
}
use walletpair.Json.{Json}
use walletpair.Relay.Types.{
  WsAttachment, closed, invalid_state, invalid_role, protocol_error, payload_too_large,
}
use walletpair.Relay.Protocol.{
  ClientMessage, create, join, accept, req, res, evt, ping, pong, close, ch_of, Parsed, ok, fail,
  parse_message, terminate,
}
use walletpair.Relay.Channel.State.{
  snapshot, max_message_bytes, Socket, Channel, Flow, returned, truthy, or_empty, get_attachment,
}
use walletpair.Relay.Channel.Pairing.{handle_create, handle_join, make_room}
use walletpair.Relay.Channel.Traffic.{a_req, a_res, a_evt, a_ping, a_pong}
use walletpair.Relay.Channel.Events.{
  Message, text, binary, handle_first_message, recreate, handle_message, dispatch, id_or_unknown,
  deliver, receive, web_socket_message, web_socket_close, time_out, expire, alarm,
}
use walletpair.Relay.Channel.Runs.{
  fetch, Request, new_socket, adopt, is_upgrade, valid_ch, link_changed, evicted, requested, Event,
  Event, received, closed_by_peer, timed_out, step,
}
use walletpair.Relay.Channel.Quiet.{time_out-Quiet}
use walletpair.Relay.Channel.Recovery.{ensure_initialized_awake}
use walletpair.Relay.Channel.Storage.{
  Durable, Durable-Live, Quiet-Live, persist_state-Durable, if-Durable, refuse-Durable,
}
use walletpair.Relay.Channel.Storage.Pairing.{
  make_room-Durable, create_in-Durable, join_in-Durable, handle_accept-Durable,
}
use walletpair.Relay.Channel.Storage.Traffic.{
  handle_data-Durable, handle_close-Durable, handle_disconnect-Durable,
}

-- A handler's result: durable unless an exception ended it.
pub record Kept (r : Channel × Flow) : Type 0 where
  pub durable : r.1 ≡ returned → Durable r.0

if-Kept : (b : Bool) {x y : Channel × Flow} → Kept x → Kept y → Kept (if b then x else y)
if-Kept true h k = h
if-Kept false h k = k

kept : {c : Channel} (f : Flow) → Durable c → Kept (c, f)
kept f d = record { durable = λ e. d }

module _ (throws : Socket → Bool) where
  handle_create-Kept :
      (now id : ℕ) (ch from : String) (c : Channel)
      → Durable c
      → Kept (handle_create throws now id ch from c)
  unfolding handle_create
  handle_create-Kept now id ch from c d = record {
    durable =
        create_in-Durable throws now id ch from (make_room throws c.channel_state id ch c)
          (make_room-Durable throws c.channel_state id ch c d);
  }

  handle_join-Kept :
      (id : ℕ) (ch from : String) (b : Bool) (raw : String) (c : Channel)
      → Durable c
      → Kept (handle_join throws id ch from b raw c)
  unfolding handle_join
  handle_join-Kept id ch from b raw c d = record {
    durable = join_in-Durable throws c.channel_state id ch from b raw c d;
  }

  recreate-Kept :
      (now id : ℕ) (ch from : String) (c : Channel)
      → Durable c
      → Kept (recreate throws now id ch from c)
  unfolding recreate
  recreate-Kept now id ch from c d =
      if-Kept (truthy c.dapp_peer_id && not (is_just from c.dapp_peer_id))
        (kept returned (refuse-Durable throws id (terminate ch invalid_role) c d))
        (handle_create-Kept now id ch from c d)

  dispatch-Kept :
      (o : Option WsAttachment) (now id : ℕ) (msg : ClientMessage) (raw : String) (c : Channel)
      → Durable c
      → Kept (dispatch throws o now id msg raw c)
  unfolding handle_first_message handle_message
  dispatch-Kept none now id (create ch from) raw c d = handle_create-Kept now id ch from c d
  dispatch-Kept none now id (join ch from b) raw c d = handle_join-Kept id ch from b raw c d
  dispatch-Kept none now id msg raw c d = kept returned (refuse-Durable throws id _ c d)
  dispatch-Kept (some a) now id (create ch from) raw c d = recreate-Kept now id ch from c d
  dispatch-Kept (some a) now id (join ch from b) raw c d =
      kept returned (refuse-Durable throws id (terminate ch invalid_state) c d)
  dispatch-Kept (some a) now id (accept ch from target) raw c d =
      kept returned (handle_accept-Durable throws now id ch from target a.role c d)
  dispatch-Kept (some a) now id (close ch from reason) raw c d =
      kept returned (handle_close-Durable throws id raw ch from a.role c d)
  dispatch-Kept (some a) now id (req ch from n) raw c d =
      kept returned (handle_data-Durable throws id raw ch from (a_req n) a.role c d)
  dispatch-Kept (some a) now id (res ch from n) raw c d =
      kept returned (handle_data-Durable throws id raw ch from (a_res n) a.role c d)
  dispatch-Kept (some a) now id (evt ch from n) raw c d =
      kept returned (handle_data-Durable throws id raw ch from (a_evt n) a.role c d)
  dispatch-Kept (some a) now id (ping ch from) raw c d =
      kept returned (handle_data-Durable throws id raw ch from a_ping a.role c d)
  dispatch-Kept (some a) now id (pong ch from) raw c d =
      kept returned (handle_data-Durable throws id raw ch from a_pong a.role c d)

  deliver-Kept :
      (now id : ℕ) (p : Parsed ClientMessage) (raw : String) (c : Channel)
      → Durable c
      → Kept (deliver throws now id p raw c)
  unfolding deliver
  deliver-Kept now id (fail e) raw c d = kept returned (refuse-Durable throws id _ c d)
  deliver-Kept now id (ok msg) raw c d =
      if-Kept (not (is_just (ch_of msg) c.channel_id))
        (kept returned (refuse-Durable throws id (terminate (ch_of msg) protocol_error) c d))
        (dispatch-Kept (get_attachment id c.sockets) now id msg raw c d)

  receive-Kept :
      (parse_json : String → Option Json) (now id : ℕ) (m : Message) (c : Channel)
      → Durable c
      → Kept (receive throws parse_json now id m c)
  unfolding receive
  receive-Kept parse_json now id binary c d = kept returned (refuse-Durable throws id _ c d)
  receive-Kept parse_json now id (text raw) c d =
      if-Kept (ltb max_message_bytes (units (codes raw)))
        (kept returned
          (refuse-Durable throws id (terminate (id_or_unknown c.channel_id) payload_too_large) c d))
        (deliver-Kept now id (parse_message parse_json raw) raw c d)

  expire-Durable : (c : Channel) → Durable c → Durable (expire throws c)
  unfolding expire
  expire-Durable c d =
      let l =
        Quiet-Live (time_out-Quiet throws c.sockets (or_empty c.channel_id) c) (Durable-Live d) in
      if-Durable (truthy c.channel_id)
        (persist_state-Durable
          (record (time_out throws c.sockets (or_empty c.channel_id) c) { channel_state = closed })
          (record { awake = l.awake; named = l.named }))
        d

adopt-Durable :
    (o ch : Option String) (c : Channel) → c.channel_id ≡ o → Durable c → Durable (adopt o ch c)
adopt-Durable none ch c e d = let named = d.named in cc
adopt-Durable (some known) ch c e d = d

fetch-Durable : (id : ℕ) (r : Request) (c : Channel) → Durable c → Durable (fetch id r c).1
unfolding fetch snapshot
fetch-Durable id r c d =
    let c' : Channel = record c { sockets = c.sockets ++ new_socket id ∷ [] } in
    let d' : Durable c' = record { awake = d.awake; named = d.named; saved = d.saved } in
    elim (Bool-cases (is_upgrade r.upgrade)) [
      | inr e ↦ rw e d
      | inl e ↦ elim (Bool-cases (valid_ch r.ch)) [
        | inr f ↦ rw (e, f) d
        | inl f ↦
            rw (e, f)
              (rw (ensure_initialized_awake c' d.awake)
                (adopt-Durable c'.channel_id r.ch c' refl d'))
      ]
    ]

web_socket_message-Durable :
    (throws : Socket → Bool) (parse_json : String → Option Json) (c : Channel) (now id : ℕ)
    (m : Message)
    → Durable c
    → (web_socket_message throws parse_json now id m c).1 ≡ returned
    → Durable (web_socket_message throws parse_json now id m c).0
unfolding web_socket_message
web_socket_message-Durable throws parse_json c now id m d =
    rw (ensure_initialized_awake c d.awake) (receive-Kept throws parse_json now id m c d).durable

-- If storage holds what is in memory, then after every event but an eviction it does so again,
-- unless the handler of the event ended in an exception: no change of state is left unsaved.
pub step-Durable :
    (throws : Socket → Bool) (parse_json : String → Option Json) (c : Channel) (e : Event)
    → Durable c
    → e ≢ evicted
    → (step throws parse_json e c).1 ≡ returned
    → Durable (step throws parse_json e c).0
unfolding step web_socket_message web_socket_close alarm snapshot
step-Durable throws parse_json c (requested id r) d n f = fetch-Durable id r c d
step-Durable throws parse_json c (received now id m) d n f =
    web_socket_message-Durable throws parse_json c now id m d f
step-Durable throws parse_json c (closed_by_peer now id) d n f =
    rw (ensure_initialized_awake c d.awake) (handle_disconnect-Durable throws now id c d)
step-Durable throws parse_json c timed_out d n f =
    rw (ensure_initialized_awake c d.awake) (expire-Durable throws c d)
step-Durable throws parse_json c (link_changed id k) d n f = record {
  awake = d.awake;
  named = d.named;
  saved = d.saved;
}
step-Durable throws parse_json c evicted d n f = absurd (n refl)
