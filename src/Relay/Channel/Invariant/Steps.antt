-- ===== src/Relay/Channel/Invariant/Steps.antt =====
-- Well-formedness of a channel under every event and every run.
use walletpair.Common.{
  ℕ, String, Bool, true, false, not, Option, none, some, List, [], ◌∷◌, ◌++◌, ◌≡◌, refl, arith, ltb,
  is_just, if◌then◌else◌, units, codes, ◌&&◌,
}
use walletpair.Json.{Json}
use walletpair.Relay.Types.{
  Role, WsAttachment, invalid_state, invalid_role, protocol_error, payload_too_large,
}
use walletpair.Relay.Protocol.{
  ClientMessage, create, join, accept, req, res, evt, ping, pong, close, ch_of, from_of, Parsed, ok,
  fail, parse_message, terminate, validate_peer_id, AdapterMessage,
}
use walletpair.Relay.Protocol.Parsing.{parse_message-IsValid}
use walletpair.Relay.Protocol.PeerIds.{truthy_peer_id}
use walletpair.Relay.Channel.State.{
  max_message_bytes, Socket, Channel, Flow, truthy, or_empty, get_attachment, send_and_close,
  ensure_initialized,
}
use walletpair.Relay.Channel.Traffic.{a_req, a_res, a_evt, a_ping, a_pong}
use walletpair.Relay.Channel.Events.{
  Message, text, binary, handle_first_message, recreate, handle_message, dispatch, id_or_unknown,
  deliver, receive, web_socket_message, web_socket_close, expire, alarm,
}
use walletpair.Relay.Channel.Runs.{
  Request, fetch, adopt, Event, requested, received, closed_by_peer, timed_out, link_changed,
  evicted, step, run, new_channel, Response, new_socket, is_upgrade, valid_ch,
}
use walletpair.Relay.Channel.Quiet.{send_and_close-Quiet, time_out-Quiet}
use walletpair.Relay.Channel.Invariant.{
  Inv, persist_state-Inv, Quiet-Inv, ensure_initialized-Inv, Inv-closed, if-Inv,
}
use walletpair.Relay.Channel.Invariant.Pairing.{
  handle_create-Inv, handle_join-Inv, handle_accept-Inv,
}
use walletpair.Relay.Channel.Invariant.Traffic.{
  handle_data-Inv, handle_close-Inv, handle_disconnect-Inv,
}

if-Inv₀ : (b : Bool) (x y : Channel × Flow) → Inv x.0 → Inv y.0 → Inv (if b then x else y).0
if-Inv₀ true x y h k = h
if-Inv₀ false x y h k = k

if-Inv₁ : (b : Bool) (x y : Response × Channel) → Inv x.1 → Inv y.1 → Inv (if b then x else y).1
if-Inv₁ true x y h k = h
if-Inv₁ false x y h k = k

module _ (throws : Socket → Bool) where
  refuse-Inv :
      (id : ℕ) (m : AdapterMessage) (c : Channel) → Inv c → Inv (send_and_close throws id m c)
  refuse-Inv id m c v = Quiet-Inv (send_and_close-Quiet throws id m c) v

  recreate-Inv :
      (now id : ℕ) (ch from : String) (c : Channel)
      → truthy (some from) ≡ true
      → Inv c
      → Inv (recreate throws now id ch from c).0
  unfolding recreate
  recreate-Inv now id ch from c h v =
      if-Inv₀ (truthy c.dapp_peer_id && not (is_just from c.dapp_peer_id)) _ _
        (refuse-Inv id (terminate ch invalid_role) c v)
        (handle_create-Inv throws now id ch from c h v)

  handle_message-Inv :
      (now id : ℕ) (r : Role) (msg : ClientMessage) (raw : String) (c : Channel)
      → truthy (some (from_of msg)) ≡ true
      → Inv c
      → Inv (handle_message throws now id r msg raw c).0
  unfolding handle_message from_of
  handle_message-Inv now id r (create ch from) raw c h v = recreate-Inv now id ch from c h v
  handle_message-Inv now id r (join ch from b) raw c h v =
      refuse-Inv id (terminate ch invalid_state) c v
  handle_message-Inv now id r (accept ch from target) raw c h v =
      handle_accept-Inv throws now id ch from target r c v
  handle_message-Inv now id r (req ch from n) raw c h v =
      handle_data-Inv throws id raw ch from (a_req n) r c v
  handle_message-Inv now id r (res ch from n) raw c h v =
      handle_data-Inv throws id raw ch from (a_res n) r c v
  handle_message-Inv now id r (evt ch from n) raw c h v =
      handle_data-Inv throws id raw ch from (a_evt n) r c v
  handle_message-Inv now id r (ping ch from) raw c h v =
      handle_data-Inv throws id raw ch from a_ping r c v
  handle_message-Inv now id r (pong ch from) raw c h v =
      handle_data-Inv throws id raw ch from a_pong r c v
  handle_message-Inv now id r (close ch from reason) raw c h v =
      handle_close-Inv throws id raw ch from r c v

  handle_first_message-Inv :
      (now id : ℕ) (msg : ClientMessage) (raw : String) (c : Channel)
      → truthy (some (from_of msg)) ≡ true
      → Inv c
      → Inv (handle_first_message throws now id msg raw c).0
  unfolding handle_first_message from_of
  handle_first_message-Inv now id (create ch from) raw c h v =
      handle_create-Inv throws now id ch from c h v
  handle_first_message-Inv now id (join ch from b) raw c h v =
      handle_join-Inv throws id ch from b raw c h v
  handle_first_message-Inv now id msg raw c h v =
      refuse-Inv id (terminate (ch_of msg) invalid_state) c v

  dispatch-Inv :
      (o : Option WsAttachment) (now id : ℕ) (msg : ClientMessage) (raw : String) (c : Channel)
      → truthy (some (from_of msg)) ≡ true
      → Inv c
      → Inv (dispatch throws o now id msg raw c).0
  dispatch-Inv none now id msg raw c h v = handle_first_message-Inv now id msg raw c h v
  dispatch-Inv (some a) now id msg raw c h v = handle_message-Inv now id a.role msg raw c h v

  deliver-Inv :
      (now id : ℕ) (p : Parsed ClientMessage) (raw : String) (c : Channel)
      → ((msg : ClientMessage) → p ≡ ok msg → validate_peer_id (from_of msg) ≡ true)
      → Inv c
      → Inv (deliver throws now id p raw c).0
  unfolding deliver
  deliver-Inv now id (fail e) raw c h v = refuse-Inv id _ c v
  deliver-Inv now id (ok msg) raw c h v =
      if-Inv₀ (not (is_just (ch_of msg) c.channel_id)) _ _
        (refuse-Inv id (terminate (ch_of msg) protocol_error) c v)
        (dispatch-Inv (get_attachment id c.sockets) now id msg raw c
          (truthy_peer_id (from_of msg) (h msg refl)) v)

  expire-Inv : (c : Channel) → Inv c → Inv (expire throws c)
  unfolding expire
  expire-Inv c v =
      if-Inv (truthy c.channel_id)
        (persist_state-Inv _
          (Inv-closed (Quiet-Inv (time_out-Quiet throws c.sockets (or_empty c.channel_id) c) v)))
        v

  module _ (parse_json : String → Option Json) where
    receive-Inv :
        (now id : ℕ) (m : Message) (c : Channel)
        → Inv c
        → Inv (receive throws parse_json now id m c).0
    unfolding receive
    receive-Inv now id binary c v = refuse-Inv id _ c v
    receive-Inv now id (text raw) c v =
        if-Inv₀ (ltb max_message_bytes (units (codes raw))) _ _
          (refuse-Inv id (terminate (id_or_unknown c.channel_id) payload_too_large) c v)
          (deliver-Inv now id (parse_message parse_json raw) raw c
            (λ msg e. (parse_message-IsValid parse_json raw e).1) v)

adopt-Inv : (o ch : Option String) (c : Channel) → Inv c → Inv (adopt o ch c)
adopt-Inv none ch c v = record { memory = v.memory; stored = v.stored }
adopt-Inv (some known) ch c v = v

fetch-Inv : (id : ℕ) (r : Request) (c : Channel) → Inv c → Inv (fetch id r c).1
unfolding fetch
fetch-Inv id r c v =
    let joined = record c { sockets = c.sockets ++ new_socket id ∷ [] } in
    let w = ensure_initialized-Inv joined (record { memory = v.memory; stored = v.stored }) in
    if-Inv₁ (not (is_upgrade r.upgrade)) _ _ v (
      if-Inv₁ (not (valid_ch r.ch)) _ _ v
        (adopt-Inv (ensure_initialized joined).channel_id r.ch (ensure_initialized joined) w))

-- Each event keeps a channel well formed, whatever sends throw, whatever the JSON parser, and
-- whether the handler ends in an exception or not: the peers that its state wants are known, at most
-- 256 requests are pending, none twice, and the same holds of what storage keeps.
pub step-Inv :
    (throws : Socket → Bool) (parse_json : String → Option Json) (e : Event) (c : Channel)
    → Inv c
    → Inv (step throws parse_json e c).0
unfolding step
step-Inv throws parse_json (requested id r) c v = fetch-Inv id r c v
step-Inv throws parse_json (received now id m) c v =
    unfold web_socket_message in
    receive-Inv throws parse_json now id m (ensure_initialized c) (ensure_initialized-Inv c v)
step-Inv throws parse_json (closed_by_peer now id) c v =
    unfold web_socket_close in
    handle_disconnect-Inv throws now id (ensure_initialized c) (ensure_initialized-Inv c v)
step-Inv throws parse_json timed_out c v =
    unfold alarm in expire-Inv throws (ensure_initialized c) (ensure_initialized-Inv c v)
step-Inv throws parse_json (link_changed id n) c v = record { memory = v.memory; stored = v.stored }
step-Inv throws parse_json evicted c v = record {
  memory = record { peers = tt; bounded = omega arith; distinct = tt };
  stored = v.stored;
}

run-Inv :
    (parse_json : String → Option Json) (es : List ((Socket → Bool) × Event)) (c : Channel)
    → Inv c
    → Inv (run parse_json es c)
unfolding run
run-Inv parse_json [] c v = v
run-Inv parse_json ((throws, e) ∷ es) c v =
    run-Inv parse_json es (step throws parse_json e c).0 (step-Inv throws parse_json e c v)

-- So a new object is well formed after any history of requests, messages, disconnects, alarms,
-- changes of its sockets and evictions.
pub run_new-Inv :
    (parse_json : String → Option Json) (es : List ((Socket → Bool) × Event))
    → Inv (run parse_json es new_channel)
run_new-Inv parse_json es =
    run-Inv parse_json es new_channel
      (record { memory = record { peers = tt; bounded = omega arith; distinct = tt }; stored = tt })
