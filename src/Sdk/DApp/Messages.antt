-- ===== src/Sdk/DApp/Messages.antt =====
-- dapp-session.ts: handleMessage. A handler of a sealed message ends where the payload cannot be
-- read or its number is not above the last one that was received.
use walletpair.Common.{
  ℕ, String, Bool, true, false, not, ◌&&◌, ◌||◌, Option, none, some, leb, ◌==◌, ◌=s◌, if◌then◌else◌,
  is_just,
}
use walletpair.Json.{JsNumber, Json, null, bool, num, str, obj, Fields, end, field, get, as_object}
use walletpair.Sdk.Types.{
  waiting, connected, disconnected, closed, Body, ProtocolMessage, is_recoverable_close_reason,
}
use walletpair.Sdk.DApp.State.{
  Bytes, Crypto, Options, PendingRequest, Session, pong, error, event, resolved, declined, rejected,
  logged, disconnects, emit, set_phase, same_phase, persist_snapshot, send_raw,
}
use walletpair.Sdk.DApp.Closing.{close, end_session, can_reconnect, stop_reconnect}
use walletpair.Sdk.DApp.Reconnecting.{start_reconnect, start_heartbeat, start_session_ttl}
use walletpair.Sdk.DApp.Requests.{find_pending, delete_pending, resend_pending}
use walletpair.Sdk.DApp.Joining.{handle_join}

-- `v === 1`
abbrev pub is_version_1 : Option Json → Bool
is_version_1 (some (num (JsNumber.whole n))) = n == 1
is_version_1 (some _) = false
is_version_1 none = false

-- A string that is there and not empty.
abbrev pub given_text : Option String → Option String
given_text none = none
given_text (some s) = if s =s "" then none else some s

-- The number has been received, or a later one.
unfoldable pub is_replay : ℕ → Option ℕ → Bool
is_replay seq none = false
is_replay seq (some last) = leb seq last

-- The body of `res`, in a payload that was unsealed: `_ok`, `_result`, `code` and `message`. The
-- event `response` that goes with it is not told apart from what the caller gets. A read of `null`
-- throws, which counts as a failed decryption.
unfoldable pub answer : String → Json → Session → Session
unfolding get
answer id null s = emit (rejected id "Decryption failed") s
answer id (obj f) s = elim (get "_ok" f) [
  | some (bool true) ↦ emit (resolved id (get "_result" f)) s
  | some (bool false) ↦ emit (declined id (get "code" f) (get "message" f)) s
  | some _ ↦ emit (rejected id "Response missing _ok field") s
  | none ↦ emit (rejected id "Response missing _ok field") s
]
answer id _ s = emit (rejected id "Response missing _ok field") s

-- A value that counts as true.
abbrev pub is_truthy : Json → Bool
is_truthy null = false
is_truthy (bool b) = b
is_truthy (num (JsNumber.whole n)) = not (n == 0)
is_truthy (num _) = true
is_truthy (str s) = not (s =s "")
is_truthy _ = true

-- `rest` without `_event`.
unfoldable pub without : String → Fields → Fields
without key end = end
without key (field k v rest) =
    let rest' = without key rest in if k =s key then rest' else field k v rest'

abbrev event_data : Fields → Json
event_data (field k v end) = if k =s "_data" then v else obj (field k v end)
event_data rest = obj rest

-- The name and the data of an event, in a payload that was unsealed.
unfoldable pub tell_event : Option Fields → Session → Session
unfolding get without
tell_event none s = emit (error "Event payload missing _event") s
tell_event (some f) s = elim (get "_event" f) [
  | none ↦ emit (error "Event payload missing _event") s
  | some name ↦
      if is_truthy name
      then emit (event name (event_data (without "_event" f))) s
      else emit (error "Event payload missing _event") s
]

module _ (k : Crypto) (o : Options) where
  -- `remotePubKey && from !== b64urlEncode(remotePubKey)`
  abbrev pub is_stranger : String → Option Bytes → Bool
  is_stranger from none = false
  is_stranger from (some remote) = not (from =s k.b64url_encode remote)

  -- The wallet that the relay names is the one that is paired.
  abbrev pub is_paired_with : Option String → Option Bytes → Bool
  is_paired_with remote none = false
  is_paired_with remote (some key) =
      not (k.b64url_encode key =s "") && is_just (k.b64url_encode key) remote

  unfoldable pub on_connected : ℕ → Session → Session
  unfolding set_phase start_session_ttl start_heartbeat persist_snapshot resend_pending
  on_connected now s =
      let s' : Session = record s {
        reconnecting = false;
        reconnect_attempt = 0;
        reconnect_started_at = 0;
      } in
      let s'' =
        persist_snapshot o (start_heartbeat o (start_session_ttl o now (set_phase connected s'))) in
      if s.reconnecting && o.resend_on_reconnect then resend_pending k o s'' else s''

  unfoldable pub handle_ready : ℕ → Option String → Option String → Session → Session
  unfolding stop_reconnect close set_phase on_connected
  handle_ready now state remote s =
      let s' = stop_reconnect s in
      if is_just "connected" state
      then (if is_paired_with remote s.remote_pub_key
          then on_connected now s'
          else close k o "normal" (emit (error "Connected remote does not match paired wallet") s'))
      else if is_just "waiting" state
      then set_phase waiting s'
      else s'

  abbrev pub unseal : String → String → String → String → Bytes → Session → Option (ℕ × Json)
  unseal kind from id sealed recv_key s =
      k.unseal_payload recv_key s.channel_id sealed (record { kind = kind; from = from; id = id })

  -- A response whose payload has been read.
  unfoldable pub receive_response : String → Option (ℕ × Json) → Session → Session
  unfolding is_replay persist_snapshot answer as_object
  receive_response id none s = emit (rejected id "Decryption failed") s
  receive_response id (some (seq, value)) s =
      if is_replay seq s.recv_seq
      then emit (rejected id "Replay detected") s
      else answer id value (persist_snapshot o (record s { recv_seq = some seq }))

  -- The request is known, and no longer pending.
  unfoldable pub open_response : Option String → Option Bytes → String → String → Session → Session
  unfolding receive_response
  open_response (some sealed) (some recv_key) from id s =
      receive_response id (unseal "res" from id sealed recv_key s) s
  open_response _ _ from id s = emit (rejected id "Response must be encrypted") s

  abbrev pub response_to :
      Option PendingRequest → Option String → String → String → Session → Session
  response_to none sealed from id s = s
  response_to (some r) sealed from id s =
      open_response (given_text sealed) s.recv_key from id
        (record s { pending_requests = delete_pending id s.pending_requests })

  unfoldable pub handle_res : String → Option String → Option String → Session → Session
  unfolding find_pending delete_pending open_response
  handle_res from id sealed s =
      if not (same_phase s.phase connected) || is_stranger from s.remote_pub_key
      then s
      else elim (given_text id) [
        | none ↦ s
        | some id' ↦ response_to (find_pending id' s.pending_requests) sealed from id' s
      ]

  unfoldable pub receive_event : Option (ℕ × Json) → Session → Session
  unfolding is_replay persist_snapshot tell_event as_object
  receive_event none s = s
  receive_event (some (seq, value)) s =
      if is_replay seq s.recv_seq
      then s
      else tell_event (as_object value) (persist_snapshot o (record s { recv_seq = some seq }))

  abbrev pub open_event : Option String → Option String → Option Bytes → String → Session → Session
  open_event (some id) (some sealed) (some recv_key) from s =
      receive_event (unseal "evt" from id sealed recv_key s) s
  open_event _ _ _ from s = s

  unfoldable pub handle_evt : String → Option String → Option String → Session → Session
  unfolding receive_event
  handle_evt from id sealed s =
      if not (same_phase s.phase connected) || is_stranger from s.remote_pub_key
      then s
      else open_event (given_text id) (given_text sealed) s.recv_key from s

  unfoldable pub handle_close : Session → Session
  unfolding end_session
  handle_close s =
      if same_phase s.phase disconnected then s else end_session k o "Session closed by peer" s

  -- The reason is left out of the message that the requests are rejected with.
  unfoldable pub handle_terminate : ℕ → Option String → Session → Session
  unfolding is_recoverable_close_reason can_reconnect start_reconnect end_session
  handle_terminate now reason s =
      let s' =
        emit (logged "terminate" reason (is_recoverable_close_reason reason && can_reconnect s))
          s in
      if s.intentional_close || same_phase s.phase closed
      then s'
      else if is_recoverable_close_reason reason
      then start_reconnect o now (emit disconnects s')
      else end_session k o "Session terminated" s'

  unfoldable pub handle_body : ℕ → String → Body → Session → Session
  unfolding handle_ready handle_join handle_res handle_evt send_raw handle_close handle_terminate
  handle_body now from (Body.ready state remote) s = handle_ready now state remote s
  handle_body now from (Body.join sealed_join) s = handle_join k o from sealed_join s
  handle_body now from (Body.res id sealed) s = handle_res from id sealed s
  handle_body now from (Body.evt id sealed) s = handle_evt from id sealed s
  handle_body now from Body.ping s = send_raw k pong s
  handle_body now from Body.pong s = record s { liveness_timer = false }
  handle_body now from Body.close s = handle_close s
  handle_body now from (Body.terminate reason) s = handle_terminate now reason s
  handle_body now from Body.other s = s

  -- What only the relay sends.
  abbrev pub is_from_relay : Body → Bool
  is_from_relay (Body.ready state remote) = true
  is_from_relay (Body.terminate reason) = true
  is_from_relay _ = false

  unfoldable pub handle_message : ℕ → ProtocolMessage → Session → Session
  unfolding close handle_body
  handle_message now m s =
      if not (is_from_relay m.body) && m.from =s "_adapter"
      then emit (error "Rejected message with spoofed _adapter from") s
      else if not (is_version_1 m.v)
      then close k o "unsupported_version" s
      else handle_body now m.from m.body s
