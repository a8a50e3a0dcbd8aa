-- ===== src/Sdk/DApp/Requests.antt =====
-- dapp-session.ts: request, nextSendSeq, resendPending, and what they build.
use walletpair.Common.{
  ℕ, zero, suc, ◌+◌, ◌/◌, ◌%◌, String, Option, none, some, List, [], ◌∷◌, ltb, leb, ◌==◌, ◌=s◌,
  if◌then◌else◌, length,
}
use walletpair.Json.{Json, str, obj, Fields, end, field}
use walletpair.Sdk.Types.{connected}
use walletpair.Sdk.Objects.{set_field}
use walletpair.Sdk.DApp.State.{
  Bytes, Crypto, Options, PendingRequest, Session, Payload, req, error, rejected, emit, same_phase,
  persist_snapshot, send_raw,
}
use walletpair.Sdk.DApp.Closing.{close}

abbrev digit : ℕ → String
digit n =
    if n == 0
    then "0"
    else if n == 1
    then "1"
    else if n == 2
    then "2"
    else if n == 3
    then "3"
    else if n == 4
    then "4"
    else if n == 5
    then "5"
    else if n == 6
    then "6"
    else if n == 7
    then "7"
    else if n == 8
    then "8"
    else "9"

-- A number in a template: its decimal digits. The last one is written first, and no number has
-- more digits than `fuel` if that is the number itself and one.
unfoldable pub decimal : ℕ → ℕ → String → String
decimal zero n acc = acc
decimal (suc fuel) n acc =
    let text : String = Prim.Native.String.◌++◌ (digit (n % 10)) acc in
    let rest = decimal fuel (n / 10) text in if ltb n 10 then text else rest

unfoldable pub request_id : ℕ → String
unfolding decimal
request_id n = Prim.Native.String.◌++◌ "req-" (decimal (suc n) n "")

-- A property of a spread object replaces one of the same name.
unfoldable pub spread : Fields → Fields → Fields
unfolding set_field
spread onto end = onto
spread onto (field k v rest) = spread (set_field k v onto) rest

unfoldable pub build_sealed_params : String → Option Json → Json
unfolding spread
build_sealed_params method (some (obj fields)) =
    obj (spread (field "_method" (str method) end) fields)
build_sealed_params method (some Json.null) =
    obj (field "_method" (str method) (field "_params" (obj end) end))
build_sealed_params method (some params) =
    obj (field "_method" (str method) (field "_params" params end))
build_sealed_params method none = obj (field "_method" (str method) (field "_params" (obj end) end))

abbrev pub max_send_seq : ℕ
max_send_seq = 2147483648

abbrev pub max_pending_requests : ℕ
max_pending_requests = 32

-- What the caller of `request` gets: an error at once, or a promise under an id.
pub data Reply : Type 0 where
  refused : String → Reply
  promised : String → Reply

unfoldable pub find_pending : String → List PendingRequest → Option PendingRequest
find_pending id [] = none
find_pending id (r ∷ rs) = if r.id =s id then some r else find_pending id rs

unfoldable pub delete_pending : String → List PendingRequest → List PendingRequest
delete_pending id [] = []
delete_pending id (r ∷ rs) = if r.id =s id then rs else r ∷ delete_pending id rs

-- `pendingRequests.set`: an entry of the same id is replaced in its place.
unfoldable pub set_pending : PendingRequest → List PendingRequest → List PendingRequest
set_pending p [] = p ∷ []
set_pending p (r ∷ rs) = let later = set_pending p rs in if r.id =s p.id then p ∷ rs else r ∷ later

-- The timer of a request that is still pending.
unfoldable pub request_timer_fires : String → Session → Session
unfolding find_pending delete_pending
request_timer_fires id s = elim (find_pending id s.pending_requests) [
  | none ↦ s
  | some r ↦
      emit
        (rejected id
          (Prim.Native.String.◌++◌ "Request " (Prim.Native.String.◌++◌ r.method " timed out")))
        (record s { pending_requests = delete_pending id s.pending_requests })
]

module _ (k : Crypto) (o : Options) where
  -- The next number, or none if the session ends instead.
  unfoldable pub next_send_seq : Session → Session × Option ℕ
  unfolding close persist_snapshot
  next_send_seq s =
      if leb max_send_seq s.send_seq
      then (
        close k o "normal"
            (emit (error "Send sequence overflow/limit reached — session invalidated") s),
        none,
      )
      else (persist_snapshot o (record s { send_seq = s.send_seq + 1 }), some s.send_seq)

  unfoldable pub build_request_message :
      String → String → Option Json → ℕ → Bytes → Session → Payload
  unfolding build_sealed_params
  build_request_message id method params seq send_key s = req id (
      k.seal_payload send_key s.channel_id seq (build_sealed_params method params)
        (record { kind = "req"; from = s.pub_key; id = id }))

  abbrev pub add_pending : PendingRequest → Session → Session
  add_pending r s = record s { pending_requests = set_pending r s.pending_requests }

  abbrev pub send_request :
      String → String → Option Json → Bytes → Session × Option ℕ → Session × Reply
  send_request id method params send_key (s, none) =
      (s, refused "Send sequence overflow/limit reached — session invalidated")
  send_request id method params send_key (s, some seq) = (
    send_raw k (build_request_message id method params seq send_key s)
        (add_pending (record { id = id; method = method; params = params }) s),
    promised id,
  )

  abbrev pub request_with : Option Bytes → String → Option Json → Session → Session × Reply
  request_with none method params s = (s, refused "Not connected")
  request_with (some send_key) method params s =
      let id = request_id (s.req_counter + 1) in
      if leb max_pending_requests (length s.pending_requests)
      then (s, refused "Too many pending requests")
      else send_request id method params send_key
          (next_send_seq (record s { req_counter = s.req_counter + 1 }))

  unfoldable pub request : String → Option Json → Session → Session × Reply
  unfolding request_id next_send_seq build_request_message send_raw set_pending
  request method params s =
      if same_phase s.phase connected
      then request_with s.send_key method params s
      else (s, refused "Not connected")

  -- The loop of resendPending. An exception of nextSendSeq ends it.
  abbrev pub resend_next : Option ℕ → Bytes → PendingRequest → Session → Option Session
  resend_next none send_key r s = none
  resend_next (some seq) send_key r s =
      some (send_raw k (build_request_message r.id r.method r.params seq send_key s) s)

  unfoldable pub resend_each : List PendingRequest → Bytes → Session → Session
  unfolding next_send_seq build_request_message send_raw
  resend_each [] send_key s = s
  resend_each (r ∷ rs) send_key s =
      let (s', seq) = next_send_seq s in
      elim (resend_next seq send_key r s') [ none ↦ s' | some s'' ↦ resend_each rs send_key s'' ]

  unfoldable pub resend_pending : Session → Session
  unfolding resend_each
  resend_pending s =
      if same_phase s.phase connected
      then elim s.send_key [ none ↦ s | some send_key ↦ resend_each s.pending_requests send_key s ]
      else s
