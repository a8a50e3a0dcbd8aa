-- ===== src/Sdk/Wallet/Requests.antt =====
-- wallet-session.ts: the message `req` and processRequest.
use walletpair.Common.{
  ℕ, String, Bool, false, not, ◌||◌, Option, none, some, leb, ◌=s◌, if◌then◌else◌, length,
}
use walletpair.Json.{Json, str, obj, Fields, get, as_object}
use walletpair.Sdk.Types.{includes}
use walletpair.Sdk.Maps.{find, put}
use walletpair.Sdk.DApp.State.{Bytes}
use walletpair.Sdk.DApp.Messages.{given_text, is_replay, without}
use walletpair.Sdk.Wallet.State.{
  Crypto, Options, PendingRequestRecord, CachedRequestResponse, Session, request, connected, emit,
  same_phase, persist_snapshot,
}
use walletpair.Sdk.Wallet.Responses.{touch_idempotency_entry, send_response, reject}

abbrev pub max_pending_requests : ℕ
max_pending_requests = 32

-- `_method`, where it is a text that is not empty.
abbrev pub method_text : Option Json → Option String
method_text (some (str m)) = if m =s "" then none else some m
method_text (some _) = none
method_text none = none

abbrev pub method_in : Option Fields → Option String
method_in none = none
method_in (some f) = method_text (get "_method" f)

unfoldable pub method_of : Json → Option String
unfolding get as_object
method_of value = method_in (as_object value)

abbrev pub params_in : Option Json → Fields → Json
params_in none f = obj (without "_params" (without "_method" f))
params_in (some params) f = params

-- What the application gets as the parameters.
unfoldable pub params_of : Json → Json
unfolding get without
params_of (obj f) = params_in (get "_params" f) f
params_of value = value

-- `constantTimeEqual` on two hashes.
abbrev pub same_hash : String → String → Bool
same_hash a b = a =s b

module _ (k : Crypto) (o : Options) where
  abbrev pub refuse_request : String → String → String → Session → Session
  refuse_request id code message s = (reject k o id code message s).0

  abbrev pub refuse_duplicate : String → Session → Session
  refuse_duplicate id s =
      refuse_request id "invalid_params" "Duplicate request ID with different params" s

  abbrev pub respond_again : String → CachedRequestResponse → Session → Session
  respond_again id entry s = (send_response k o id entry.ok entry.result s).0

  -- A request that has no response that can be given again.
  abbrev pub admit_request :
      Option PendingRequestRecord → String → String → Json → String → Session → Session
  admit_request (some r) id method params hash s =
      if same_hash r.params_hash hash then s else refuse_duplicate id s
  admit_request none id method params hash s =
      if leb max_pending_requests (length s.pending_request_records)
      then refuse_request id "rate_limited" "Too many pending requests" s
      else emit (request id method params) (record s {
        pending_request_records =
            put id (record { params_hash = hash; method = method }) s.pending_request_records;
      })

  unfoldable pub open_request : String → String → Json → String → Session → Session
  unfolding find put reject
  open_request id method params hash s =
      admit_request (find id s.pending_request_records) id method params hash s

  abbrev pub repeat_request :
      Option CachedRequestResponse → String → String → Json → String → Session → Session
  repeat_request none id method params hash s = open_request id method params hash s
  repeat_request (some entry) id method params hash s =
      if same_hash entry.params_hash hash
      then (if entry.too_large
          then open_request id method params hash (touch_idempotency_entry k o id entry s)
          else respond_again id entry (touch_idempotency_entry k o id entry s))
      else refuse_duplicate id s

  abbrev pub repeat_broadcast :
      Option CachedRequestResponse → String → String → Json → String → Session → Session
  repeat_broadcast none id method params hash s =
      repeat_request (find id s.idempotency_cache) id method params hash s
  repeat_broadcast (some entry) id method params hash s =
      if same_hash entry.params_hash hash then respond_again id entry s else refuse_duplicate id s

  -- A request for a method that the wallet grants or not.
  unfoldable pub dispatch_request : String → String → Json → String → Session → Session
  unfolding includes find touch_idempotency_entry send_response reject open_request
  dispatch_request id method params hash s =
      if includes method o.methods
      then repeat_broadcast (find id s.broadcast_response_cache) id method params hash s
      else refuse_request id "unsupported_method"
          (Prim.Native.String.◌++◌ "Method \""
            (Prim.Native.String.◌++◌ method "\" not in granted capabilities"))
          s

  abbrev pub process_method : Option String → String → Json → Bytes → Session → Session
  process_method none id value plaintext s =
      refuse_request id "invalid_params" "Request payload missing _method" s
  process_method (some method) id value plaintext s =
      dispatch_request id method (params_of value) (k.sha256_hex plaintext) s

  unfoldable pub process_request : String → Json → Bytes → Session → Session
  unfolding method_of params_of dispatch_request reject
  process_request id value plaintext s = process_method (method_of value) id value plaintext s

  -- A request whose payload has been read.
  unfoldable pub receive_request : String → Option (ℕ × Json × Bytes) → Session → Session
  unfolding is_replay persist_snapshot process_request reject
  receive_request id none s = refuse_request id "decryption_failed" "Failed to decrypt request" s
  receive_request id (some (seq, value, plaintext)) s =
      if is_replay seq s.recv_seq
      then s
      else process_request id value plaintext
          (persist_snapshot o (record s { recv_seq = some seq }))

  abbrev pub open_sealed : Option String → Option Bytes → String → String → Session → Session
  open_sealed (some sealed) (some recv_key) from id s =
      receive_request id
        (k.unseal_payload recv_key s.channel_id sealed
          (record { kind = "req"; from = from; id = id }))
        s
  open_sealed _ _ from id s = refuse_request id "protocol_error" "Request must be encrypted" s

  abbrev pub req_from : Option String → Option String → String → Session → Session
  req_from none sealed from s = s
  req_from (some id) sealed from s = open_sealed (given_text sealed) s.recv_key from id s

  -- `remotePubKey && from !== b64urlEncode(remotePubKey)`
  abbrev pub is_stranger : String → Option Bytes → Bool
  is_stranger from none = false
  is_stranger from (some remote) = not (from =s k.b64url_encode remote)

  unfoldable pub handle_req : String → Option String → Option String → Session → Session
  unfolding receive_request reject
  handle_req from id sealed s =
      if not (same_phase s.phase connected) || is_stranger from s.remote_pub_key
      then s
      else req_from (given_text id) sealed from s
