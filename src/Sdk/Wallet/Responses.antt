-- ===== src/Sdk/Wallet/Responses.antt =====
-- wallet-session.ts: approve, reject, pushEvent, sendResponse, and the caches of responses.
use walletpair.Common.{
  ℕ, suc, ◌+◌, String, Bool, true, false, ◌&&◌, Option, none, some, ◌=s◌, ltb, if◌then◌else◌,
}
use walletpair.Json.{Json, null, bool, str, arr, obj, Items, nil, item, Fields, end, field}
use walletpair.Sdk.Maps.{find, put, remove, evict}
use walletpair.Sdk.DApp.State.{Bytes}
use walletpair.Sdk.DApp.Requests.{decimal, spread}
use walletpair.Sdk.Wallet.State.{
  Crypto, Options, PendingRequestRecord, CachedRequestResponse, Session, Payload, res, evt,
  connected, same_phase, send_raw,
}
use walletpair.Sdk.Wallet.Closing.{next_send_seq}

abbrev pub idempotency_cache_limit : ℕ
idempotency_cache_limit = 1024

abbrev pub idempotency_response_limit_bytes : ℕ
idempotency_response_limit_bytes = 16384

abbrev pub broadcast_cache_limit : ℕ
broadcast_cache_limit = 256

-- `data ?? null`
abbrev pub value_or_null : Option Json → Json
value_or_null none = null
value_or_null (some v) = v

-- The properties that a spread takes from a value.
unfoldable pub spread_items : ℕ → Items → Fields → Fields
unfolding decimal
spread_items i nil fields = fields
spread_items i (item v rest) fields =
    field (decimal (suc i) i "") v (spread_items (i + 1) rest fields)

abbrev pub result_field : Option Json → Fields
result_field none = end
result_field (some v) = field "_result" v end

-- The payload of a response. What is not a success has an object with `code` and `message`.
unfoldable pub response_payload : Bool → Option Json → Json
unfolding spread
response_payload true v = obj (field "_ok" (bool true) (result_field v))
response_payload false (some (obj fields)) = obj (spread (field "_ok" (bool false) end) fields)
response_payload false _ = obj (field "_ok" (bool false) end)

-- The payload of an event.
unfoldable pub event_payload : String → Option Json → Json
unfolding spread spread_items
event_payload name none = obj (field "_event" (str name) end)
event_payload name (some (obj fields)) = obj (spread (field "_event" (str name) end) fields)
event_payload name (some (arr items)) =
    obj (spread (field "_event" (str name) end) (spread_items 0 items end))
event_payload name (some v) = obj (field "_event" (str name) (field "_data" v end))

abbrev pub error_value : String → String → Json
error_value code message = obj (field "code" (str code) (field "message" (str message) end))

abbrev pub event_id : ℕ → String
event_id n = Prim.Native.String.◌++◌ "evt-" (decimal (suc n) n "")

-- Whether a response is kept to be given again, whatever its size.
abbrev pub is_broadcast : PendingRequestRecord → Bool → Bool
is_broadcast r ok = r.method =s "wallet_sendTransaction" && ok

module _ (k : Crypto) (o : Options) where
  abbrev pub cached_response : PendingRequestRecord → Bool → Option Json → CachedRequestResponse
  cached_response r ok result =
      let too_large = ltb idempotency_response_limit_bytes (k.json_size (value_or_null result)) in
      record {
        params_hash = r.params_hash;
        method = r.method;
        ok = ok;
        result = if too_large then some null else result;
        too_large = too_large;
      }

  abbrev pub whole_response : PendingRequestRecord → Bool → Option Json → CachedRequestResponse
  whole_response r ok result = record {
    params_hash = r.params_hash;
    method = r.method;
    ok = ok;
    result = result;
    too_large = false;
  }

  unfoldable pub evict_idempotency_cache : Session → Session
  unfolding evict
  evict_idempotency_cache s = record s {
    idempotency_cache = evict idempotency_cache_limit s.idempotency_cache;
  }

  unfoldable pub evict_broadcast_cache : Session → Session
  unfolding evict
  evict_broadcast_cache s = record s {
    broadcast_response_cache = evict broadcast_cache_limit s.broadcast_response_cache;
  }

  -- A request that was pending, and no longer is.
  unfoldable pub cache_response :
      String → PendingRequestRecord → Bool → Option Json → Session → Session
  unfolding put evict_idempotency_cache evict_broadcast_cache
  cache_response id r ok result s =
      let s' = evict_idempotency_cache (record s {
        idempotency_cache = put id (cached_response r ok result) s.idempotency_cache;
      }) in
      if is_broadcast r ok
      then evict_broadcast_cache (record s' {
        broadcast_response_cache = put id (whole_response r ok result) s'.broadcast_response_cache;
      })
      else s'

  unfoldable pub cache_processed_response : String → Bool → Option Json → Session → Session
  unfolding find remove cache_response
  cache_processed_response id ok result s = elim (find id s.pending_request_records) [
    | none ↦ s
    | some r ↦
        cache_response id r ok result
          (record s { pending_request_records = remove id s.pending_request_records })
  ]

  unfoldable pub touch_idempotency_entry : String → CachedRequestResponse → Session → Session
  unfolding remove put
  touch_idempotency_entry id entry s = record s {
    idempotency_cache = put id entry (remove id s.idempotency_cache);
  }

  abbrev pub response_message : String → Bool → Option Json → ℕ → Bytes → Session → Payload
  response_message id ok result seq send_key s = res id (
      k.seal_payload send_key s.channel_id seq (response_payload ok result)
        (record { kind = "res"; from = s.pub_key; id = id }))

  abbrev pub respond : String → Bool → Option Json → Bytes → Session × Option ℕ → Session × Bool
  respond id ok result send_key (s, none) = (s, false)
  respond id ok result send_key (s, some seq) =
      (send_raw k (response_message id ok result seq send_key s) s, true)

  abbrev pub respond_with : Option Bytes → String → Bool → Option Json → Session → Session × Bool
  respond_with none id ok result s = (s, false)
  respond_with (some send_key) id ok result s = respond id ok result send_key (next_send_seq k o s)

  -- Whether it was sent.
  unfoldable pub send_response : String → Bool → Option Json → Session → Session × Bool
  unfolding next_send_seq response_payload send_raw
  send_response id ok result s = respond_with s.send_key id ok result s

  abbrev pub after_send : String → Bool → Option Json → Session × Bool → Session × Bool
  after_send id ok result (s, true) = (cache_processed_response id ok result s, true)
  after_send id ok result (s, false) = (s, false)

  unfoldable pub approve : String → Option Json → Session → Session × Bool
  unfolding send_response cache_processed_response
  approve id result s = after_send id true result (send_response id true result s)

  unfoldable pub reject : String → String → String → Session → Session × Bool
  unfolding send_response cache_processed_response
  reject id code message s =
      after_send id false (some (error_value code message))
        (send_response id false (some (error_value code message)) s)

  abbrev pub send_event : String → Option Json → Bytes → Session × Option ℕ → Session × Bool
  send_event name value send_key (s, none) = (record s { evt_counter = s.evt_counter + 1 }, false)
  send_event name value send_key (s, some seq) =
      let id = event_id (s.evt_counter + 1) in
      (
        send_raw k
            (evt id (
              k.seal_payload send_key s.channel_id seq (event_payload name value)
                (record { kind = "evt"; from = s.pub_key; id = id })))
            (record s { evt_counter = s.evt_counter + 1 }),
        true,
      )

  abbrev pub push_with : Option Bytes → String → Option Json → Session → Session × Bool
  push_with none name value s = (s, false)
  push_with (some send_key) name value s = send_event name value send_key (next_send_seq k o s)

  unfoldable pub push_event : String → Option Json → Session → Session × Bool
  unfolding event_payload next_send_seq send_raw decimal
  push_event name value s =
      if same_phase s.phase connected then push_with s.send_key name value s else (s, false)
