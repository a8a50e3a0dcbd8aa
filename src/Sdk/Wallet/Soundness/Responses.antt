-- ===== src/Sdk/Wallet/Soundness/Responses.antt =====
-- Soundness and the responses: the two caches, approve, reject and pushEvent.
use walletpair.Common.{
  ℕ, ◌+◌, String, Bool, true, false, Option, none, some, List, ◌≡◌, arith, ◌=s◌, =s_iff, [], ◌∷◌,
  Bool-cases, Option-cases, inl, inr,
}
use walletpair.Json.{Json}
use walletpair.Sdk.Maps.{find, put, remove, has, evict}
use walletpair.Sdk.Maps.Sizes.{
  length-put, length-remove, length-remove-found, has-put, has-remove, length-evict, has-evict,
}
use walletpair.Sdk.DApp.State.{Bytes}
use walletpair.Sdk.Wallet.State.{
  Crypto, Options, PendingRequestRecord, CachedRequestResponse, Session, connected, same_phase,
}
use walletpair.Sdk.Wallet.Closing.{next_send_seq}
use walletpair.Sdk.Wallet.Responses.{
  cached_response, whole_response, is_broadcast, cache_response, cache_processed_response,
  touch_idempotency_entry, evict_idempotency_cache, evict_broadcast_cache, respond, respond_with,
  send_response, after_send, approve, reject, send_event, push_with, push_event, error_value,
  idempotency_cache_limit, broadcast_cache_limit, response_message,
}
use walletpair.Sdk.Wallet.Soundness.{Within, Sound, send_raw-Sound, next_send_seq-Sound}

module _ {A : Type 0} where
  -- A new entry, and the oldest ones removed.
  pub evict-put-Within :
      (limit : ℕ) (id : String) (value : A) (m : List (String × A))
      → (id =s "") ≡ false
      → Within limit m
      → Within limit (evict limit (put id value m))
  evict-put-Within limit id value m d h =
      let e = has-put "" id value m d h.named in
      record {
        size = length-evict limit (put id value m) e;
        named = has-evict limit "" (put id value m) e;
      }

  pub remove-Within :
      (limit : ℕ) (id : String) (m : List (String × A))
      → Within limit m
      → Within limit (remove id m)
  remove-Within limit id m h = record {
    size = omega (arith, h.size, length-remove id m);
    named = has-remove "" id m h.named;
  }

  -- An entry that moves to the end.
  pub put-remove-Within :
      (limit : ℕ) (id : String) (value : A) (m : List (String × A))
      → (id =s "") ≡ false
      → find id m ≡ some value
      → Within limit m
      → Within limit (put id value (remove id m))
  put-remove-Within limit id value m d f h = record {
    size =
        omega (arith, h.size, length-put id value (remove id m), length-remove-found id value m f);
    named = has-put "" id value (remove id m) d (has-remove "" id m h.named);
  }

  -- What is found has a key that is there.
  pub find-named :
      (id : String) (value : A) (m : List (String × A))
      → find id m ≡ some value
      → has "" m ≡ false
      → (id =s "") ≡ false
  unfolding find has
  find-named id value [] f h = cc
  find-named id value ((key, v) ∷ rest) f h = elim (Bool-cases (key =s id)) [
    | inl e ↦ ground (arith, (=s_iff key id).0 e)
    | inr e ↦ find-named id value rest (rw e at f) (ground arith)
  ]

module _ {n : ℕ} {m : Option ℕ} (k : Crypto) (o : Options) where
  cache_response-Sound :
      (id : String) (r : PendingRequestRecord) (ok : Bool) (result : Option Json) (s : Session)
      → (id =s "") ≡ false
      → Sound n m s
      → Sound n m (cache_response k o id r ok result s)
  unfolding cache_response evict_idempotency_cache evict_broadcast_cache
  cache_response-Sound id r ok result s d v =
      let c =
        evict-put-Within idempotency_cache_limit id (cached_response k o r ok result)
          s.idempotency_cache d v.cached_within in
      let b =
        evict-put-Within broadcast_cache_limit id (whole_response k o r ok result)
          s.broadcast_response_cache d v.broadcast_within in
      elim (Bool-cases (is_broadcast r ok)) [
        | inl e ↦ rw e (record {
          sent_from = v.sent_from;
          sent_to = v.sent_to;
          received_from = v.received_from;
          pending_within = v.pending_within;
          cached_within = c;
          broadcast_within = b;
          resting = v.resting;
        })
        | inr e ↦ rw e (record {
          sent_from = v.sent_from;
          sent_to = v.sent_to;
          received_from = v.received_from;
          pending_within = v.pending_within;
          cached_within = c;
          broadcast_within = v.broadcast_within;
          resting = v.resting;
        })
      ]

  cache_processed_response-Sound :
      (id : String) (ok : Bool) (result : Option Json) (s : Session)
      → Sound n m s
      → Sound n m (cache_processed_response k o id ok result s)
  unfolding cache_processed_response
  cache_processed_response-Sound id ok result s v =
      elim (Option-cases (find id s.pending_request_records)) [
        | inl e ↦ rw (e, cache_processed_response) v
        | inr (r, e) ↦
            rw (e, cache_processed_response)
              (cache_response-Sound id r ok result
                (record s { pending_request_records = remove id s.pending_request_records })
                (find-named id r s.pending_request_records e v.pending_within.named)
                (record {
                  sent_from = v.sent_from;
                  sent_to = v.sent_to;
                  received_from = v.received_from;
                  pending_within = remove-Within _ id s.pending_request_records v.pending_within;
                  cached_within = v.cached_within;
                  broadcast_within = v.broadcast_within;
                  resting = v.resting;
                }))
      ]

  pub touch_idempotency_entry-Sound :
      (id : String) (entry : CachedRequestResponse) (s : Session)
      → find id s.idempotency_cache ≡ some entry
      → Sound n m s
      → Sound n m (touch_idempotency_entry k o id entry s)
  unfolding touch_idempotency_entry
  touch_idempotency_entry-Sound id entry s f v = record {
    sent_from = v.sent_from;
    sent_to = v.sent_to;
    received_from = v.received_from;
    pending_within = v.pending_within;
    cached_within =
        put-remove-Within idempotency_cache_limit id entry s.idempotency_cache
          (find-named id entry s.idempotency_cache f v.cached_within.named) f v.cached_within;
    broadcast_within = v.broadcast_within;
    resting = v.resting;
  }

  respond-Sound :
      (id : String) (ok : Bool) (result : Option Json) (key : Bytes) (q : Session × Option ℕ)
      → Sound n m q.0
      → Sound n m (respond k o id ok result key q).0
  respond-Sound id ok result key (s, none) v = v
  respond-Sound id ok result key (s, some seq) v =
      send_raw-Sound k (response_message k o id ok result seq key s) s v

  pub send_response-Sound :
      (id : String) (ok : Bool) (result : Option Json) (s : Session)
      → Sound n m s
      → Sound n m (send_response k o id ok result s).0
  unfolding send_response
  send_response-Sound id ok result s v = go s.send_key
    where
      go : (key : Option Bytes) → Sound n m (respond_with k o key id ok result s).0
      go none = v
      go (some key) =
          respond-Sound id ok result key (next_send_seq k o s) (next_send_seq-Sound k o s v)

  after_send-Sound :
      (id : String) (ok : Bool) (result : Option Json) (q : Session × Bool)
      → Sound n m q.0
      → Sound n m (after_send k o id ok result q).0
  after_send-Sound id ok result (s, true) v = cache_processed_response-Sound id ok result s v
  after_send-Sound id ok result (s, false) v = v

  pub approve-Sound :
      (id : String) (result : Option Json) (s : Session)
      → Sound n m s
      → Sound n m (approve k o id result s).0
  unfolding approve
  approve-Sound id result s v =
      after_send-Sound id true result (send_response k o id true result s)
        (send_response-Sound id true result s v)

  pub reject-Sound :
      (id code message : String) (s : Session)
      → Sound n m s
      → Sound n m (reject k o id code message s).0
  unfolding reject
  reject-Sound id code message s v =
      let e = some (error_value code message) in
      after_send-Sound id false e (send_response k o id false e s)
        (send_response-Sound id false e s v)

  send_event-Sound :
      (name : String) (value : Option Json) (key : Bytes) (q : Session × Option ℕ)
      → Sound n m q.0
      → Sound n m (send_event k o name value key q).0
  send_event-Sound name value key (s, none) v = v
  send_event-Sound name value key (s, some seq) v =
      send_raw-Sound k _ (record s { evt_counter = s.evt_counter + 1 }) v

  pub push_event-Sound :
      (name : String) (value : Option Json) (s : Session)
      → Sound n m s
      → Sound n m (push_event k o name value s).0
  unfolding push_event
  push_event-Sound name value s v = elim (Bool-cases (same_phase s.phase connected)) [
    | inl e ↦ rw e (go s.send_key)
    | inr e ↦ rw e v
  ]
    where
      go : (key : Option Bytes) → Sound n m (push_with k o key name value s).0
      go none = v
      go (some key) =
          send_event-Sound name value key (next_send_seq k o s) (next_send_seq-Sound k o s v)
