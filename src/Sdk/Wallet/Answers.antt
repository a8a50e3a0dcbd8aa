-- ===== src/Sdk/Wallet/Answers.antt =====
-- A request that was answered, when it comes again; and one that was not, when its id is used for
-- another request.
use walletpair.Common.{
  ℕ, ◌+◌, String, Bool, true, false, Option, none, some, List, ◌≡◌, refl, ap, ◌∙◌, arith, leb, ltb,
  =s_iff, if◌then◌else◌, Bool-cases, inl, inr, ◌⊎◌,
}
use walletpair.Json.{Json}
use walletpair.Sdk.Types.{includes}
use walletpair.Sdk.Maps.{find}
use walletpair.Sdk.Maps.Lookups.{find-evict-put}
use walletpair.Sdk.DApp.State.{Bytes}
use walletpair.Sdk.Wallet.State.{
  Crypto, Options, PendingRequestRecord, CachedRequestResponse, Session, Payload, persist_snapshot,
  send_raw,
}
use walletpair.Sdk.Wallet.Closing.{next_send_seq, max_send_seq}
use walletpair.Sdk.Wallet.Responses.{
  cached_response, whole_response, is_broadcast, cache_response, cache_processed_response,
  evict_idempotency_cache, evict_broadcast_cache, touch_idempotency_entry, respond_with,
  send_response, after_send, approve, response_message, value_or_null, idempotency_cache_limit,
  idempotency_response_limit_bytes, broadcast_cache_limit,
}
use walletpair.Sdk.Wallet.Requests.{
  dispatch_request, refuse_request, repeat_broadcast, repeat_request, same_hash,
}
use walletpair.Sdk.Wallet.Soundness.{Sound}
use walletpair.Sdk.Wallet.Soundness.Responses.{send_response-Sound}

-- The maps that requests are looked up in.
pub record Maps : Type 0 where
  pub pending : List (String × PendingRequestRecord)
  pub cached : List (String × CachedRequestResponse)
  pub broadcast : List (String × CachedRequestResponse)

abbrev pub maps : Session → Maps
maps s = record {
  pending = s.pending_request_records;
  cached = s.idempotency_cache;
  broadcast = s.broadcast_response_cache;
}

same_hash_refl : (h : String) → same_hash h h ≡ true
same_hash_refl h = (=s_iff h h).1 refl

if-maps :
    (b : Bool) (x y : Session) (t : Maps) → maps x ≡ t → maps y ≡ t → maps (if b then x else y) ≡ t
if-maps true x y t e f = e
if-maps false x y t e f = f

module _ (k : Crypto) (o : Options) where
  pub persist_snapshot-maps : (s : Session) → maps (persist_snapshot o s) ≡ maps s
  unfolding persist_snapshot
  persist_snapshot-maps s = if-maps o.persists _ s (maps s) refl refl

  send_raw-maps : (p : Payload) (s : Session) → maps (send_raw k p s) ≡ maps s
  unfolding send_raw
  send_raw-maps p s = if-maps _ _ _ (maps s) refl refl

  -- A response that is sent leaves the maps as they are.
  pub send_response-maps :
      (id : String) (ok : Bool) (result : Option Json) (s : Session)
      → (send_response k o id ok result s).1 ≡ true
      → maps (send_response k o id ok result s).0 ≡ maps s
  unfolding send_response next_send_seq
  send_response-maps id ok result s e = go s.send_key e
    where
      go :
          (key : Option Bytes)
          → (respond_with k o key id ok result s).1 ≡ true
          → maps (respond_with k o key id ok result s).0 ≡ maps s
      go none f = cc
      go (some key) f = elim (Bool-cases (leb max_send_seq s.send_seq)) [
        | inl g ↦ absurd (let h = rw g at f in cc)
        | inr g ↦
            let s' : Session = persist_snapshot o (record s { send_seq = s.send_seq + 1 }) in
            rw g (
              send_raw-maps (response_message k o id ok result s.send_seq key s') s'
              ∙ persist_snapshot-maps (record s { send_seq = s.send_seq + 1 }))
      ]

  -- What a response leaves for a request that comes again.
  record_answer-cached :
      (n : ℕ) (m : Option ℕ) (id : String) (r : PendingRequestRecord) (ok : Bool)
      (result : Option Json) (s : Session)
      → Sound n m s
      → find id s.pending_request_records ≡ some r
      → find id (cache_processed_response k o id ok result s).idempotency_cache
        ≡ some (cached_response k o r ok result)
  unfolding cache_processed_response cache_response evict_idempotency_cache evict_broadcast_cache
  record_answer-cached n m id r ok result s v f =
      let c =
        find-evict-put idempotency_cache_limit id (cached_response k o r ok result)
          s.idempotency_cache (omega arith) v.cached_within.size v.cached_within.named in
      elim (Bool-cases (is_broadcast r ok)) [
        | inl e ↦ rw (f, cache_processed_response, e) c
        | inr e ↦ rw (f, cache_processed_response, e) c
      ]

  record_answer-broadcast :
      (n : ℕ) (m : Option ℕ) (id : String) (r : PendingRequestRecord) (ok : Bool)
      (result : Option Json) (s : Session)
      → Sound n m s
      → find id s.pending_request_records ≡ some r
      → find id (cache_processed_response k o id ok result s).broadcast_response_cache ≡ (
          if is_broadcast r ok
          then some (whole_response k o r ok result)
          else find id s.broadcast_response_cache)
  unfolding cache_processed_response cache_response evict_idempotency_cache evict_broadcast_cache
  record_answer-broadcast n m id r ok result s v f =
      let b =
        find-evict-put broadcast_cache_limit id (whole_response k o r ok result)
          s.broadcast_response_cache (omega arith) v.broadcast_within.size
          v.broadcast_within.named in
      elim (Bool-cases (is_broadcast r ok)) [
        | inl e ↦ rw (f, cache_processed_response, e) b
        | inr e ↦ rw (f, cache_processed_response, e) refl
      ]

  pub after_send-sent :
      (id : String) (ok : Bool) (result : Option Json) (q : Session × Bool)
      → (after_send k o id ok result q).1 ≡ true
      → (q.1 ≡ true)
        × ((after_send k o id ok result q).0 ≡ cache_processed_response k o id ok result q.0)
  after_send-sent id ok result (s, true) e = (refl, refl)
  after_send-sent id ok result (s, false) e = cc

  -- What approve or reject leaves, once it has sent.
  pub answered :
      (n : ℕ) (m : Option ℕ) (id : String) (r : PendingRequestRecord) (ok : Bool)
      (result : Option Json) (s : Session)
      → Sound n m s
      → find id s.pending_request_records ≡ some r
      → (after_send k o id ok result (send_response k o id ok result s)).1 ≡ true
      → let s' = (after_send k o id ok result (send_response k o id ok result s)).0 in
        (find id s'.idempotency_cache ≡ some (cached_response k o r ok result))
        × (find id s'.broadcast_response_cache ≡ (
            if is_broadcast r ok
            then some (whole_response k o r ok result)
            else find id s.broadcast_response_cache))
  answered n m id r ok result s v f e =
      let (sent, same) = after_send-sent id ok result (send_response k o id ok result s) e in
      let t : Session = (send_response k o id ok result s).0 in
      let w = send_response-Sound k o id ok result s v in
      let kept = send_response-maps id ok result s sent in
      let g : find id t.pending_request_records ≡ some r = ap (λ x. find id x.pending) kept ∙ f in
      let b =
        ap
          (λ x.
            if is_broadcast r ok
            then some (whole_response k o r ok result)
            else find id x.broadcast)
          kept in
      rw same (
        record_answer-cached n m id r ok result t w g,
        record_answer-broadcast n m id r ok result t w g ∙ b,
      )

  -- The session after a request is touched in the cache, or not.
  abbrev pub SameButOrder : Session → Session → Type 0
  SameButOrder s s' = s' ≡ record s { idempotency_cache = s'.idempotency_cache }

  repeat_request-again :
      (entry : CachedRequestResponse) (id method : String) (params : Json) (s : Session)
      → entry.too_large ≡ false
      → (s' : Session) × SameButOrder s s'
        × (repeat_request k o (some entry) id method params entry.params_hash s
            ≡ (send_response k o id entry.ok entry.result s').0)
  unfolding touch_idempotency_entry
  repeat_request-again entry id method params s e = (
    touch_idempotency_entry k o id entry s,
    refl,
    simp (same_hash_refl entry.params_hash, e) refl,
  )

  -- In a sound session, let a pending request be approved, with its response sent, where either the
  -- result is at most 16 KB in JSON or the request is a transaction, and no transaction is kept
  -- under its id. The same request again, for a granted method, is answered with the same result,
  -- from a session that differs from the one that the approval left in the order of its cache only.
  pub approved_again :
      (n : ℕ) (m : Option ℕ) (id : String) (r : PendingRequestRecord) (result : Option Json)
      (params : Json) (s : Session)
      → Sound n m s
      → find id s.pending_request_records ≡ some r
      → find id s.broadcast_response_cache ≡ none
      → (approve k o id result s).1 ≡ true
      → includes r.method o.methods ≡ true
      → (ltb idempotency_response_limit_bytes (k.json_size (value_or_null result)) ≡ false)
        ⊎ (is_broadcast r true ≡ true)
      → (s' : Session) × SameButOrder (approve k o id result s).0 s'
        × (dispatch_request k o id r.method params r.params_hash (approve k o id result s).0
            ≡ (send_response k o id true result s').0)
  unfolding approve dispatch_request
  approved_again n m id r result params s v f absent e granted size =
      let (c, b) = answered n m id r true result s v f e in go (is_broadcast r true) refl c b size
    where
      left : Session
      left = (after_send k o id true result (send_response k o id true result s)).0

      go :
          (t : Bool)
          → is_broadcast r true ≡ t
          → find id left.idempotency_cache ≡ some (cached_response k o r true result)
          → find id left.broadcast_response_cache ≡ (
              if is_broadcast r true
              then some (whole_response k o r true result)
              else find id s.broadcast_response_cache)
          → (ltb idempotency_response_limit_bytes (k.json_size (value_or_null result)) ≡ false)
            ⊎ (is_broadcast r true ≡ true)
          → (s' : Session) × SameButOrder left s'
            × ((if includes r.method o.methods
                  then repeat_broadcast k o
                      (find id left.broadcast_response_cache)
                      id
                      r.method
                      params
                      r.params_hash
                      left
                  else refuse_request k o id "unsupported_method"
                      (Prim.Native.String.◌++◌ "Method \""
                        (Prim.Native.String.◌++◌ r.method "\" not in granted capabilities"))
                      left)
                ≡ (send_response k o id true result s').0)
      go true t c b size = (left, refl, simp (granted, b, t, same_hash_refl r.params_hash) refl)
      go false t c b (inr h) = cc
      go false t c b (inl h) =
          let entry = cached_response k o r true result in
          let (s', d, q) = repeat_request-again entry id r.method params left h in
          let whole : entry.result ≡ result = rw h refl in
          (
            s',
            d,
            simp (granted, b, t, absent, c)
                (q ∙ ap (λ x. (send_response k o id true x s').0) whole),
          )
