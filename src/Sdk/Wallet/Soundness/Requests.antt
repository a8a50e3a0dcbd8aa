-- ===== src/Sdk/Wallet/Soundness/Requests.antt =====
-- Soundness and the requests of the dApp.
use walletpair.Common.{
  ℕ, String, false, not, ◌||◌, Option, none, some, List, ◌≡◌, refl, arith, length, leb, ◌=s◌,
  Bool-cases, inl, inr,
}
use walletpair.Json.{Json}
use walletpair.Sdk.Types.{includes}
use walletpair.Sdk.Maps.{find, put}
use walletpair.Sdk.Maps.Sizes.{length-put, has-put}
use walletpair.Sdk.DApp.State.{Bytes}
use walletpair.Sdk.DApp.Messages.{given_text, is_replay}
use walletpair.Sdk.DApp.Soundness.Messages.{not_before-replay}
use walletpair.Sdk.Wallet.State.{
  Crypto, Options, PendingRequestRecord, CachedRequestResponse, Session, connected, same_phase,
  persist_snapshot,
}
use walletpair.Sdk.Wallet.Responses.{touch_idempotency_entry}
use walletpair.Sdk.Wallet.Requests.{
  admit_request, open_request, repeat_request, respond_again, repeat_broadcast, dispatch_request,
  process_method, process_request, receive_request, open_sealed, req_from, handle_req, is_stranger,
  same_hash, method_of, params_of, max_pending_requests,
}
use walletpair.Sdk.Wallet.Soundness.{Within, Sound, if-Sound, persist_snapshot-Sound}
use walletpair.Sdk.Wallet.Soundness.Responses.{
  touch_idempotency_entry-Sound, send_response-Sound, reject-Sound,
}

put-Within :
    {A : Type 0} (limit : ℕ) (id : String) (value : A) (m : List (String × A))
    → (id =s "") ≡ false
    → leb limit (length m) ≡ false
    → Within limit m
    → Within limit (put id value m)
put-Within limit id value m d e h = record {
  size = let l = length-put id value m in ground (arith, l);
  named = has-put "" id value m d h.named;
}

module _ {n : ℕ} {m : Option ℕ} (k : Crypto) (o : Options) where
  admit_request-Sound :
      (r : Option PendingRequestRecord) (id method : String) (params : Json) (hash : String)
      (s : Session)
      → (id =s "") ≡ false
      → Sound n m s
      → Sound n m (admit_request k o r id method params hash s)
  admit_request-Sound (some r) id method params hash s d v =
      elim (Bool-cases (same_hash r.params_hash hash)) [
        | inl e ↦ rw e v
        | inr e ↦ rw e (reject-Sound k o id _ _ s v)
      ]
  admit_request-Sound none id method params hash s d v =
      elim (Bool-cases (leb max_pending_requests (length s.pending_request_records))) [
        | inl e ↦ rw e (reject-Sound k o id _ _ s v)
        | inr e ↦ rw e (record {
          sent_from = v.sent_from;
          sent_to = v.sent_to;
          received_from = v.received_from;
          pending_within =
              put-Within max_pending_requests id _ s.pending_request_records d e v.pending_within;
          cached_within = v.cached_within;
          broadcast_within = v.broadcast_within;
          resting = v.resting;
        })
      ]

  open_request-Sound :
      (id method : String) (params : Json) (hash : String) (s : Session)
      → (id =s "") ≡ false
      → Sound n m s
      → Sound n m (open_request k o id method params hash s)
  unfolding open_request
  open_request-Sound id method params hash s d v =
      admit_request-Sound (find id s.pending_request_records) id method params hash s d v

  repeat_request-Sound :
      (entry : Option CachedRequestResponse) (id method : String) (params : Json) (hash : String)
      (s : Session)
      → find id s.idempotency_cache ≡ entry
      → (id =s "") ≡ false
      → Sound n m s
      → Sound n m (repeat_request k o entry id method params hash s)
  repeat_request-Sound none id method params hash s f d v =
      open_request-Sound id method params hash s d v
  repeat_request-Sound (some entry) id method params hash s f d v =
      let t = touch_idempotency_entry-Sound k o id entry s f v in
      let s' : Session = touch_idempotency_entry k o id entry s in
      elim (Bool-cases (same_hash entry.params_hash hash)) [
        | inl e ↦ rw e (
            if-Sound entry.too_large (open_request k o id method params hash s')
              (respond_again k o id entry s') (open_request-Sound id method params hash s' d t)
              (send_response-Sound k o id entry.ok entry.result s' t))
        | inr e ↦ rw e (reject-Sound k o id _ _ s v)
      ]

  repeat_broadcast-Sound :
      (entry : Option CachedRequestResponse) (id method : String) (params : Json) (hash : String)
      (s : Session)
      → (id =s "") ≡ false
      → Sound n m s
      → Sound n m (repeat_broadcast k o entry id method params hash s)
  repeat_broadcast-Sound none id method params hash s d v =
      repeat_request-Sound (find id s.idempotency_cache) id method params hash s refl d v
  repeat_broadcast-Sound (some entry) id method params hash s d v =
      elim (Bool-cases (same_hash entry.params_hash hash)) [
        | inl e ↦ rw e (send_response-Sound k o id entry.ok entry.result s v)
        | inr e ↦ rw e (reject-Sound k o id _ _ s v)
      ]

  pub process_request-Sound :
      (id : String) (value : Json) (plaintext : Bytes) (s : Session)
      → (id =s "") ≡ false
      → Sound n m s
      → Sound n m (process_request k o id value plaintext s)
  unfolding process_request dispatch_request
  process_request-Sound id value plaintext s d v = go (method_of value)
    where
      go : (t : Option String) → Sound n m (process_method k o t id value plaintext s)
      go none = reject-Sound k o id _ _ s v
      go (some method) = elim (Bool-cases (includes method o.methods)) [
        | inl e ↦ rw e (
            repeat_broadcast-Sound (find id s.broadcast_response_cache) id method (params_of value)
              (k.sha256_hex plaintext) s d v)
        | inr e ↦ rw e (reject-Sound k o id _ _ s v)
      ]

  receive_request-Sound :
      (id : String) (r : Option (ℕ × Json × Bytes)) (s : Session)
      → (id =s "") ≡ false
      → Sound n m s
      → Sound n m (receive_request k o id r s)
  unfolding receive_request
  receive_request-Sound id none s d v = reject-Sound k o id _ _ s v
  receive_request-Sound id (some (seq, value, plaintext)) s d v =
      elim (Bool-cases (is_replay seq s.recv_seq)) [
        | inl e ↦ rw e v
        | inr e ↦ rw e (
            process_request-Sound id value plaintext
              (persist_snapshot o (record s { recv_seq = some seq })) d
              (persist_snapshot-Sound o (record s { recv_seq = some seq })
                (record {
                  sent_from = v.sent_from;
                  sent_to = v.sent_to;
                  received_from = not_before-replay m seq s.recv_seq v.received_from e;
                  pending_within = v.pending_within;
                  cached_within = v.cached_within;
                  broadcast_within = v.broadcast_within;
                  resting = v.resting;
                })))
      ]

  open_sealed-Sound :
      (sealed : Option String) (key : Option Bytes) (from id : String) (s : Session)
      → (id =s "") ≡ false
      → Sound n m s
      → Sound n m (open_sealed k o sealed key from id s)
  open_sealed-Sound (some sealed) (some key) from id s d v = receive_request-Sound id _ s d v
  open_sealed-Sound (some sealed) none from id s d v = reject-Sound k o id _ _ s v
  open_sealed-Sound none key from id s d v = reject-Sound k o id _ _ s v

  req_from-Sound :
      (id sealed : Option String) (from : String) (s : Session)
      → Sound n m s
      → Sound n m (req_from k o (given_text id) sealed from s)
  req_from-Sound none sealed from s v = v
  req_from-Sound (some id) sealed from s v = elim (Bool-cases (id =s "")) [
    | inl e ↦ rw e v
    | inr e ↦ rw e (open_sealed-Sound (given_text sealed) s.recv_key from id s e v)
  ]

  pub handle_req-Sound :
      (from : String) (id sealed : Option String) (s : Session)
      → Sound n m s
      → Sound n m (handle_req k o from id sealed s)
  unfolding handle_req
  handle_req-Sound from id sealed s v =
      if-Sound (not (same_phase s.phase connected) || is_stranger k o from s.remote_pub_key) s
        (req_from k o (given_text id) sealed from s) v (req_from-Sound id sealed from s v)
