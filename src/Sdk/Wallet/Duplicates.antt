-- ===== src/Sdk/Wallet/Duplicates.antt =====
-- A pending request whose id comes again with another payload.
use walletpair.Common.{
  ℕ, String, Bool, true, false, Option, none, some, ◌≡◌, refl, ap, ◌∙◌, Bool-cases, inl, inr,
}
use walletpair.Json.{Json}
use walletpair.Sdk.Types.{includes}
use walletpair.Sdk.Maps.{find, remove}
use walletpair.Sdk.Wallet.State.{Crypto, Options, PendingRequestRecord, Session}
use walletpair.Sdk.Wallet.Responses.{
  cached_response, is_broadcast, cache_response, cache_processed_response, evict_idempotency_cache,
  evict_broadcast_cache, send_response, reject, error_value,
}
use walletpair.Sdk.Wallet.Requests.{dispatch_request, open_request, same_hash}
use walletpair.Sdk.Wallet.Soundness.{Sound}
use walletpair.Sdk.Wallet.Answers.{send_response-maps, after_send-sent, answered}

abbrev pub duplicate_error : Json
duplicate_error = error_value "invalid_params" "Duplicate request ID with different params"

module _ (k : Crypto) (o : Options) where
  cache_processed_response-pending :
      (id : String) (r : PendingRequestRecord) (ok : Bool) (result : Option Json) (s : Session)
      → find id s.pending_request_records ≡ some r
      → (cache_processed_response k o id ok result s).pending_request_records
        ≡ remove id s.pending_request_records
  unfolding cache_processed_response cache_response evict_idempotency_cache evict_broadcast_cache
  cache_processed_response-pending id r ok result s f = elim (Bool-cases (is_broadcast r ok)) [
    | inl e ↦ rw (f, cache_processed_response, e) refl
    | inr e ↦ rw (f, cache_processed_response, e) refl
  ]

  -- In a sound session, let a request be pending and no response be kept under its id. Another
  -- request under that id, for a granted method and with another payload, is refused; where the
  -- refusal is sent, the first request is no longer pending, and its answer that is kept is that
  -- refusal.
  pub duplicate_settles_pending :
      (n : ℕ) (m : Option ℕ) (id method hash : String) (r : PendingRequestRecord) (params : Json)
      (s : Session)
      → Sound n m s
      → find id s.pending_request_records ≡ some r
      → find id s.broadcast_response_cache ≡ none
      → find id s.idempotency_cache ≡ none
      → includes method o.methods ≡ true
      → same_hash r.params_hash hash ≡ false
      → (reject k o id "invalid_params" "Duplicate request ID with different params" s).1 ≡ true
      → let s' = dispatch_request k o id method params hash s in
        (s' ≡ (reject k o id "invalid_params" "Duplicate request ID with different params" s).0)
        × (s'.pending_request_records ≡ remove id s.pending_request_records)
        × (find id s'.idempotency_cache ≡ some (cached_response k o r false (some duplicate_error)))
  unfolding reject dispatch_request open_request
  duplicate_settles_pending n m id method hash r params s v f b c granted other e =
      let (kept, _) = answered k o n m id r false (some duplicate_error) s v f e in
      let (sent, same) =
        after_send-sent k o id false (some duplicate_error)
          (send_response k o id false (some duplicate_error) s) e in
      let left = send_response-maps k o id false (some duplicate_error) s sent in
      let g = ap (λ x. find id x.pending) left ∙ f in
      simp (granted, b, c, f, other)
        (
          refl,
          ap (λ x. x.pending_request_records) same
              ∙ cache_processed_response-pending id r false (some duplicate_error)
                  (send_response k o id false (some duplicate_error) s).0 g
              ∙ ap (λ x. remove id x.pending) left,
          kept,
        )
