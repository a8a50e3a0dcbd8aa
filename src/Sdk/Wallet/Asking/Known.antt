-- ===== src/Sdk/Wallet/Asking/Known.antt =====
-- Requests that a wallet still knows.
use walletpair.Common.{
  String, Bool, true, false, not, ◌||◌, Option, none, some, ◌≡◌, refl, arith, Bool-cases, inl, inr,
  is_some,
}
use walletpair.Json.{Json}
use walletpair.Sdk.Types.{includes}
use walletpair.Sdk.Maps.{find}
use walletpair.Sdk.Wallet.State.{
  Crypto, Options, PendingRequestRecord, CachedRequestResponse, Session,
}
use walletpair.Sdk.Wallet.Responses.{touch_idempotency_entry}
use walletpair.Sdk.Wallet.Requests.{
  dispatch_request, repeat_broadcast, repeat_request, open_request, admit_request, same_hash,
}
use walletpair.Sdk.Wallet.Asking.{asked, send_response-asked, reject-asked}

abbrev pub is_repeatable : Option CachedRequestResponse → Bool
is_repeatable none = false
is_repeatable (some entry) = not entry.too_large

module _ (id : String) where
  module _ (k : Crypto) (o : Options) where
    -- A request that a wallet still knows: it is pending, or has a response that can be given again.
    unfoldable pub is_known : Session → Bool
    unfolding find
    is_known s =
        is_some (find id s.pending_request_records)
        || is_some (find id s.broadcast_response_cache)
        || is_repeatable (find id s.idempotency_cache)

    known_open-asked :
        (method hash : String) (params : Json) (s : Session)
        → is_some (find id s.pending_request_records) ≡ true
        → asked id (open_request k o id method params hash s).out ≡ asked id s.out
    unfolding open_request
    known_open-asked method hash params s e = go (find id s.pending_request_records) e
      where
        go :
            (r : Option PendingRequestRecord)
            → is_some r ≡ true
            → asked id (admit_request k o r id method params hash s).out ≡ asked id s.out
        go none f = cc
        go (some r) f = elim (Bool-cases (same_hash r.params_hash hash)) [
          | inl g ↦ rw g refl
          | inr g ↦ rw g (reject-asked id k o _ _ s)
        ]

    known_repeat-asked :
        (entry : Option CachedRequestResponse) (method hash : String) (params : Json) (s : Session)
        → (is_some (find id s.pending_request_records) || is_repeatable entry) ≡ true
        → asked id (repeat_request k o entry id method params hash s).out ≡ asked id s.out
    unfolding touch_idempotency_entry
    known_repeat-asked none method hash params s e =
        known_open-asked method hash params s (ground arith)
    known_repeat-asked (some entry) method hash params s e =
        let s' : Session = touch_idempotency_entry k o id entry s in
        elim (Bool-cases (same_hash entry.params_hash hash)) [
          | inl f ↦ elim (Bool-cases entry.too_large) [
            | inl g ↦ simp (f, g) (known_open-asked method hash params s' (ground arith))
            | inr g ↦ simp (f, g) (send_response-asked id k o entry.ok entry.result s')
          ]
          | inr f ↦ rw f (reject-asked id k o _ _ s)
        ]

    -- While a request is pending, or has a response that can be given again, no message under its
    -- id, with whatever method, parameters and payload, gives the application another request
    -- under that id.
    pub known_request_silent :
        (method hash : String) (params : Json) (s : Session)
        → is_known s ≡ true
        → asked id (dispatch_request k o id method params hash s).out ≡ asked id s.out
    unfolding dispatch_request is_known
    known_request_silent method hash params s e = elim (Bool-cases (includes method o.methods)) [
      | inl f ↦ rw f (go (find id s.broadcast_response_cache) e)
      | inr f ↦ rw f (reject-asked id k o _ _ s)
    ]
      where
        go :
            (b : Option CachedRequestResponse)
            → (is_some (find id s.pending_request_records)
                || is_some b
                || is_repeatable (find id s.idempotency_cache))
              ≡ true
            → asked id (repeat_broadcast k o b id method params hash s).out ≡ asked id s.out
        go none g =
            known_repeat-asked (find id s.idempotency_cache) method hash params s (ground arith)
        go (some b) g = elim (Bool-cases (same_hash b.params_hash hash)) [
          | inl h ↦ rw h (send_response-asked id k o b.ok b.result s)
          | inr h ↦ rw h (reject-asked id k o _ _ s)
        ]
