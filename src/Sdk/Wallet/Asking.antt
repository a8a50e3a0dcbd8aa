-- ===== src/Sdk/Wallet/Asking.antt =====
-- How often a wallet asks its application for an answer to a request.
pub mod Known
use walletpair.Common.{
  ℕ, suc, zero, ◌+◌, ◌≤◌, String, Bool, true, false, not, ◌&&◌, ◌||◌, Option, none, some, List, [],
  ◌∷◌, ◌≡◌, refl, arith, ◌∙◌, ap, leb, ltb, ◌=s◌, if◌then◌else◌, length, Bool-cases, Option-cases,
  inl, inr, is_some,
}
use walletpair.Json.{Json}
use walletpair.Sdk.Types.{includes}
use walletpair.Sdk.Maps.{find, put}
use walletpair.Sdk.DApp.State.{Bytes}
use walletpair.Sdk.Wallet.State.{
  WalletPhase, Crypto, Options, PendingRequestRecord, CachedRequestResponse, Session, Output,
  request, Payload, connected, closed, emit, set_phase, same_phase, send_raw, persist_snapshot,
  clear_persistence, stop_heartbeat, disconnects, error, logged,
}
use walletpair.Sdk.Wallet.Closing.{
  close, next_send_seq, clear_requests, stop_reconnect, clear_session_ttl, max_send_seq,
}
use walletpair.Sdk.Wallet.Responses.{
  is_broadcast, cache_response, cache_processed_response, evict_idempotency_cache,
  evict_broadcast_cache, touch_idempotency_entry, respond, respond_with, send_response, after_send,
  reject, response_message,
}
use walletpair.Sdk.Wallet.Requests.{
  dispatch_request, refuse_request, repeat_broadcast, repeat_request, respond_again, open_request,
  admit_request, same_hash, max_pending_requests,
}

abbrev pub is_request : String → Output → Bool
is_request id (request x method params) = x =s id
is_request id _ = false

-- The requests under an id that the application has been given.
unfoldable pub asked : String → List Output → ℕ
asked id [] = 0
asked id (x ∷ xs) = if is_request id x then suc (asked id xs) else asked id xs

module _ (id : String) where
  if-asked :
      (b : Bool) (x y s : Session)
      → asked id x.out ≡ asked id s.out
      → asked id y.out ≡ asked id s.out
      → asked id (if b then x else y).out ≡ asked id s.out
  if-asked true x y s e f = e
  if-asked false x y s e f = f

  set_phase-asked : (p : WalletPhase) (s : Session) → asked id (set_phase p s).out ≡ asked id s.out
  unfolding set_phase stop_heartbeat asked
  set_phase-asked p s = elim (Bool-cases (same_phase s.phase p)) [
    | inl e ↦ rw e refl
    | inr e ↦ elim (Bool-cases (same_phase p connected)) [
      | inl f ↦ rw (e, f) refl
      | inr f ↦ rw (e, f) refl
    ]
  ]

  module _ (k : Crypto) (o : Options) where
    send_raw-asked : (p : Payload) (s : Session) → asked id (send_raw k p s).out ≡ asked id s.out
    unfolding send_raw asked
    send_raw-asked p s = elim (Bool-cases (ltb 65536 (k.wire_size s.channel_id s.pub_key p))) [
      | inl e ↦ rw e refl
      | inr e ↦ rw e refl
    ]

    persist_snapshot-asked : (s : Session) → asked id (persist_snapshot o s).out ≡ asked id s.out
    unfolding persist_snapshot asked
    persist_snapshot-asked s = elim (Bool-cases o.persists) [
      | inl e ↦ simp e refl
      | inr e ↦ simp e refl
    ]

    close-asked :
        (reason : String) (s : Session) → asked id (close k o reason s).out ≡ asked id s.out
    unfolding close clear_requests stop_reconnect clear_session_ttl clear_persistence asked
    close-asked reason s =
        let s' : Session = clear_requests (
          clear_session_ttl (
            stop_reconnect (record (emit (logged "session_close" (some reason) false) s) {
              intentional_close = true;
            }))) in
        let s'' : Session =
          if s'.channel_id =s "" then s' else send_raw k (Payload.close reason) s' in
        let e : asked id s''.out ≡ asked id s.out =
          if-asked (s'.channel_id =s "") s' (send_raw k (Payload.close reason) s') s refl
            (send_raw-asked (Payload.close reason) s') in
        set_phase-asked closed (emit disconnects (clear_persistence o s''))
        ∙ if-asked o.persists (emit walletpair.Sdk.Wallet.State.cleared s'') s'' s e e

    next_send_seq-asked : (s : Session) → asked id (next_send_seq k o s).0.out ≡ asked id s.out
    unfolding next_send_seq asked
    next_send_seq-asked s = elim (Bool-cases (leb max_send_seq s.send_seq)) [
      | inl e ↦ rw e (
          close-asked "normal"
            (emit (error "Send sequence overflow/limit reached — session invalidated") s))
      | inr e ↦ rw e (persist_snapshot-asked (record s { send_seq = s.send_seq + 1 }))
    ]

    pub send_response-asked :
        (ok : Bool) (result : Option Json) (s : Session)
        → asked id (send_response k o id ok result s).0.out ≡ asked id s.out
    unfolding send_response
    send_response-asked ok result s = go s.send_key
      where
        sent :
            (key : Bytes) (q : Session × Option ℕ)
            → asked id (respond k o id ok result key q).0.out ≡ asked id q.0.out
        sent key (s', none) = refl
        sent key (s', some seq) = send_raw-asked _ s'

        go :
            (key : Option Bytes)
            → asked id (respond_with k o key id ok result s).0.out ≡ asked id s.out
        go none = refl
        go (some key) = sent key (next_send_seq k o s) ∙ next_send_seq-asked s

    cache_processed_response-asked :
        (ok : Bool) (result : Option Json) (s : Session)
        → asked id (cache_processed_response k o id ok result s).out ≡ asked id s.out
    unfolding cache_processed_response cache_response evict_idempotency_cache evict_broadcast_cache
    cache_processed_response-asked ok result s =
        elim (Option-cases (find id s.pending_request_records)) [
          | inl e ↦ rw (e, cache_processed_response) refl
          | inr (r, e) ↦ elim (Bool-cases (is_broadcast r ok)) [
            | inl f ↦ rw (e, cache_processed_response, f) refl
            | inr f ↦ rw (e, cache_processed_response, f) refl
          ]
        ]

    pub reject-asked :
        (code message : String) (s : Session)
        → asked id (reject k o id code message s).0.out ≡ asked id s.out
    unfolding reject
    reject-asked code message s =
        let e = some (walletpair.Sdk.Wallet.Responses.error_value code message) in
        done e (send_response k o id false e s) ∙ send_response-asked false e s
      where
        done :
            (e : Option Json) (q : Session × Bool)
            → asked id (after_send k o id false e q).0.out ≡ asked id q.0.out
        done e (s', true) = cache_processed_response-asked false e s'
        done e (s', false) = refl
