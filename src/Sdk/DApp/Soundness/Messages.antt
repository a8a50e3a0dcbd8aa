-- ===== src/Sdk/DApp/Soundness/Messages.antt =====
-- Soundness and requests, responses and events.
use walletpair.Common.{
  ℕ, ◌≤◌, String, true, false, Option, none, some, List, [], ◌∷◌, ◌≡◌, refl, arith, ◌=s◌, leb,
  length, Bool-cases, Option-cases, inl, inr,
}
use walletpair.Json.{Json, null, bool, num, str, arr, obj, Fields, get, as_object}
use walletpair.Sdk.Types.{connected}
use walletpair.Sdk.DApp.State.{
  given, Bytes, Crypto, Options, PendingRequest, Session, Payload, pong, error, emit, set_phase,
  same_phase, send_raw, wallet_joined, persist_snapshot,
}
use walletpair.Sdk.DApp.Requests.{
  delete_pending, next_send_seq, resend_next, resend_each, resend_pending, max_send_seq,
}
use walletpair.Sdk.DApp.Messages.{is_replay, answer, tell_event, receive_response, receive_event}
use walletpair.Sdk.DApp.Soundness.{
  Sound, not_before, emit-Sound, if-Sound, send_raw-Sound, persist_snapshot-Sound, close-Sound,
}

pub delete_pending-shorter :
    (id : String) (rs : List PendingRequest) → length (delete_pending id rs) ≤ length rs
unfolding delete_pending
delete_pending-shorter id [] = omega arith
delete_pending-shorter id (r ∷ rs) = elim (Bool-cases (r.id =s id)) [
  | inl e ↦ rw e (omega arith)
  | inr e ↦ rw e (omega (arith, delete_pending-shorter id rs))
]

-- The number that was received last only grows.
pub not_before-replay :
    (m : Option ℕ) (seq : ℕ) (last : Option ℕ)
    → not_before m last ≡ true
    → is_replay seq last ≡ false
    → not_before m (some seq) ≡ true
unfolding is_replay
not_before-replay none seq last h r = refl
not_before-replay (some a) seq none h r = cc
not_before-replay (some a) seq (some b) h r = ground arith

module _ {n : ℕ} {m : Option ℕ} where
  pub answer-Sound :
      (id : String) (v : Json) (s : Session) → Sound n m s → Sound n m (answer id v s)
  unfolding answer
  answer-Sound id null s h = emit-Sound _ s h
  answer-Sound id (bool b) s h = emit-Sound _ s h
  answer-Sound id (num x) s h = emit-Sound _ s h
  answer-Sound id (str x) s h = emit-Sound _ s h
  answer-Sound id (arr x) s h = emit-Sound _ s h
  answer-Sound id (obj f) s h = go (get "_ok" f)
    where
      go :
          (v : Option Json)
          → Sound n m (elim v [
            | some (bool true) ↦ emit (walletpair.Sdk.DApp.State.resolved id (get "_result" f)) s
            | some (bool false) ↦
                emit (walletpair.Sdk.DApp.State.declined id (get "code" f) (get "message" f)) s
            | some _ ↦ emit (walletpair.Sdk.DApp.State.rejected id "Response missing _ok field") s
            | none ↦ emit (walletpair.Sdk.DApp.State.rejected id "Response missing _ok field") s
          ])
      go none = emit-Sound _ s h
      go (some (bool true)) = emit-Sound _ s h
      go (some (bool false)) = emit-Sound _ s h
      go (some null) = emit-Sound _ s h
      go (some (num x)) = emit-Sound _ s h
      go (some (str x)) = emit-Sound _ s h
      go (some (arr x)) = emit-Sound _ s h
      go (some (obj x)) = emit-Sound _ s h

  pub tell_event-Sound :
      (f : Option Fields) (s : Session) → Sound n m s → Sound n m (tell_event f s)
  unfolding tell_event
  tell_event-Sound none s h = emit-Sound _ s h
  tell_event-Sound (some f) s h = elim (Option-cases (get "_event" f)) [
    | inl e ↦ rw (e, tell_event) (emit-Sound _ s h)
    | inr (v, e) ↦ rw (e, tell_event) (if-Sound _ (emit-Sound _ s h) (emit-Sound _ s h))
  ]

  module _ (k : Crypto) (o : Options) where
    pub next_send_seq-Sound : (s : Session) → Sound n m s → Sound n m (next_send_seq k o s).0
    unfolding next_send_seq
    next_send_seq-Sound s h = elim (Bool-cases (leb max_send_seq s.send_seq)) [
      | inl e ↦ rw e (close-Sound k o "normal" _ (emit-Sound _ s h))
      | inr e ↦ rw e (
          persist_snapshot-Sound o _ (record {
            sent_from = omega (arith, h.sent_from);
            sent_to = ground (arith, h.sent_to);
            received_from = h.received_from;
            pending = h.pending;
            resting = h.resting;
          }))
    ]

    resend_next-Sound :
        (q : Option ℕ) (key : Bytes) (r : PendingRequest) (f : Session → Session) (s : Session)
        → Sound n m s
        → ((x : Session) → Sound n m x → Sound n m (f x))
        → Sound n m (elim (resend_next k o q key r s) [ none ↦ s | some x ↦ f x ])
    resend_next-Sound none key r f s h g = h
    resend_next-Sound (some q) key r f s h g = g _ (send_raw-Sound k _ s h)

    resend_each-Sound :
        (rs : List PendingRequest) (key : Bytes) (s : Session)
        → Sound n m s
        → Sound n m (resend_each k o rs key s)
    unfolding resend_each
    resend_each-Sound [] key s h = h
    resend_each-Sound (r ∷ rs) key s h =
        resend_next-Sound (next_send_seq k o s).1 key r (resend_each k o rs key)
          (next_send_seq k o s).0 (next_send_seq-Sound s h) (resend_each-Sound rs key)

    pub resend_pending-Sound : (s : Session) → Sound n m s → Sound n m (resend_pending k o s)
    unfolding resend_pending
    resend_pending-Sound s h = if-Sound (same_phase s.phase connected) (go s.send_key) h
      where
        go :
            (key : Option Bytes)
            → Sound n m (elim key [
              | none ↦ s
              | some send_key ↦ resend_each k o s.pending_requests send_key s
            ])
        go none = h
        go (some key) = resend_each-Sound s.pending_requests key s h

    pub receive_response-Sound :
        (id : String) (r : Option (ℕ × Json)) (s : Session)
        → Sound n m s
        → Sound n m (receive_response k o id r s)
    unfolding receive_response
    receive_response-Sound id none s h = emit-Sound _ s h
    receive_response-Sound id (some (seq, value)) s h =
        elim (Bool-cases (is_replay seq s.recv_seq)) [
          | inl e ↦ rw e (emit-Sound _ s h)
          | inr e ↦ rw e (
              answer-Sound id value _ (
                persist_snapshot-Sound o _ (record {
                  sent_from = h.sent_from;
                  sent_to = h.sent_to;
                  received_from = not_before-replay m seq s.recv_seq h.received_from e;
                  pending = h.pending;
                  resting = h.resting;
                })))
        ]

    pub receive_event-Sound :
        (r : Option (ℕ × Json)) (s : Session) → Sound n m s → Sound n m (receive_event k o r s)
    unfolding receive_event
    receive_event-Sound none s h = h
    receive_event-Sound (some (seq, value)) s h = elim (Bool-cases (is_replay seq s.recv_seq)) [
      | inl e ↦ rw e h
      | inr e ↦ rw e (
          tell_event-Sound (as_object value) _ (
            persist_snapshot-Sound o _ (record {
              sent_from = h.sent_from;
              sent_to = h.sent_to;
              received_from = not_before-replay m seq s.recv_seq h.received_from e;
              pending = h.pending;
              resting = h.resting;
            })))
    ]
