-- ===== src/Sdk/DApp/Replays.antt =====
-- What becomes of the numbers of sealed payloads, received and sent.
use walletpair.Common.{
  ℕ, ◌+◌, ◌<◌, String, true, Option, none, some, List, ◌≡◌, refl, arith, leb, Bool-cases, inl, inr,
  length,
}
use walletpair.Json.{Json, as_object}
use walletpair.Sdk.Types.{connected}
use walletpair.Sdk.DApp.State.{
  Bytes, Crypto, Options, Session, same_phase, emit, rejected, persist_snapshot, send_raw,
}
use walletpair.Sdk.DApp.Requests.{
  promised, refused, request, request_with, request_id, next_send_seq, max_send_seq,
  max_pending_requests, build_request_message, add_pending,
}
use walletpair.Sdk.DApp.Messages.{is_replay, receive_response, receive_event}
use walletpair.Sdk.DApp.Lifecycle.{Event, run}
use walletpair.Sdk.DApp.Soundness.{Sound, not_before, emit-Sound, persist_snapshot-Sound}
use walletpair.Sdk.DApp.Soundness.Messages.{answer-Sound, tell_event-Sound}
use walletpair.Sdk.DApp.Soundness.Steps.{run-Sound}

not_before-is_replay :
    (seq : ℕ) (last : Option ℕ) → not_before (some seq) last ≡ true → is_replay seq last ≡ true
unfolding is_replay
not_before-is_replay seq none h = cc
not_before-is_replay seq (some l) h = h

replay-not_before :
    (seq : ℕ) (last : Option ℕ) → is_replay seq last ≡ true → not_before (some seq) last ≡ true
unfolding is_replay
replay-not_before seq none h = cc
replay-not_before seq (some l) h = h

module _ {n : ℕ} {m : Option ℕ} (k : Crypto) (o : Options) where
  -- The number of the session is taken over, and persisted.
  taken-Sound :
      (seq : ℕ) (s : Session)
      → Sound n m s
      → Sound n (some seq) (persist_snapshot o (record s { recv_seq = some seq }))
  taken-Sound seq s h = persist_snapshot-Sound o _ (record {
    sent_from = h.sent_from;
    sent_to = h.sent_to;
    received_from = ground arith;
    pending = h.pending;
    resting = h.resting;
  })

  seen-Sound :
      (seq : ℕ) (s : Session) → is_replay seq s.recv_seq ≡ true → Sound n m s → Sound n (some seq) s
  seen-Sound seq s e h = record {
    sent_from = h.sent_from;
    sent_to = h.sent_to;
    received_from = replay-not_before seq s.recv_seq e;
    pending = h.pending;
    resting = h.resting;
  }

  receive_event-seen :
      (seq : ℕ) (v : Json) (s : Session)
      → Sound n m s
      → Sound n (some seq) (receive_event k o (some (seq, v)) s)
  unfolding receive_event
  receive_event-seen seq v s h = elim (Bool-cases (is_replay seq s.recv_seq)) [
    | inl e ↦ rw e (seen-Sound seq s e h)
    | inr e ↦ rw e (tell_event-Sound (as_object v) _ (taken-Sound seq s h))
  ]

  receive_response-seen :
      (id : String) (seq : ℕ) (v : Json) (s : Session)
      → Sound n m s
      → Sound n (some seq) (receive_response k o id (some (seq, v)) s)
  unfolding receive_response
  receive_response-seen id seq v s h = elim (Bool-cases (is_replay seq s.recv_seq)) [
    | inl e ↦ rw e (emit-Sound (rejected id "Replay detected") s (seen-Sound seq s e h))
    | inr e ↦ rw e (answer-Sound id v _ (taken-Sound seq s h))
  ]

seen-refused :
    (k : Crypto) (o : Options) (seq : ℕ) (id : String) (v : Json) (s : Session)
    → not_before (some seq) s.recv_seq ≡ true
    → (receive_event k o (some (seq, v)) s ≡ s)
      × (receive_response k o id (some (seq, v)) s ≡ emit (rejected id "Replay detected") s)
unfolding receive_event receive_response
seen-refused k o seq id v s h = let e = not_before-is_replay seq s.recv_seq h in rw e (refl, refl)

-- No number is received twice. Once a session has received the payload of an event with a number,
-- then after any run of events it drops an event with that number, and rejects a response with it.
pub event_replay_refused :
    (k : Crypto) (o : Options) (n : ℕ) (m : Option ℕ) (es : List (ℕ × Event)) (seq : ℕ) (v w : Json)
    (id : String) (s : Session)
    → Sound n m s
    → (receive_event k o (some (seq, w)) (run k o es (receive_event k o (some (seq, v)) s))
        ≡ run k o es (receive_event k o (some (seq, v)) s))
      × (receive_response k o id (some (seq, w)) (run k o es (receive_event k o (some (seq, v)) s))
          ≡ emit (rejected id "Replay detected") (run k o es (receive_event k o (some (seq, v)) s)))
event_replay_refused k o n m es seq v w id s h =
    let later = run-Sound k o n (some seq) es _ (receive_event-seen k o seq v s h) in
    seen-refused k o seq id w _ later.received_from

-- The same holds once it has received the payload of a response with the number, read or not.
pub response_replay_refused :
    (k : Crypto) (o : Options) (n : ℕ) (m : Option ℕ) (es : List (ℕ × Event)) (seq : ℕ) (v w : Json)
    (id id' : String) (s : Session)
    → Sound n m s
    → (receive_event k o (some (seq, w)) (run k o es (receive_response k o id (some (seq, v)) s))
        ≡ run k o es (receive_response k o id (some (seq, v)) s))
      × (receive_response k o id'
            (some (seq, w))
            (run k o es (receive_response k o id (some (seq, v)) s))
          ≡ emit
              (rejected id' "Replay detected")
              (run k o es (receive_response k o id (some (seq, v)) s)))
response_replay_refused k o n m es seq v w id id' s h =
    let later = run-Sound k o n (some seq) es _ (receive_response-seen k o id seq v s h) in
    seen-refused k o seq id' w _ later.received_from

-- The session once the next number is taken, and persisted.
abbrev pub numbered : Options → Session → Session
numbered o s =
    persist_snapshot o (record s { req_counter = s.req_counter + 1; send_seq = s.send_seq + 1 })

request_with-promised :
    (k : Crypto) (o : Options) (key : Option Bytes) (method : String) (params : Option Json)
    (s : Session) (id : String)
    → (request_with k o key method params s).1 ≡ promised id
    → (length s.pending_requests < max_pending_requests)
      × (s.send_seq < max_send_seq)
      × (id ≡ request_id (s.req_counter + 1))
      × (b : Bytes) × (key ≡ some b)
      × ((request_with k o key method params s).0
          ≡ send_raw k (build_request_message k o id method params s.send_seq b (numbered o s)) (
              add_pending k o
                (record { id = id; method = method; params = params })
                (numbered o s)))
unfolding next_send_seq
request_with-promised k o none method params s id e = cc
request_with-promised k o (some b) method params s id e =
    elim (Bool-cases (leb max_pending_requests (length s.pending_requests))) [
      | inl f ↦ let g : refused "Too many pending requests" ≡ promised id = rw f at e in cc
      | inr f ↦ elim (Bool-cases (leb max_send_seq s.send_seq)) [
        | inl g ↦
            let h : refused "Send sequence overflow/limit reached — session invalidated"
                ≡ promised id =
              rw (f, g) at e in
            cc
        | inr g ↦
            let h : promised (request_id (s.req_counter + 1)) ≡ promised id = rw (f, g) at e in
            rw (f, g) (ground (arith, f), ground (arith, g), cc, b, refl, cc)
      ]
    ]

-- What a promise says of the session.
pub request_promised :
    (k : Crypto) (o : Options) (method : String) (params : Option Json) (s : Session) (id : String)
    → (request k o method params s).1 ≡ promised id
    → (same_phase s.phase connected ≡ true)
      × (length s.pending_requests < max_pending_requests)
      × (s.send_seq < max_send_seq)
      × (id ≡ request_id (s.req_counter + 1))
      × (b : Bytes) × (s.send_key ≡ some b)
      × ((request k o method params s).0
          ≡ send_raw k (build_request_message k o id method params s.send_seq b (numbered o s)) (
              add_pending k o
                (record { id = id; method = method; params = params })
                (numbered o s)))
unfolding request
request_promised k o method params s id e = elim (Bool-cases (same_phase s.phase connected)) [
  | inl f ↦
      let (room, number, next, b, key, out) =
        request_with-promised k o s.send_key method params s id (rw f at e) in
      rw f (refl, room, number, next, b, key, out)
  | inr f ↦ let g : refused "Not connected" ≡ promised id = rw f at e in cc
]
