-- ===== src/Sdk/DApp/Numbering.antt =====
-- The numbers that requests are sealed with.
use walletpair.Common.{
  ℕ, ◌+◌, ◌<◌, String, Option, some, List, ◌≡◌, refl, ap, ◌∙◌, arith, ltb, Bool-cases, inl, inr,
}
use walletpair.Json.{Json}
use walletpair.Sdk.DApp.State.{
  Bytes, Crypto, Options, Session, Payload, req, persist_snapshot, send_raw,
}
use walletpair.Sdk.DApp.Requests.{
  promised, request, request_id, max_send_seq, build_sealed_params, build_request_message,
  add_pending,
}
use walletpair.Sdk.DApp.Lifecycle.{Event, run}
use walletpair.Sdk.DApp.Soundness.{Sound}
use walletpair.Sdk.DApp.Soundness.Steps.{request-Sound, run-Sound}
use walletpair.Sdk.DApp.Replays.{request_promised, numbered}

-- A request whose message, bound to its id and its sender, is sealed under the session's key and
-- channel with a number, and sent once the number is taken and the request is pending.
pub record SealedWith (k : Crypto) (o : Options) (method : String) (params : Option Json)
    (id : String) (seq : ℕ) (s : Session) : Type 0 where
  pub key : Bytes
  pub keyed : s.send_key ≡ some key
  pub named : id ≡ request_id (s.req_counter + 1)
  pub sent :
      (request k o method params s).0
      ≡ send_raw k
          (req id (
            k.seal_payload key s.channel_id seq
              (build_sealed_params method params)
              (record { kind = "req"; from = s.pub_key; id = id })))
          (add_pending k o (record { id = id; method = method; params = params }) (numbered o s))

module _ (k : Crypto) (o : Options) where
  message-written :
      (id method : String) (params : Option Json) (seq : ℕ) (key : Bytes) (s : Session)
      → build_request_message k o id method params seq key (numbered o s)
        ≡ req id (
            k.seal_payload key s.channel_id seq
              (build_sealed_params method params)
              (record { kind = "req"; from = s.pub_key; id = id }))
  unfolding build_request_message persist_snapshot
  message-written id method params seq key s = elim (Bool-cases o.persists) [
    | inl e ↦ rw e refl
    | inr e ↦ rw e refl
  ]

  request-SealedWith :
      (method : String) (params : Option Json) (s : Session) (id : String)
      → (request k o method params s).1 ≡ promised id
      → (s.send_seq < max_send_seq) × SealedWith k o method params id s.send_seq s
  request-SealedWith method params s id e =
      let (connected, room, number, next, b, key, out) =
        request_promised k o method params s id e in
      (
        number,
        record {
          key = b;
          keyed = key;
          named = next;
          sent =
              out
              ∙ ap
                  (λ x. send_raw k x (
                    add_pending k o (record { id = id; method = method; params = params })
                      (numbered o s)))
                  (message-written id method params s.send_seq b s);
        },
      )

  sent-seq : (x : Payload) (s : Session) → (send_raw k x s).send_seq ≡ s.send_seq
  unfolding send_raw
  sent-seq x s = elim (Bool-cases (ltb 65536 (k.wire_size s.channel_id s.pub_key x))) [
    | inl e ↦ rw e refl
    | inr e ↦ rw e refl
  ]

  numbered-seq : (s : Session) → (numbered o s).send_seq ≡ s.send_seq + 1
  unfolding persist_snapshot
  numbered-seq s = elim (Bool-cases o.persists) [ inl e ↦ rw e refl | inr e ↦ rw e refl ]

  -- Let a request of a sound session be promised an answer, and after any further events of the
  -- session another one. Each is sealed under the key and the channel of its session with the number
  -- that is next there, and the number of the second is greater than that of the first, and below
  -- 2^31.
  pub requests_sealed_apart :
      (n : ℕ) (m : Option ℕ) (es : List (ℕ × Event)) (method method' : String)
      (params params' : Option Json) (s : Session) (id id' : String)
      → Sound n m s
      → (request k o method params s).1 ≡ promised id
      → (request k o method' params' (run k o es (request k o method params s).0)).1 ≡ promised id'
      → let later = run k o es (request k o method params s).0 in
        SealedWith k o method params id s.send_seq s
        × SealedWith k o method' params' id' later.send_seq later
        × (s.send_seq < later.send_seq)
        × (later.send_seq < max_send_seq)
  requests_sealed_apart n m es method method' params params' s id id' h e e' =
      let first = request-SealedWith method params s id e in
      let s' : Session = (request k o method params s).0 in
      let second = request-SealedWith method' params' (run k o es s') id' e' in
      let taken : s'.send_seq ≡ s.send_seq + 1 =
        ap (λ (x : Session). x.send_seq) first.1.sent ∙ sent-seq _ _ ∙ numbered-seq s in
      let h' : Sound n m s' = request-Sound k o method params s h in
      let from : Sound (s.send_seq + 1) m s' = record {
        sent_from = omega (arith, taken);
        sent_to = h'.sent_to;
        received_from = h'.received_from;
        pending = h'.pending;
        resting = h'.resting;
      } in
      let later = run-Sound k o (s.send_seq + 1) m es s' from in
      (first.1, second.1, omega (arith, later.sent_from), second.0)
