-- ===== src/Sdk/Wallet/Repeats.antt =====
-- Requests that a wallet gets again: by their number, and by their id.
use walletpair.Common.{
  ℕ, String, true, false, Option, none, some, List, ◌≡◌, refl, arith, ◌=s◌, Bool-cases, inl, inr,
}
use walletpair.Json.{Json}
use walletpair.Sdk.DApp.State.{Bytes}
use walletpair.Sdk.DApp.Messages.{is_replay}
use walletpair.Sdk.DApp.Soundness.{not_before}
use walletpair.Sdk.Wallet.State.{Crypto, Options, Session, persist_snapshot}
use walletpair.Sdk.Wallet.Requests.{receive_request}
use walletpair.Sdk.Wallet.Lifecycle.{Event, run}
use walletpair.Sdk.Wallet.Soundness.{Sound, persist_snapshot-Sound}
use walletpair.Sdk.Wallet.Soundness.Requests.{process_request-Sound}
use walletpair.Sdk.Wallet.Soundness.Steps.{run-Fine}

not_before-replayed :
    (seq : ℕ) (last : Option ℕ) → not_before (some seq) last ≡ true → is_replay seq last ≡ true
unfolding is_replay
not_before-replayed seq none h = cc
not_before-replayed seq (some last) h = h

replay-not_before :
    (seq : ℕ) (last : Option ℕ) → is_replay seq last ≡ true → not_before (some seq) last ≡ true
unfolding is_replay
replay-not_before seq none h = cc
replay-not_before seq (some last) h = h

module _ (k : Crypto) (o : Options) where
  -- A session that has received a number keeps it, whatever the request was.
  receive_request-kept :
      (n : ℕ) (m : Option ℕ) (id : String) (seq : ℕ) (value : Json) (plaintext : Bytes)
      (s : Session)
      → (id =s "") ≡ false
      → Sound n m s
      → Sound n (some seq) (receive_request k o id (some (seq, value, plaintext)) s)
  unfolding receive_request
  receive_request-kept n m id seq value plaintext s d v =
      elim (Bool-cases (is_replay seq s.recv_seq)) [
        | inl e ↦ rw e (record {
          sent_from = v.sent_from;
          sent_to = v.sent_to;
          received_from = replay-not_before seq s.recv_seq e;
          pending_within = v.pending_within;
          cached_within = v.cached_within;
          broadcast_within = v.broadcast_within;
          resting = v.resting;
        })
        | inr e ↦ rw e (
            process_request-Sound k o id value plaintext
              (persist_snapshot o (record s { recv_seq = some seq })) d
              (persist_snapshot-Sound o (record s { recv_seq = some seq })
                (record {
                  sent_from = v.sent_from;
                  sent_to = v.sent_to;
                  received_from = ground arith;
                  pending_within = v.pending_within;
                  cached_within = v.cached_within;
                  broadcast_within = v.broadcast_within;
                  resting = v.resting;
                })))
      ]

  -- Once a sound wallet session has received the payload of a request under an id that is not
  -- empty, then after any run of events it drops every request with that number, whatever its id
  -- and its payload.
  pub request_replay_dropped :
      (n : ℕ) (m : Option ℕ) (es : List (ℕ × Event)) (seq : ℕ) (id again : String)
      (value value' : Json) (plaintext plaintext' : Bytes) (s : Session)
      → (id =s "") ≡ false
      → Sound n m s
      → receive_request k o again
          (some (seq, value', plaintext'))
          (run k o es (receive_request k o id (some (seq, value, plaintext)) s))
        ≡ run k o es (receive_request k o id (some (seq, value, plaintext)) s)
  unfolding receive_request
  request_replay_dropped n m es seq id again value value' plaintext plaintext' s d v =
      let first : Session = receive_request k o id (some (seq, value, plaintext)) s in
      let w =
        run-Fine k o n (some seq) es first
          (receive_request-kept n m id seq value plaintext s d v) in
      rw (not_before-replayed seq (run k o es first).recv_seq w.received_from) refl
