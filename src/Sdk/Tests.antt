-- ===== src/Sdk/Tests.antt =====
-- A session with a toy cryptography, and the theorems of the SDK at its states.
use walletpair.Common.{ℕ, ◌+◌, ◌<◌, true, false, none, some, List, [], ◌∷◌, ◌≡◌, refl, arith}
use walletpair.Json.{Json, null, obj, str, bool, field, end}
use walletpair.Sdk.DApp.Edges.{message, ended_session_reopens}
use walletpair.Sdk.Types.{waiting, connected, closed, Body}
use walletpair.Sdk.DApp.State.{Crypto, Options, Session, rejected, emit, same_phase, serialize}
use walletpair.Sdk.DApp.Closing.{can_reconnect}
use walletpair.Sdk.DApp.Reconnecting.{start_reconnect}
use walletpair.Sdk.DApp.Requests.{promised, request, request_id, next_send_seq, max_send_seq}
use walletpair.Sdk.DApp.Messages.{handle_message, receive_event, receive_response}
use walletpair.Sdk.DApp.Lifecycle.{Event, requests, received, run, restore_snapshot}
use walletpair.Sdk.DApp.Soundness.{Sound}
use walletpair.Sdk.DApp.Soundness.Steps.{run-Sound}
use walletpair.Sdk.DApp.Replays.{event_replay_refused, response_replay_refused}
use walletpair.Sdk.DApp.Numbering.{SealedWith, requests_sealed_apart}
use walletpair.Sdk.DApp.Retries.{lost_rounds, lost_rounds-close}
use walletpair.Sdk.DApp.Snapshots.{serialize-restore}

-- Every text stands for itself, and nothing is encrypted.
abbrev pub toy : Crypto
toy = record {
  b64url_decode = λ text. some (1 ∷ 2 ∷ []);
  b64url_encode = λ bytes. "wallet";
  root_key = λ priv remote ch. some (0 ∷ []);
  unseal_join = λ root ch sealed. some (field "capabilities" null end);
  directional_keys = λ root ch context. (1 ∷ [], 2 ∷ []);
  seal_payload = λ key ch seq value header. "sealed";
  unseal_payload = λ key ch sealed header.
      some (5, obj (field "_ok" (bool true) (field "_result" (str "0x") end)));
  canonical_json = λ value. "{}";
  wire_size = λ ch from payload. 100;
}

abbrev pub options : Options
options = record {
  declared_methods = [];
  declared_chains = [];
  auto_accept = true;
  resend_on_reconnect = true;
  heartbeat_interval = 20000;
  max_reconnect_attempts = 3;
  max_reconnect_duration_ms = 0;
  session_ttl = 86400000;
  persists = true;
}

abbrev pub paired_session : Session
paired_session = record {
  phase = connected;
  channel_id = "channel";
  priv_key = 3 ∷ [];
  pub_key = "dapp";
  remote_pub_key = some (4 ∷ []);
  send_key = some (1 ∷ []);
  recv_key = some (2 ∷ []);
  send_seq = 7;
  recv_seq = some 4;
  req_counter = 1;
  paired = true;
  intentional_close = false;
  wallet_capabilities = none;
  wallet_meta = none;
  approved_scope_recorded = true;
  approved_capabilities = none;
  approved_wallet_meta = none;
  approved_wallet_pub_key = some "wallet";
  pending_requests = [];
  reconnecting = false;
  reconnect_attempt = 0;
  reconnect_started_at = 0;
  session_start_time = some 1000;
  pending_accept_timer = false;
  reconnect_timer = false;
  heartbeat_timer = true;
  liveness_timer = false;
  session_ttl_timer = some 1000;
  out = [];
}

-- A request, and its answer.
abbrev exchange : List (ℕ × Event)
exchange =
    (2000, requests "wallet_getAccounts" none)
    ∷ (
      2100,
      received (record {
        v = some (Json.num (walletpair.Json.JsNumber.whole 1));
        from = "wallet";
        body = Body.res (some "req-2") (some "sealed");
      }),
    )
    ∷ []

second_id : request_id 2 ≡ "req-2"
unfolding request_id
second_id = refl

answer_counts : (run toy options exchange paired_session).recv_seq ≡ some 5
unfolding run request_id
answer_counts = refl

paired_session-Sound : Sound 7 (some 4) paired_session
paired_session-Sound = record {
  sent_from = omega arith;
  sent_to = omega arith;
  received_from = refl;
  pending = omega arith;
  resting = refl;
}

run-Sound_example : Sound 7 (some 4) (run toy options exchange paired_session)
run-Sound_example = run-Sound toy options 7 (some 4) exchange paired_session paired_session-Sound

event_replay_refused_example :
    (receive_event toy options
        (some (6, null))
        (run toy options exchange (receive_event toy options (some (6, str "a")) paired_session))
      ≡ run toy options exchange (receive_event toy options (some (6, str "a")) paired_session))
    × (receive_response toy options "req-9"
          (some (6, null))
          (run toy options exchange (receive_event toy options (some (6, str "a")) paired_session))
        ≡ emit (rejected "req-9" "Replay detected") (
            run toy options exchange
              (receive_event toy options (some (6, str "a")) paired_session)))
event_replay_refused_example =
    event_replay_refused toy options 7 (some 4) exchange 6 (str "a") null "req-9" paired_session
      paired_session-Sound

response_replay_refused_example :
    (receive_event toy options (some (6, null)) (
        run toy options exchange
          (receive_response toy options "req-8" (some (6, str "a")) paired_session))
      ≡ run toy options exchange
          (receive_response toy options "req-8" (some (6, str "a")) paired_session))
    × (receive_response toy options "req-9" (some (6, null)) (
          run toy options exchange
            (receive_response toy options "req-8" (some (6, str "a")) paired_session))
        ≡ emit (rejected "req-9" "Replay detected") (
            run toy options exchange
              (receive_response toy options "req-8" (some (6, str "a")) paired_session)))
response_replay_refused_example =
    response_replay_refused toy options 7 (some 4) exchange 6 (str "a") null "req-8" "req-9"
      paired_session paired_session-Sound

second_request :
    (request toy options "wallet_getAccounts" none paired_session).1 ≡ promised (request_id 2)
unfolding request next_send_seq
second_request = refl

abbrev later_session : Session
later_session =
    run toy options exchange (request toy options "wallet_getAccounts" none paired_session).0

third_request :
    (request toy options "eth_chainId" none later_session).1
    ≡ promised (request_id (later_session.req_counter + 1))
unfolding request next_send_seq run
third_request = refl

requests_sealed_apart_example :
    SealedWith toy options "wallet_getAccounts" none (request_id 2) 7 paired_session
    × SealedWith toy options "eth_chainId" none
        (request_id (later_session.req_counter + 1))
        later_session.send_seq
        later_session
    × (7 < later_session.send_seq)
    × (later_session.send_seq < max_send_seq)
requests_sealed_apart_example =
    requests_sealed_apart toy options 7 (some 4) exchange "wallet_getAccounts" "eth_chainId" none
      none paired_session (request_id 2) (request_id (later_session.req_counter + 1))
      paired_session-Sound second_request third_request

lost_rounds-close_example :
    same_phase
      (lost_rounds options
        (4000 ∷ 7000 ∷ 12000 ∷ [])
        (start_reconnect options 3000 paired_session)).phase
      closed
    ≡ true
unfolding can_reconnect
lost_rounds-close_example =
    lost_rounds-close options 4000 3000 (7000 ∷ 12000 ∷ []) paired_session refl refl refl refl

abbrev fresh_session : Session
fresh_session = record paired_session {
  send_seq = 0;
  recv_seq = none;
  send_key = none;
  phase = closed;
}

serialize-restore_example :
    (serialize (restore_snapshot toy options (serialize paired_session) fresh_session)
      ≡ serialize paired_session)
    × ((restore_snapshot toy options (serialize paired_session) fresh_session).send_seq ≡ 7)
    × ((restore_snapshot toy options (serialize paired_session) fresh_session).recv_seq ≡ some 4)
    × ((restore_snapshot toy options (serialize paired_session) fresh_session).send_key
        ≡ some (1 ∷ []))
serialize-restore_example = serialize-restore toy options paired_session fresh_session "wallet" refl

ended_session_reopens_example :
    ((handle_message toy options 5000 (message "wallet" Body.close) paired_session).phase ≡ closed)
    × ((handle_message toy options 5000
          (message "wallet" Body.close)
          paired_session).intentional_close
        ≡ true)
    × ((handle_message toy options 6000
          (message "_adapter" (Body.ready (some "waiting") none))
          (handle_message toy options 5000 (message "wallet" Body.close) paired_session)).phase
        ≡ waiting)
ended_session_reopens_example =
    ended_session_reopens toy options 5000 6000 "wallet" none paired_session refl refl
