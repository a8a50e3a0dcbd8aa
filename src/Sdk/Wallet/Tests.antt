-- ===== src/Sdk/Wallet/Tests.antt =====
-- A wallet's session with a toy cryptography, and the theorems on wallets at its states.
use walletpair.Common.{ℕ, true, false, none, some, List, [], ◌∷◌, ◌≡◌, refl, arith, inl}
use walletpair.Json.{Json, null, obj, str, field, end}
use walletpair.Sdk.Types.{includes}
use walletpair.Sdk.Maps.{find, remove, has}
use walletpair.Sdk.Wallet.State.{
  Crypto, Options, PendingRequestRecord, Session, connected, closed, waiting_accept,
}
use walletpair.Sdk.Wallet.Closing.{next_send_seq}
use walletpair.Sdk.Wallet.Responses.{approve, reject, send_response, cached_response}
use walletpair.Sdk.Wallet.Requests.{dispatch_request, receive_request}
use walletpair.Sdk.Wallet.Incoming.{WalletBody}
use walletpair.Sdk.Wallet.Messages.{handle_message}
use walletpair.Sdk.Wallet.Lifecycle.{
  Event, received, approves, transport_closed, transport_opened, retry_due, step, run,
}
use walletpair.Sdk.Wallet.Soundness.{Sound, nil-Within}
use walletpair.Sdk.Wallet.Soundness.Steps.{run-Fine}
use walletpair.Sdk.Wallet.Repeats.{request_replay_dropped}
use walletpair.Sdk.Wallet.Answers.{approved_again, SameButOrder}
use walletpair.Sdk.Wallet.Duplicates.{duplicate_settles_pending, duplicate_error}
use walletpair.Sdk.Wallet.Asking.{asked}
use walletpair.Sdk.Wallet.Asking.Known.{known_request_silent, is_known}
use walletpair.Sdk.Wallet.Edges.{
  ended_session_rests, ended_wallet_reopens, message, by_close, by_retry,
}

abbrev signing : Json
signing = obj (field "_method" (str "personal_sign") (field "_params" (str "0x41") end))

-- Nothing is encrypted, and every text is the same request.
abbrev pub toy : Crypto
toy = record {
  b64url_encode = λ bytes. "dapp";
  parse_pairing_uri = λ uri. none;
  root_key = λ priv remote ch. some (0 ∷ []);
  directional_keys = λ root ch context. (1 ∷ [], 2 ∷ []);
  join_encryption_key = λ root ch. 3 ∷ [];
  session_fingerprint = λ ch key. "0042";
  seal_join = λ key ch capabilities meta. "sealed join";
  seal_payload = λ key ch seq value header. "sealed";
  unseal_payload = λ key ch sealed header. some (5, signing, 7 ∷ []);
  sha256_hex = λ bytes. "hash";
  canonical_json = λ value. "{}";
  json_size = λ value. 50;
  wire_size = λ ch from payload. 100;
}

abbrev pub options : Options
options = record {
  capabilities = obj end;
  methods = "personal_sign" ∷ [];
  meta = none;
  heartbeat_interval = 20000;
  max_reconnect_attempts = 3;
  max_reconnect_duration_ms = 0;
  session_ttl = 86400000;
  persists = true;
}

abbrev pub joined : Session
joined = record {
  phase = connected;
  channel_id = "channel";
  session_fingerprint = "0042";
  priv_key = 3 ∷ [];
  pub_key = "wallet";
  remote_pub_key = some (4 ∷ []);
  session_key = none;
  send_key = some (2 ∷ []);
  recv_key = some (1 ∷ []);
  send_seq = 7;
  recv_seq = some 4;
  relay_url = "wss://relay";
  dapp_name = none;
  intentional_close = false;
  evt_counter = 0;
  pending_request_records = [];
  idempotency_cache = [];
  broadcast_response_cache = [];
  reconnecting = false;
  reconnect_attempt = 0;
  reconnect_started_at = 0;
  session_start_time = some 1000;
  reconnect_timer = false;
  heartbeat_timer = true;
  liveness_timer = false;
  session_ttl_timer = some 1000;
  out = [];
}

abbrev pub request_record : PendingRequestRecord
request_record = record { params_hash = "hash"; method = "personal_sign" }

-- With one request that waits for its answer.
abbrev pub asked_session : Session
asked_session = record joined { pending_request_records = ("req-1", request_record) ∷ [] }

-- A request, and its answer.
abbrev exchange : List (ℕ × Event)
exchange =
    (2000, received (message toy options "dapp" (WalletBody.req (some "req-1") (some "sealed"))))
    ∷ (2100, approves "req-1" (some (str "0x99")))
    ∷ []

exchange_caches :
    find "req-1" (run toy options exchange joined).idempotency_cache
    ≡ some (cached_response toy options request_record true (some (str "0x99")))
unfolding run find
exchange_caches = refl

joined-Sound : Sound 7 (some 4) joined
joined-Sound = record {
  sent_from = omega arith;
  sent_to = omega arith;
  received_from = refl;
  pending_within = nil-Within 32;
  cached_within = nil-Within 1024;
  broadcast_within = nil-Within 256;
  resting = refl;
}

asked_session-Sound : Sound 7 (some 4) asked_session
unfolding has
asked_session-Sound = record {
  sent_from = omega arith;
  sent_to = omega arith;
  received_from = refl;
  pending_within = record { size = omega arith; named = refl };
  cached_within = nil-Within 1024;
  broadcast_within = nil-Within 256;
  resting = refl;
}

run-Fine_example : Sound 7 (some 4) (run toy options exchange joined)
run-Fine_example = run-Fine toy options 7 (some 4) exchange joined joined-Sound

abbrev received_first : Session
received_first = receive_request toy options "req-1" (some (6, signing, 7 ∷ [])) joined

request_replay_dropped_example :
    receive_request toy options "req-9"
      (some (6, null, 8 ∷ []))
      (run toy options exchange received_first)
    ≡ run toy options exchange received_first
request_replay_dropped_example =
    request_replay_dropped toy options 7 (some 4) exchange 6 "req-1" "req-9" signing null (7 ∷ [])
      (8 ∷ []) joined refl joined-Sound

approved_again_example :
    (s' : Session) × SameButOrder toy options
      (approve toy options "req-1" (some (str "0x99")) asked_session).0
      s'
    × (dispatch_request toy options "req-1" "personal_sign"
          (str "0x41")
          "hash"
          (approve toy options "req-1" (some (str "0x99")) asked_session).0
        ≡ (send_response toy options "req-1" true (some (str "0x99")) s').0)
unfolding find approve send_response next_send_seq dispatch_request
approved_again_example =
    approved_again toy options 7 (some 4) "req-1" request_record (some (str "0x99")) (str "0x41")
      asked_session asked_session-Sound refl refl refl refl (inl refl)

duplicate_settles_pending_example :
    (dispatch_request toy options "req-1" "personal_sign" (str "0x42") "other" asked_session
      ≡ (reject toy options "req-1" "invalid_params" "Duplicate request ID with different params"
          asked_session).0)
    × ((dispatch_request toy options "req-1" "personal_sign"
          (str "0x42")
          "other"
          asked_session).pending_request_records
        ≡ remove "req-1" asked_session.pending_request_records)
    × (find "req-1"
          (dispatch_request toy options "req-1" "personal_sign"
            (str "0x42")
            "other"
            asked_session).idempotency_cache
        ≡ some (cached_response toy options request_record false (some duplicate_error)))
unfolding find reject send_response next_send_seq includes
duplicate_settles_pending_example =
    duplicate_settles_pending toy options 7 (some 4) "req-1" "personal_sign" "other" request_record
      (str "0x42") asked_session asked_session-Sound refl refl refl refl refl refl

known_request_silent_example :
    asked "req-1"
      (dispatch_request toy options "req-1" "eth_sign" (str "0x42") "other" asked_session).out
    ≡ asked "req-1" asked_session.out
unfolding find is_known
known_request_silent_example =
    known_request_silent "req-1" toy options "eth_sign" "other" (str "0x42") asked_session refl

abbrev ended : Session
ended = record joined { phase = closed; intentional_close = true }

abbrev lingering : List (ℕ × Event)
lingering = (9000, transport_closed none) ∷ (9500, retry_due) ∷ []

ended_session_rests_example :
    ((run toy options lingering ended).phase ≡ closed)
    × ((run toy options lingering ended).intentional_close ≡ true)
    × ((run toy options lingering ended).reconnect_timer ≡ false)
    × ((step toy options 9900 transport_opened (run toy options lingering ended)).phase
        ≡ waiting_accept)
    × ((step toy options 9900 transport_opened (run toy options lingering ended)).intentional_close
        ≡ true)
ended_session_rests_example =
    ended_session_rests toy options lingering 9900 ended (by_close none, (by_retry, tt)) refl refl

ended_wallet_reopens_example :
    ((handle_message toy options 5000 (message toy options "dapp" WalletBody.close) joined).phase
      ≡ closed)
    × ((handle_message toy options 5000
          (message toy options "dapp" WalletBody.close)
          joined).intentional_close
        ≡ true)
    × ((handle_message toy options 6000
          (message toy options "_adapter" (WalletBody.ready (some "waiting") none))
          (handle_message toy options 5000
            (message toy options "dapp" WalletBody.close)
            joined)).phase
        ≡ waiting_accept)
    × ((handle_message toy options 6000
          (message toy options "_adapter" (WalletBody.ready (some "waiting") none))
          (handle_message toy options 5000
            (message toy options "dapp" WalletBody.close)
            joined)).intentional_close
        ≡ true)
ended_wallet_reopens_example =
    ended_wallet_reopens toy options 5000 6000 "dapp" none joined refl refl
