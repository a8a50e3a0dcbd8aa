-- ===== src/Sdk/Exchange/Tests.antt =====
-- A dApp and a wallet with toy cryptographies that open what the other seals.
use walletpair.Common.{true, none, some, [], ◌∷◌, ◌≡◌, refl, Option}
use walletpair.Json.{Json, str, obj, field, end, get, Fields}
use walletpair.Sdk.Types.{includes}
use walletpair.Sdk.Maps.{find, put}
use walletpair.Sdk.DApp.State as DAppState
use walletpair.Sdk.DApp.Requests.{build_sealed_params, build_request_message, find_pending}
use walletpair.Sdk.DApp.Messages.{handle_res, is_replay}
use walletpair.Sdk.Tests as DAppTests
use walletpair.Sdk.Wallet.State as WalletState
use walletpair.Sdk.Wallet.Tests as WalletTests
use walletpair.Sdk.Wallet.Responses.{response_payload}
use walletpair.Sdk.Wallet.Requests.{handle_req}
use walletpair.Sdk.Exchange.{IsReading, map_option}
use walletpair.Sdk.Exchange.Parameters.{Arrives}
use walletpair.Sdk.Exchange.Delivery.{CanTake, request_delivered}
use walletpair.Sdk.Exchange.Answers.{Waits, response_resolved}

abbrev itself : Json → Json
itself v = v

itself-option : (v : Option Json) → v ≡ map_option itself v
itself-option none = refl
itself-option (some v) = refl

itself-IsReading : IsReading itself
itself-IsReading = record {
  read_bool = λ b. refl;
  read_str = λ s. refl;
  read_obj = λ f. (f, refl, λ key. itself-option (get key f));
}

abbrev signing : Fields
signing = field "_method" (str "personal_sign") (field "_params" (str "0x41") end)

-- What the dApp seals is opened as the request with the number 5.
abbrev wallet_crypto : WalletState.Crypto
wallet_crypto = record WalletTests.toy {
  unseal_payload = λ key ch sealed header. some (5, obj signing, 7 ∷ []);
}

-- What the wallet seals is opened as the response with the number 7.
abbrev dapp_crypto : DAppState.Crypto
dapp_crypto = record DAppTests.toy {
  unseal_payload = λ key ch sealed header. some (7, response_payload true (some (str "0x99")));
}

wallet-CanTake :
    CanTake wallet_crypto 5 "req-1" (1 ∷ []) DAppTests.paired_session WalletTests.joined
unfolding is_replay find
wallet-CanTake = record {
  connected = refl;
  remote = 4 ∷ [];
  paired = refl;
  known = refl;
  keyed = refl;
  channel = refl;
  later = refl;
  identified = refl;
  not_pending = refl;
  not_cached = refl;
  not_broadcast = refl;
  room = refl;
}

request_delivered_example :
    (got : Json) × (handle_req wallet_crypto WalletTests.options "dapp"
        (some "req-1")
        (some "sealed")
        WalletTests.joined
      ≡ WalletState.emit
          (WalletState.request "req-1" "personal_sign" got)
          (record (WalletState.persist_snapshot WalletTests.options
            (record WalletTests.joined { recv_seq = some 5 })) {
              pending_request_records =
                  put "req-1" (record { params_hash = "hash"; method = "personal_sign" }) [];
            }))
    × Arrives itself (some (str "0x41")) got
unfolding build_request_message build_sealed_params get includes
request_delivered_example =
    request_delivered dapp_crypto wallet_crypto DAppTests.options WalletTests.options "req-1"
      "personal_sign" (some (str "0x41")) 5 (1 ∷ []) (7 ∷ []) DAppTests.paired_session
      WalletTests.joined "sealed" itself itself-IsReading refl refl refl
      (record { named = refl; opened = refl }) refl wallet-CanTake

abbrev waiting_dapp : DAppState.Session
waiting_dapp = record DAppTests.paired_session {
  pending_requests =
      record { id = "req-1"; method = "personal_sign"; params = some (str "0x41") } ∷ [];
}

dapp-Waits : Waits dapp_crypto 7 "req-1" "wallet" "channel" (2 ∷ []) waiting_dapp
unfolding is_replay find_pending
dapp-Waits = record {
  connected = refl;
  remote = 4 ∷ [];
  paired = refl;
  known = refl;
  keyed = refl;
  channel = refl;
  later = refl;
  identified = refl;
  request = record { id = "req-1"; method = "personal_sign"; params = some (str "0x41") };
  pending = refl;
}

response_resolved_example :
    handle_res dapp_crypto DAppTests.options "wallet" (some "req-1") (some "sealed") waiting_dapp
    ≡ DAppState.emit (DAppState.resolved "req-1" (some (str "0x99"))) (
        DAppState.persist_snapshot DAppTests.options
          (record waiting_dapp { pending_requests = []; recv_seq = some 7 }))
unfolding walletpair.Sdk.DApp.Requests.delete_pending
response_resolved_example =
    response_resolved dapp_crypto wallet_crypto DAppTests.options WalletTests.options "req-1"
      (some (str "0x99")) 7 (2 ∷ []) waiting_dapp WalletTests.joined "sealed" itself
      itself-IsReading refl (record { named = refl; opened = refl }) dapp-Waits
