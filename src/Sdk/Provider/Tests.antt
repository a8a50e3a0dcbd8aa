-- ===== src/Sdk/Provider/Tests.antt =====
-- A provider, and the theorems on it at a state.
use walletpair.Common.{
  arith, List, refl, ◌≤◌, ◌≡◌, ◌↔◌, String, true, false, ◌&&◌, none, some, [], ◌∷◌, every, length,
  if◌then◌else◌, ◌=s◌,
}
use walletpair.Json.{negative, str}
use walletpair.Sdk.Types.{includes}
use walletpair.Json.{obj, arr, item, nil, Fields, field, end, get}
use walletpair.Sdk.Provider.Chains.{inject_chain}
use walletpair.Sdk.Provider.Chains.Agreement.{IsMeant, IsSent, given, by_hex}
use walletpair.Sdk.Provider.Mapper.{Conversions, map_request}
use walletpair.Sdk.Provider.Mapper.Sending.{transaction-IsSent}
use walletpair.Sdk.Provider.Routing.{asks_wallet}
use walletpair.Sdk.Types.{DAppPhase}
use walletpair.Sdk.Provider.Events.{ProviderEvent, phase, event, new_provider, run}
use walletpair.Sdk.Provider.Events.Told.{
  told_connected, told_chain, ever_disconnected, run_new-Told,
}
use walletpair.Sdk.Provider.Endpoints.{
  Reply, result, failed, ChainUrls, resolve_endpoints, serve_read_only, by_wallet,
  max_rpc_failover_endpoints,
}
use walletpair.Sdk.Provider.Endpoints.Relays.{gives_up, read_only_relayed_iff}
use walletpair.Sdk.Provider.Routing.{
  ProviderState, Mapping, maps_to, dispatch, read_only_methods, wallet_methods,
}
use walletpair.Sdk.Provider.Routing.Separation.{reaches_wallet, reaches_node, reading_apart_signing}

-- One endpoint answers, another is limited.
abbrev call : String → Reply
call url = if url =s "https://a" then result (str "0x1") else failed (some (negative 32004))

abbrev urls : ChainUrls
urls = record {
  static_urls = "https://b" ∷ "https://a" ∷ [];
  wallet_urls = "https://b" ∷ [];
  kept = none;
  asks_service = true;
  service = none;
}

read_only_relayed_iff_example :
    ((serve_read_only false call urls ≡ by_wallet)
      ↔ (every (λ u. gives_up (call u)) (resolve_endpoints urls) ≡ true))
    × (length (resolve_endpoints urls) ≤ max_rpc_failover_endpoints)
read_only_relayed_iff_example = read_only_relayed_iff call urls

abbrev paired : ProviderState
paired = record {
  disconnected = false;
  accounts = "0xa" ∷ [];
  has_rpc_provider = false;
  contract_bytecode = some "0x60";
}

abbrev signing : Mapping
signing = maps_to "wallet_signMessage" none

reading_apart_signing_example :
    ((includes "personal_sign" read_only_methods
        && reaches_wallet (dispatch "personal_sign" none paired signing))
      ≡ false)
    × ((includes "personal_sign" wallet_methods
          && reaches_node (dispatch "personal_sign" none paired signing))
        ≡ false)
    × ((includes "personal_sign" read_only_methods && includes "personal_sign" wallet_methods)
        ≡ false)
reading_apart_signing_example = reading_apart_signing "personal_sign" none paired signing

-- No text is decoded or read here.
abbrev plain : Conversions
plain = record {
  decode_utf8 = λ bytes. "";
  parse_json = λ text. none;
  text_of = λ v. "";
  large_chain = λ hex. "";
}

-- A transaction for chain 137, on a session of chain 1.
abbrev payment : Fields
payment = field "from" (str "0xa") (field "chainId" (str "0x89") end)

-- 0x89 is 137.
payment-IsMeant : IsMeant 1 (get "chainId" payment) 137
unfolding get walletpair.Sdk.Provider.Numbers.hex_chain
payment-IsMeant = given (some (str "0x89")) 136 (by_hex 137)

transaction-IsSent_example :
    (params : Fields) × (sent : Fields) × (dispatch "eth_sendTransaction" none paired
        (map_request plain "eth_sendTransaction" (some (arr (item (obj payment) nil))))
      ≡ asks_wallet "wallet_sendTransaction" (some (obj params)))
    × (inject_chain 1 "wallet_sendTransaction" (obj params) ≡ some (obj sent))
    × IsSent payment "from" 137 sent
transaction-IsSent_example =
    transaction-IsSent plain false 1 137 none paired payment nil "from" refl payment-IsMeant
      (omega arith) refl

-- A wallet that connects, changes the chain and goes.
abbrev session_events : List ProviderEvent
session_events =
    phase DAppPhase.connected
    ∷ event "chainChanged" (str "eip155:137")
    ∷ event "disconnect" (obj end)
    ∷ phase DAppPhase.closed
    ∷ []

run_new-Told_example :
    (told_connected (run session_events (new_provider none)).out
      ≡ (run session_events (new_provider none)).is_connected)
    × (told_chain (new_provider none).chain_id (run session_events (new_provider none)).out
        ≡ (run session_events (new_provider none)).chain_id)
    × ((run session_events (new_provider none)).is_disconnected
        ≡ ever_disconnected false session_events)
run_new-Told_example = run_new-Told none session_events
