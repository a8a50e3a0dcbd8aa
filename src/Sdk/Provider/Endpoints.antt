-- ===== src/Sdk/Provider/Endpoints.antt =====
-- eip1193.ts: resolveEndpoints, fetchEthereumDataRpc, jsonRpcFetchFailover and serveReadOnly. A
-- lookup that is under way for another request of the same chain is left out.
pub mod Relays
use walletpair.Common.{
  ℕ, suc, ◌+◌, String, Bool, true, false, not, ◌&&◌, ◌||◌, Option, none, some, List, [], ◌∷◌, ◌++◌,
  ◌==◌, ◌=s◌, if◌then◌else◌, length, take, codes,
}
use walletpair.Json.{JsNumber, whole, negative, Json, arr, str, Items, nil, item}
use walletpair.Sdk.Types.{includes}
use walletpair.Sdk.Crypto.PairingUris.{starts_with}

abbrev pub max_rpc_failover_endpoints : ℕ
max_rpc_failover_endpoints = 4

-- What a call of an endpoint comes to: a result, or an error with a numeric code or without.
pub data Reply : Type 0 where
  result : Json → Reply
  failed : Option JsNumber → Reply

pub data Outcome : Type 0 where
  answered : Json → Outcome
  -- An error that the node means.
  rethrown : JsNumber → Outcome
  unavailable : Outcome

-- -32005, -32603, -32097, -32098 and 429; `negative n` is -(n + 1).
abbrev pub is_transient : JsNumber → Bool
is_transient (whole n) = n == 429
is_transient (negative n) = n == 32004 || n == 32602 || n == 32096 || n == 32097
is_transient JsNumber.fractional = false

module _ (call : String → Reply) where
  -- With the endpoints that were called.
  abbrev pub try_next : Reply → String → Outcome × List String → Outcome × List String
  try_next (result v) url rest = (answered v, url ∷ [])
  try_next (failed none) url (outcome, urls) = (outcome, url ∷ urls)
  try_next (failed (some code)) url (outcome, urls) =
      if is_transient code then (outcome, url ∷ urls) else (rethrown code, url ∷ [])

  unfoldable pub json_rpc_fetch_failover : List String → Outcome × List String
  json_rpc_fetch_failover [] = (unavailable, [])
  json_rpc_fetch_failover (url ∷ urls) =
      let rest = json_rpc_fetch_failover urls in try_next (call url) url rest

-- `add`, over a list: without texts that are empty or there already.
unfoldable pub add_each : List String → List String → List String
unfolding includes
add_each out [] = out
add_each out (u ∷ us) =
    let kept = add_each out us in
    let added = add_each (out ++ u ∷ []) us in if u =s "" || includes u out then kept else added

unfoldable pub contains : List ℕ → List ℕ → Bool
unfolding starts_with
contains part [] = starts_with part []
contains part (c ∷ cs) = starts_with part (c ∷ cs) || contains part cs

unfoldable pub is_public_url : String → Bool
unfolding contains starts_with
is_public_url u =
    starts_with (codes "https://") (codes u)
    && not (contains (codes "${") (codes u))
    && not (contains (codes "API_KEY") (codes u))

-- The public URLs in the list that the service gives for a chain.
unfoldable pub public_urls : Items → List String
unfolding is_public_url
public_urls nil = []
public_urls (item (str u) rest) = if is_public_url u then u ∷ public_urls rest else public_urls rest
public_urls (item _ rest) = public_urls rest

abbrev pub fetched_urls : Option Json → List String
fetched_urls (some (arr items)) = public_urls items
fetched_urls (some _) = []
fetched_urls none = []

-- What the provider knows of a chain: the URLs of its options and of the wallet, those that it has
-- kept, whether the service is to be asked, and the property `rpc` of its answer.
pub record ChainUrls : Type 0 where
  pub static_urls : List String
  pub wallet_urls : List String
  pub kept : Option (List String)
  pub asks_service : Bool
  pub service : Option Json

abbrev pub keep : List String → Option (List String)
keep [] = none
keep (u ∷ us) = some (u ∷ us)

abbrev pub from_service : Option (List String) → Bool → Option Json → List String
from_service (some urls) asks service = take max_rpc_failover_endpoints urls
from_service none asks service =
    if asks then take max_rpc_failover_endpoints (fetched_urls service) else []

abbrev pub prefer : List String → List String → List String
prefer [] rest = rest
prefer (u ∷ us) rest = take max_rpc_failover_endpoints (u ∷ us)

unfoldable pub resolve_endpoints : ChainUrls → List String
unfolding add_each public_urls
resolve_endpoints c =
    prefer (add_each (add_each [] c.static_urls) c.wallet_urls)
      (from_service c.kept c.asks_service c.service)

abbrev pub kept_from :
    List String → Option (List String) → Bool → Option Json → Option (List String)
kept_from (u ∷ us) kept asks service = kept
kept_from [] (some urls) asks service = some urls
kept_from [] none asks service = if asks then keep (fetched_urls service) else none

-- The URLs of the service that `resolveEndpoints` leaves in the cache.
unfoldable pub kept_after : ChainUrls → Option (List String)
unfolding add_each public_urls
kept_after c =
    kept_from (add_each (add_each [] c.static_urls) c.wallet_urls) c.kept c.asks_service c.service

-- Where a method that only reads is answered.
pub data Source : Type 0 where
  by_provider by_wallet : Source
  by_endpoint : Outcome → Source

abbrev pub unless_unavailable : Outcome → Source
unless_unavailable unavailable = by_wallet
unless_unavailable (answered v) = by_endpoint (answered v)
unless_unavailable (rethrown code) = by_endpoint (rethrown code)

abbrev pub serve_from : (String → Reply) → List String → Source
serve_from call [] = by_wallet
serve_from call (u ∷ us) = unless_unavailable (json_rpc_fetch_failover call (u ∷ us)).0

-- With whether there is an RPC provider.
unfoldable pub serve_read_only : Bool → (String → Reply) → ChainUrls → Source
unfolding json_rpc_fetch_failover resolve_endpoints
serve_read_only has_provider call c =
    if has_provider then by_provider else serve_from call (resolve_endpoints c)
