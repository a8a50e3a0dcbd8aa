-- ===== src/Sdk/Provider/Routing.antt =====
-- eip1193.ts: the sets of methods, and where `dispatch` sends a request.
pub mod Separation
use walletpair.Common.{
  ℕ, String, Bool, true, false, not, ◌&&◌, ◌||◌, Option, none, some, List, [], ◌∷◌, ◌=s◌,
  if◌then◌else◌, is_some,
}
use walletpair.Json.{JsNumber, whole, Json}
use walletpair.Sdk.Types.{includes}

abbrev pub wallet_methods : List String
wallet_methods =
    "eth_requestAccounts" ∷ "eth_accounts" ∷ "personal_sign" ∷ "eth_signTypedData_v4"
    ∷ "eth_signTypedData_v3" ∷ "eth_sendTransaction" ∷ "eth_signTransaction"
    ∷ "wallet_switchEthereumChain" ∷ "wallet_addEthereumChain" ∷ "wallet_sendCalls"
    ∷ "wallet_getCallsStatus" ∷ []

abbrev pub local_methods : List String
local_methods = "eth_chainId" ∷ "net_version" ∷ "wallet_getCapabilities" ∷ []

abbrev pub read_only_methods : List String
read_only_methods =
    "eth_call" ∷ "eth_getBalance" ∷ "eth_getCode" ∷ "eth_getStorageAt" ∷ "eth_getProof"
    ∷ "eth_getTransactionCount" ∷ "eth_blockNumber" ∷ "eth_getBlockByNumber" ∷ "eth_getBlockByHash"
    ∷ "eth_getBlockTransactionCountByNumber" ∷ "eth_getBlockTransactionCountByHash"
    ∷ "eth_getBlockReceipts" ∷ "eth_getTransactionByHash" ∷ "eth_getTransactionByBlockHashAndIndex"
    ∷ "eth_getTransactionByBlockNumberAndIndex" ∷ "eth_getTransactionReceipt" ∷ "eth_getLogs"
    ∷ "eth_estimateGas" ∷ "eth_createAccessList" ∷ "eth_gasPrice" ∷ "eth_maxPriorityFeePerGas"
    ∷ "eth_feeHistory" ∷ []

-- What the provider knows when a request comes. The first account and the address of a request are
-- in lower case.
pub record ProviderState : Type 0 where
  pub disconnected : Bool
  pub accounts : List String
  pub has_rpc_provider : Bool
  pub contract_bytecode : Option String

pub data Route : Type 0 where
  refuses : JsNumber → Route
  gives_chain_id gives_version gives_capabilities gives_accounts : Route
  -- The code of the account, or the bytecode of the wallet if there is none.
  reads_own_code : String → Route
  reads_only asks_rpc_provider : Route
  -- The method as it is.
  relays : Route
  -- The method and the parameters that the mapper gives.
  asks_wallet : String → Option Json → Route

abbrev pub has_accounts : List String → Bool
has_accounts [] = false
has_accounts (a ∷ accounts) = true

abbrev is_self : String → List String → Bool
is_self target [] = false
is_self target (a ∷ accounts) = not (target =s "") && target =s a

-- The bytecode, where the code of the first account is asked for.
abbrev pub own_code : Option String → Option String → List String → Option String
own_code (some bytecode) (some target) accounts =
    if not (bytecode =s "") && is_self target accounts then some bytecode else none
own_code _ _ accounts = none

-- What `mapRequest` comes to: null, an error with a code, or a method and its parameters.
pub data Mapping : Type 0 where
  unmapped : Mapping
  map_fails : JsNumber → Mapping
  maps_to : String → Option Json → Mapping

abbrev pub mapped : Mapping → Route
mapped unmapped = refuses (whole 4200)
mapped (map_fails code) = refuses code
mapped (maps_to method params) = asks_wallet method params

-- With what the mapper makes of the method and its parameters.
unfoldable pub route_wallet_method : String → ProviderState → Mapping → Route
unfolding includes
route_wallet_method method p mapping =
    if includes method read_only_methods
    then reads_only
    else if not (includes method wallet_methods) && not (includes method local_methods)
    then (if p.has_rpc_provider then asks_rpc_provider else relays)
    else mapped mapping

abbrev pub route_code : Option String → Route → Route
route_code none rest = rest
route_code (some bytecode) rest = reads_own_code bytecode

-- `dispatch`, with the address of the first parameter.
unfoldable pub dispatch : String → Option String → ProviderState → Mapping → Route
unfolding route_wallet_method
dispatch method target p mapping =
    let rest = route_wallet_method method p mapping in
    if p.disconnected
    then refuses (whole 4900)
    else if method =s "eth_sign"
    then refuses (whole 4200)
    else if method =s "eth_chainId"
    then gives_chain_id
    else if method =s "net_version"
    then gives_version
    else if method =s "wallet_getCapabilities"
    then gives_capabilities
    else if method =s "eth_accounts" && has_accounts p.accounts
    then gives_accounts
    else if method =s "eth_getCode"
    then route_code (own_code p.contract_bytecode target p.accounts) rest
    else rest
