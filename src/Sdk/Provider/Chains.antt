-- ===== src/Sdk/Provider/Chains.antt =====
-- eip1193.ts: the chain that `dispatch` puts into the parameters of a request. A transaction whose
-- chain id is an array, a fraction or a number above 2^53 - 1 is left out: there the result is none,
-- and the chain of the session is at most 2^53 - 1. `dispatch` writes
-- into the object of the caller; here the result is a new one.
pub mod Caip
pub mod Agreement
use walletpair.Common.{
  ℕ, zero, suc, String, Bool, true, false, not, ◌&&◌, ◌||◌, Option, none, some, List, [], ◌∷◌, ◌=s◌,
  ◌==◌, if◌then◌else◌, codes,
}
use walletpair.Json.{
  JsNumber, whole, negative, Json, null, bool, num, str, arr, obj, Fields, end, field, get,
}
use walletpair.Sdk.Types.{includes}
use walletpair.Sdk.Objects.{set_field}
use walletpair.Sdk.Crypto.PairingUris.{starts_with}
use walletpair.Sdk.Provider.Numbers.{parse_int, exact, hex_chain, caip2_chain}

-- Of a value that may be undefined.
abbrev pub is_truthy : Option Json → Bool
is_truthy none = false
is_truthy (some null) = false
is_truthy (some (bool b)) = b
is_truthy (some (num (whole n))) = not (n == 0)
is_truthy (some (num _)) = true
is_truthy (some (str s)) = not (s =s "")
is_truthy (some (arr items)) = true
is_truthy (some (obj f)) = true

abbrev pub chain_required_methods : List String
chain_required_methods =
    "wallet_signMessage" ∷ "wallet_signTypedData" ∷ "wallet_signTransaction"
    ∷ "wallet_sendTransaction" ∷ "wallet_getAccounts" ∷ []

abbrev pub is_transaction_method : String → Bool
is_transaction_method method =
    method =s "wallet_sendTransaction" || method =s "wallet_signTransaction"

-- What the chain id of a transaction is read as; none is NaN. `Number` of an array is left out.
unfoldable pub read_chain : Option Json → Option JsNumber
unfolding parse_int starts_with
read_chain (some (str raw)) =
    parse_int (if starts_with (codes "0x") (codes raw) then 16 else 10) (codes raw)
read_chain (some (num n)) = some (exact n)
read_chain (some (bool true)) = some (whole 1)
read_chain (some (bool false)) = some (whole 0)
read_chain (some (arr items)) = some JsNumber.fractional
read_chain _ = none

-- The number if it is finite and positive, or the chain of the session; none if it is not told.
abbrev pub chosen : ℕ → Option JsNumber → Option ℕ
chosen chain none = some chain
chosen chain (some (whole zero)) = some chain
chosen chain (some (whole (suc n))) = some (suc n)
chosen chain (some (negative n)) = some chain
chosen chain (some JsNumber.fractional) = none

abbrev pub is_missing : Option Json → Bool
is_missing none = true
is_missing (some null) = true
is_missing (some (str raw)) = raw =s ""
is_missing (some _) = false

abbrev pub with_number : Fields → Option ℕ → Option (Fields × ℕ)
with_number tx none = none
with_number tx (some n) = some (tx, n)

-- The transaction and the number of its chain.
unfoldable pub reconcile : ℕ → Fields → Option (Fields × ℕ)
unfolding get set_field read_chain hex_chain
reconcile chain tx =
    if is_missing (get "chainId" tx)
    then some (set_field "chainId" (str (hex_chain chain)) tx, chain)
    else with_number tx (chosen chain (read_chain (get "chainId" tx)))

-- `!p.chain`
unfoldable pub add_chain : ℕ → Fields → Fields
unfolding get set_field caip2_chain
add_chain n p = if is_truthy (get "chain" p) then p else set_field "chain" (str (caip2_chain n)) p

abbrev pub put_tx : Fields → Option (Fields × ℕ) → Option Json
put_tx p none = none
put_tx p (some (tx, n)) = some (obj (add_chain n (set_field "tx" (obj tx) p)))

-- With what is at `tx`.
abbrev pub inject_tx : ℕ → Option Json → Fields → Option Json
inject_tx chain (some (obj tx)) p = put_tx p (reconcile chain tx)
inject_tx chain _ p = some (obj (add_chain chain p))

abbrev pub inject_params : ℕ → String → Json → Option Json
inject_params chain method (obj p) =
    if is_transaction_method method
    then inject_tx chain (get "tx" p) p
    else some (obj (add_chain chain p))
inject_params chain method params = some params

-- The parameters that are sent to the wallet.
unfoldable pub inject_chain : ℕ → String → Json → Option Json
unfolding includes reconcile add_chain
inject_chain chain method params =
    if includes method chain_required_methods
    then inject_params chain method params
    else some params
