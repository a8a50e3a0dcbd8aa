-- ===== src/Sdk/Provider/Mapper/Sending.antt =====
-- What the wallet is asked when a transaction is to be sent or signed.
use walletpair.Common.{
  ℕ, ◌≤◌, ◌≡◌, refl, String, Bool, true, false, Option, none, some, ◌=s◌, if◌then◌else◌,
}
use walletpair.Json.{Json, arr, obj, Items, item, Fields, end, field, get}
use walletpair.Sdk.Types.{includes}
use walletpair.Sdk.Provider.Numbers.{max_safe_integer}
use walletpair.Sdk.Provider.Chains.{is_truthy, is_transaction_method, inject_chain}
use walletpair.Sdk.Provider.Chains.Agreement.{IsMeant, IsSent, inject_chain-IsSent}
use walletpair.Sdk.Provider.Routing.{ProviderState, asks_wallet, dispatch, route_wallet_method}
use walletpair.Sdk.Provider.Mapper.{Conversions, map_request, optional}

-- The method of a dApp to send a transaction, or to sign it only, and the one of the wallet.
abbrev pub asked_method : Bool → String
asked_method signs = if signs then "eth_signTransaction" else "eth_sendTransaction"

abbrev pub sent_method : Bool → String
sent_method signs = if signs then "wallet_signTransaction" else "wallet_sendTransaction"

abbrev pub sent_params : Fields → Fields
sent_params tx = optional "address" (get "from" tx) (field "tx" (obj tx) end)

module _ (js : Conversions) where
  asks :
      (signs : Bool) (target : Option String) (p : ProviderState) (tx : Fields) (rest : Items)
      → p.disconnected ≡ false
      → dispatch
          (asked_method signs)
          target
          p
          (map_request js (asked_method signs) (some (arr (item (obj tx) rest))))
        ≡ asks_wallet (sent_method signs) (some (obj (sent_params tx)))
  unfolding dispatch route_wallet_method map_request includes
  asks false target p tx rest e = rw e refl
  asks true target p tx rest e = rw e refl

has_tx :
    (from : Option Json) (tx : Fields)
    → get "tx" (optional "address" from (field "tx" (obj tx) end)) ≡ some (obj tx)
unfolding get
has_tx none tx = refl
has_tx (some v) tx = refl

has_no_chain :
    (from : Option Json) (tx : Fields)
    → is_truthy (get "chain" (optional "address" from (field "tx" (obj tx) end))) ≡ false
unfolding get
has_no_chain none tx = refl
has_no_chain (some v) tx = refl

is_sent : (signs : Bool) → is_transaction_method (sent_method signs) ≡ true
is_sent false = refl
is_sent true = refl

module _ (js : Conversions) where
  -- On a provider that the wallet has not disconnected, let a dApp ask to send or to sign a
  -- transaction that is meant for a chain: its chain id is the positive number, its hex digits after
  -- 0x or its decimal digits, or none is given and the chain is the session's. Let the number be at
  -- most 2^53 - 1. Then the wallet is asked, and in the parameters that it is given the transaction
  -- has a chain id that stands for this number and every other property as it was, and the chain
  -- beside it is a CAIP-2 id that evmNumericChainId reads as the number.
  pub transaction-IsSent :
      (signs : Bool) (chain n : ℕ) (target : Option String) (p : ProviderState) (tx : Fields)
      (rest : Items) (key : String)
      → p.disconnected ≡ false
      → IsMeant chain (get "chainId" tx) n
      → n ≤ max_safe_integer
      → ("chainId" =s key) ≡ false
      → (params : Fields) × (sent : Fields) × (dispatch
            (asked_method signs)
            target
            p
            (map_request js (asked_method signs) (some (arr (item (obj tx) rest))))
          ≡ asks_wallet (sent_method signs) (some (obj params)))
        × (inject_chain chain (sent_method signs) (obj params) ≡ some (obj sent))
        × IsSent tx key n sent
  transaction-IsSent signs chain n target p tx rest key e meant h other =
      let (sent, made, is_sent_tx) =
        inject_chain-IsSent chain n (sent_method signs) (sent_params tx) tx key (is_sent signs)
          (has_tx (get "from" tx) tx) meant h (has_no_chain (get "from" tx) tx) other in
      (sent_params tx, sent, asks js signs target p tx rest e, made, is_sent_tx)
