-- ===== src/Sdk/Provider/Routing/Separation.antt =====
-- Which requests reach the wallet and which reach an endpoint.
use walletpair.Common.{
  String, Bool, true, false, not, ◌&&◌, Option, none, some, List, [], ◌∷◌, ◌≡◌, refl, sym, ap, ◌∙◌,
  arith, ◌=s◌, =s_iff, if◌then◌else◌, every, Bool-cases, inl, inr,
}
use walletpair.Json.{whole}
use walletpair.Sdk.Types.{includes}
use walletpair.Sdk.Provider.Routing.{
  ProviderState, Mapping, unmapped, map_fails, maps_to, Route, refuses, gives_chain_id,
  gives_version, gives_capabilities, gives_accounts, reads_own_code, reads_only, asks_rpc_provider,
  relays, asks_wallet, wallet_methods, read_only_methods, own_code, has_accounts, mapped,
  route_wallet_method, route_code, dispatch,
}

-- The request is sent to the wallet; what `serveReadOnly` makes of it is not asked here.
abbrev pub reaches_wallet : Route → Bool
reaches_wallet relays = true
reaches_wallet (asks_wallet method params) = true
reaches_wallet _ = false

-- The request is sent to an endpoint or to the RPC provider.
abbrev pub reaches_node : Route → Bool
reaches_node reads_only = true
reaches_node asks_rpc_provider = true
reaches_node (reads_own_code bytecode) = true
reaches_node _ = false

-- Lists with no text in common.
includes-apart :
    (m : String) (xs ys : List String)
    → every (λ x. not (includes x ys)) xs ≡ true
    → includes m xs ≡ true
    → includes m ys ≡ false
unfolding includes
includes-apart m [] ys d e = cc
includes-apart m (x ∷ xs) ys d e = elim (Bool-cases (m =s x)) [
  | inl f ↦
      let same : m ≡ x = (=s_iff m x).0 f in
      rw same (let g : includes x ys ≡ false = ground arith in g)
  | inr f ↦ includes-apart m xs ys (ground arith) (rw f at e)
]

if-false :
    (f : Route → Bool) (b : Bool) (x y : Route)
    → f x ≡ false
    → f y ≡ false
    → f (if b then x else y) ≡ false
if-false f true x y a c = a
if-false f false x y a c = c

wallet-apart : every (λ x. not (includes x read_only_methods)) wallet_methods ≡ true
unfolding includes
wallet-apart = refl

reading-apart : every (λ x. not (includes x wallet_methods)) read_only_methods ≡ true
unfolding includes
reading-apart = refl

mapped_local : (mapping : Mapping) → reaches_node (mapped mapping) ≡ false
mapped_local unmapped = refl
mapped_local (map_fails code) = refl
mapped_local (maps_to method params) = refl

code-unsigned : (m : String) → (m =s "eth_getCode") ≡ true → includes m wallet_methods ≡ true → ⊥
unfolding includes
code-unsigned m f e =
    let same : m ≡ "eth_getCode" = (=s_iff m "eth_getCode").0 f in
    let g : includes "eth_getCode" wallet_methods ≡ true =
      sym (ap (λ x. includes x wallet_methods) same) ∙ e in
    cc

both : (a : Bool) {b : Bool} → (a ≡ true → b ≡ false) → (a && b) ≡ false
both true h = h refl
both false h = refl

module _ (method : String) (target : Option String) (p : ProviderState) (mapping : Mapping) where
  -- Where the rest of the routing does not reach its aim, and neither does the code of the account.
  dispatch-false :
      (f : Route → Bool)
      → f (refuses (whole 4900)) ≡ false
      → f (refuses (whole 4200)) ≡ false
      → f gives_chain_id ≡ false
      → f gives_version ≡ false
      → f gives_capabilities ≡ false
      → f gives_accounts ≡ false
      → f (route_wallet_method method p mapping) ≡ false
      → f (
          if method =s "eth_getCode"
          then route_code
              (own_code p.contract_bytecode target p.accounts)
              (route_wallet_method method p mapping)
          else route_wallet_method method p mapping)
        ≡ false
      → f (dispatch method target p mapping) ≡ false
  unfolding dispatch
  dispatch-false f a b c d e g rest code = if-false f p.disconnected _ _ a (
      if-false f (method =s "eth_sign") _ _ b (
        if-false f (method =s "eth_chainId") _ _ c (
          if-false f (method =s "net_version") _ _ d (
            if-false f (method =s "wallet_getCapabilities") _ _ e
              (if-false f (method =s "eth_accounts" && has_accounts p.accounts) _ _ g code)))))

  code-unrelayed :
      (c : Option String) (rest : Route)
      → reaches_wallet rest ≡ false
      → reaches_wallet (route_code c rest) ≡ false
  code-unrelayed none rest h = h
  code-unrelayed (some bytecode) rest h = refl

  reading_unrelayed :
      includes method read_only_methods ≡ true
      → reaches_wallet (dispatch method target p mapping) ≡ false
  unfolding route_wallet_method
  reading_unrelayed e =
      let rest : reaches_wallet (route_wallet_method method p mapping) ≡ false = rw e refl in
      dispatch-false reaches_wallet refl refl refl refl refl refl rest (
        if-false reaches_wallet (method =s "eth_getCode") _ _
          (code-unrelayed (own_code p.contract_bytecode target p.accounts) _ rest) rest)

  wallet_first :
      includes method wallet_methods ≡ true
      → reaches_node (route_wallet_method method p mapping) ≡ false
  unfolding route_wallet_method
  wallet_first e =
      let apart : includes method read_only_methods ≡ false =
        includes-apart method wallet_methods read_only_methods wallet-apart e in
      rw (apart, e) (mapped_local mapping)

  signing_local :
      includes method wallet_methods ≡ true
      → reaches_node (dispatch method target p mapping) ≡ false
  signing_local e =
      let rest = wallet_first e in
      dispatch-false reaches_node refl refl refl refl refl refl rest
        (elim (Bool-cases (method =s "eth_getCode")) [
          | inl f ↦ absurd (code-unsigned method f e)
          | inr f ↦ rw f rest
        ])

  -- In every state of the provider, whatever the mapper gives: a method that only reads is not sent
  -- to the wallet by the routing, a method of the wallet is not sent to an endpoint or to the RPC
  -- provider, and no method is in both lists.
  pub reading_apart_signing :
      ((includes method read_only_methods && reaches_wallet (dispatch method target p mapping))
        ≡ false)
      × ((includes method wallet_methods && reaches_node (dispatch method target p mapping))
          ≡ false)
      × ((includes method read_only_methods && includes method wallet_methods) ≡ false)
  reading_apart_signing = (
    both (includes method read_only_methods) reading_unrelayed,
    both (includes method wallet_methods) signing_local,
    both (includes method read_only_methods)
        (includes-apart method read_only_methods wallet_methods reading-apart),
  )
