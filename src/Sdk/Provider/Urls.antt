-- ===== src/Sdk/Provider/Urls.antt =====
-- eip1193.ts: normalizeRpcUrls, walletRpcUrlsForChain and the filter of `wallet_getCapabilities`. The
-- URLs of a wallet are texts, and chains that are filtered are at most 2^53 - 1.
pub mod Collected
use walletpair.Common.{
  ℕ, String, Bool, true, false, not, ◌&&◌, ◌||◌, Option, none, some, List, [], ◌∷◌, ◌++◌, ◌=s◌,
  ◌==◌, if◌then◌else◌, codes,
}
use walletpair.Json.{Json, null, str, arr, obj, Items, nil, item, Fields, end, field, get}
use walletpair.Sdk.Provider.Numbers.{parse_chain_key, to_text, caip2_chain}
use walletpair.Sdk.Provider.Chains.{is_truthy}

-- `(Array.isArray(value) ? value : [value]).filter(…)`
abbrev pub nonempty_text : Json → List String
nonempty_text (str u) = if u =s "" then [] else u ∷ []
nonempty_text _ = []

abbrev pub nonempty_texts : Items → List String
nonempty_texts nil = []
nonempty_texts (item v rest) = nonempty_text v ++ nonempty_texts rest

abbrev pub urls_of : Json → List String
urls_of (arr items) = nonempty_texts items
urls_of v = nonempty_text v

-- A map from the numbers of chains.
abbrev pub UrlMap : Type 0
UrlMap = List (ℕ × List String)

-- `map.get(chainId) ?? []`
unfoldable pub urls_for : ℕ → UrlMap → List String
urls_for chain [] = []
urls_for chain ((n, urls) ∷ rest) = if n == chain then urls else urls_for chain rest

unfoldable pub append_urls : ℕ → List String → UrlMap → UrlMap
append_urls chain more [] = (chain, more) ∷ []
append_urls chain more ((n, urls) ∷ rest) =
    let later = append_urls chain more rest in
    if n == chain then (n, urls ++ more) ∷ rest else (n, urls) ∷ later

abbrev pub add_entry : Option ℕ → List String → UrlMap → UrlMap
add_entry none urls m = m
add_entry (some chain) [] m = m
add_entry (some chain) (u ∷ us) m = append_urls chain (u ∷ us) m

unfoldable pub add_entries : Fields → UrlMap → UrlMap
unfolding append_urls parse_chain_key
add_entries end m = m
add_entries (field key value rest) m =
    add_entries rest (add_entry (parse_chain_key (codes key)) (urls_of value) m)

unfoldable pub normalize_rpc_urls : Option Fields → UrlMap
unfolding add_entries
normalize_rpc_urls none = []
normalize_rpc_urls (some input) = add_entries input []

abbrev pub or_other : Option Json → Option Json → Option Json
or_other none other = other
or_other (some null) other = other
or_other (some v) other = some v

abbrev pub one_url : Option Json → List String
one_url none = []
one_url (some v) = nonempty_text v

-- With the wallet's rpcUrls.
unfoldable pub wallet_rpc_urls_for_chain : ℕ → Option Fields → List String
unfolding get to_text caip2_chain
wallet_rpc_urls_for_chain chain none = []
wallet_rpc_urls_for_chain chain (some urls) =
    one_url (or_other (get (to_text 10 chain) urls) (get (caip2_chain chain) urls))

abbrev pub is_wanted : Option ℕ → List (Option ℕ) → Bool
is_wanted none wanted = false
is_wanted (some n) [] = false
is_wanted (some n) (none ∷ wanted) = is_wanted (some n) wanted
is_wanted (some n) (some m ∷ wanted) = m == n || is_wanted (some n) wanted

unfoldable pub keep_wanted : List (Option ℕ) → Fields → Fields
unfolding parse_chain_key
keep_wanted wanted end = end
keep_wanted wanted (field key value rest) =
    let kept = keep_wanted wanted rest in
    if is_wanted (parse_chain_key (codes key)) wanted then field key value kept else kept

-- The values that the filter gives, as `String` has them.
unfoldable pub filter_capabilities : List String → Fields → Fields
unfolding keep_wanted
filter_capabilities [] all = all
filter_capabilities (c ∷ cs) all = keep_wanted (keys (c ∷ cs)) all
  where
    keys : List String → List (Option ℕ)
    keys [] = []
    keys (s ∷ ss) = parse_chain_key (codes s) ∷ keys ss
