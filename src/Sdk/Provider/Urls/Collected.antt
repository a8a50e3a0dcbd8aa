-- ===== src/Sdk/Provider/Urls/Collected.antt =====
-- The URLs that a dApp has for a chain are those of all its keys for the chain.
use walletpair.Common.{
  ℕ, ◌≡◌, refl, sym, ap, ◌∙◌, arith, String, true, false, Option, none, some, List, [], ◌∷◌, ◌++◌,
  ◌==◌, if◌then◌else◌, codes, append-nil, append_assoc, Bool-cases, inl, inr,
}
use walletpair.Json.{Fields, end, field}
use walletpair.Sdk.Provider.Numbers.{parse_chain_key}
use walletpair.Sdk.Provider.Urls.{
  UrlMap, urls_of, urls_for, append_urls, add_entry, add_entries, normalize_rpc_urls,
}

-- The URLs of one key.
abbrev pub if_key : ℕ → Option ℕ → List String → List String
if_key chain none urls = []
if_key chain (some n) urls = if n == chain then urls else []

-- The URLs of all keys that read as the chain, in order.
unfoldable pub collected : ℕ → Fields → List String
unfolding parse_chain_key
collected chain end = []
collected chain (field key value rest) =
    if_key chain (parse_chain_key (codes key)) (urls_of value) ++ collected chain rest

urls_for-append_urls :
    (chain n : ℕ) (more : List String) (m : UrlMap)
    → urls_for chain (append_urls n more m) ≡ urls_for chain m ++ (if n == chain then more else [])
unfolding urls_for append_urls
urls_for-append_urls chain n more [] = refl
urls_for-append_urls chain n more ((k, urls) ∷ rest) = elim (Bool-cases (k == n)) [
  | inl e ↦
      let same : k ≡ n = ground arith in
      elim (Bool-cases (n == chain)) [
        | inl f ↦ let g : (k == chain) ≡ true = ground arith in rw (e, urls_for, g, f) refl
        | inr f ↦
            let g : (k == chain) ≡ false = ground arith in
            rw (e, urls_for, g, f) (sym (append-nil (urls_for chain rest)))
      ]
  | inr e ↦ elim (Bool-cases (k == chain)) [
    | inl g ↦
        let f : (n == chain) ≡ false = ground arith in
        rw (e, urls_for, g, f) (sym (append-nil urls))
    | inr g ↦ rw (e, urls_for, g) (urls_for-append_urls chain n more rest)
  ]
]

urls_for-add_entry :
    (chain : ℕ) (key : Option ℕ) (urls : List String) (m : UrlMap)
    → urls_for chain (add_entry key urls m) ≡ urls_for chain m ++ if_key chain key urls
urls_for-add_entry chain none urls m = sym (append-nil (urls_for chain m))
urls_for-add_entry chain (some n) [] m = elim (Bool-cases (n == chain)) [
  | inl e ↦ rw e (sym (append-nil (urls_for chain m)))
  | inr e ↦ rw e (sym (append-nil (urls_for chain m)))
]
urls_for-add_entry chain (some n) (u ∷ us) m = urls_for-append_urls chain n (u ∷ us) m

urls_for-add_entries :
    (chain : ℕ) (f : Fields) (m : UrlMap)
    → urls_for chain (add_entries f m) ≡ urls_for chain m ++ collected chain f
unfolding add_entries collected
urls_for-add_entries chain end m = sym (append-nil (urls_for chain m))
urls_for-add_entries chain (field key value rest) m =
    let k = parse_chain_key (codes key) in
    urls_for-add_entries chain rest (add_entry k (urls_of value) m)
    ∙ ap (λ x. x ++ collected chain rest) (urls_for-add_entry chain k (urls_of value) m)
    ∙ append_assoc (urls_for chain m) (if_key chain k (urls_of value)) (collected chain rest)

-- For a chain, the map of the dApp's URLs has the texts that are not empty of all the keys that read
-- as the chain, in the order of the keys.
pub urls_for-normalize_rpc_urls :
    (chain : ℕ) (input : Fields)
    → urls_for chain (normalize_rpc_urls (some input)) ≡ collected chain input
unfolding normalize_rpc_urls urls_for
urls_for-normalize_rpc_urls chain input = urls_for-add_entries chain input []
