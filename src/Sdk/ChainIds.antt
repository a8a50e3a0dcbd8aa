-- ===== src/Sdk/ChainIds.antt =====
-- walletpair-sdk/src/types.ts: parseChainId and evmNumericChainId, on texts as lists of codes.
use walletpair.Common.{ℕ, Option, none, some, List, [], ◌∷◌, ◌==◌, codes, if◌then◌else◌}
use walletpair.Json.{JsNumber}
use walletpair.Sdk.Crypto.PairingUris.{starts_with}
use walletpair.Sdk.Provider.Numbers.{parse_int}

-- A part of a text up to a colon, and the rest behind it.
unfoldable pub split_colon : List ℕ → List ℕ × List ℕ
split_colon [] = ([], [])
split_colon (c ∷ cs) =
    let (part, rest) = split_colon cs in if c == b':' then ([], cs) else (c ∷ part, rest)

-- None is an invalid chain id.
abbrev pub parts_of : List ℕ → List ℕ → Option (List ℕ × List ℕ)
parts_of [] reference = none
parts_of (c ∷ namespace) [] = none
parts_of (c ∷ namespace) (r ∷ reference) = some (c ∷ namespace, r ∷ reference)

unfoldable pub parse_chain_id : List ℕ → Option (List ℕ × List ℕ)
unfolding split_colon
parse_chain_id caip2 =
    let (namespace, rest) = split_colon caip2 in parts_of namespace (split_colon rest).0

-- None is null or an exception. The namespace is eip155 if the text starts with it and a colon.
unfoldable pub evm_numeric_chain_id : List ℕ → Option (Option JsNumber)
unfolding parse_chain_id parse_int starts_with
evm_numeric_chain_id caip2 = elim (parse_chain_id caip2) [
  | none ↦ none
  | some parts ↦ if starts_with (codes "eip155:") caip2 then some (parse_int 10 parts.1) else none
]
