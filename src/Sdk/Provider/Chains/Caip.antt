-- ===== src/Sdk/Provider/Chains/Caip.antt =====
-- The CAIP-2 id of a chain is read again.
use walletpair.Common.{
  ℕ, zero, suc, ◌≤◌, ◌≡◌, refl, ap, ◌∙◌, arith, true, false, some, List, [], ◌∷◌, ◌==◌, leb, every,
  codes,
}
use walletpair.Json.{JsNumber, whole}
use walletpair.Sdk.ChainIds.{split_colon, parts_of, parse_chain_id, evm_numeric_chain_id}
use walletpair.Sdk.Crypto.PairingUris.{starts_with}
use walletpair.Sdk.Provider.Numbers.{
  parse_int, trim_start, to_text, caip2_chain, signed, max_safe_integer,
}
use walletpair.Sdk.Provider.Numbers.Hex.{is_decimal, to_text-decimal, parse_int-to_text}

split_colon-digits : (cs : List ℕ) → every is_decimal cs ≡ true → (split_colon cs).0 ≡ cs
unfolding split_colon
split_colon-digits [] h = refl
split_colon-digits (c ∷ cs) h =
    let plain : (c == b':') ≡ false = ground (arith, h) in
    rw plain (ap (λ x. c ∷ x) (split_colon-digits cs (ground (arith, h))))

-- A reference behind the namespace of EVM chains.
abbrev caip : List ℕ → List ℕ
caip ds = b'e' ∷ b'i' ∷ b'p' ∷ b'1' ∷ b'5' ∷ b'5' ∷ b':' ∷ ds

parse-caip : (ds : List ℕ) → parse_chain_id (caip ds) ≡ parts_of (codes "eip155") (split_colon ds).0
unfolding parse_chain_id split_colon
parse-caip ds = refl

parse-digits :
    (d : ℕ) (ds : List ℕ)
    → every is_decimal (d ∷ ds) ≡ true
    → parse_chain_id (caip (d ∷ ds)) ≡ some (codes "eip155", d ∷ ds)
parse-digits d ds h =
    parse-caip (d ∷ ds) ∙ ap (parts_of (codes "eip155")) (split_colon-digits (d ∷ ds) h)

nothing : (m : JsNumber) → parse_int 10 [] ≡ some m → ⊥
unfolding parse_int trim_start
nothing m f = cc

read-digits :
    (ds : List ℕ) (m : JsNumber)
    → every is_decimal ds ≡ true
    → parse_int 10 ds ≡ some m
    → evm_numeric_chain_id (caip ds) ≡ some (some m)
unfolding evm_numeric_chain_id starts_with
read-digits [] m h e = absurd (nothing m e)
read-digits (d ∷ ds) m h e = rw (evm_numeric_chain_id, parse-digits d ds h) (ap some e)

-- The session's chain may be 0.
safe : (n : ℕ) → n ≤ max_safe_integer → signed false (some n) ≡ some (whole n)
safe zero h = refl
safe (suc n) h = let e : leb (suc n) max_safe_integer ≡ true = ground (arith, h) in rw e refl

pub evm_numeric_chain_id-caip2_chain :
    (n : ℕ)
    → n ≤ max_safe_integer
    → evm_numeric_chain_id (codes (caip2_chain n)) ≡ some (some (whole n))
unfolding caip2_chain
evm_numeric_chain_id-caip2_chain n h =
    read-digits (codes (to_text 10 n)) (whole n) (to_text-decimal n)
      ((parse_int-to_text n).0 ∙ safe n h)
