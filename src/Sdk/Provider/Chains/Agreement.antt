-- ===== src/Sdk/Provider/Chains/Agreement.antt =====
-- A transaction and the chain beside it.
use walletpair.Common.{
  ℕ, zero, suc, ◌≤◌, ◌≡◌, refl, subst, sym, ap, ◌∙◌, arith, String, true, false, Option, none, some,
  ◌=s◌, =s_iff, leb, codes, Bool-cases, inl, inr,
}
use walletpair.Json.{whole, Json, null, num, str, obj, Fields, get}
use walletpair.Sdk.Types.{includes}
use walletpair.Sdk.Objects.{set_field, get-set_field, get-set_field_other}
use walletpair.Sdk.Crypto.PairingUris.{starts_with}
use walletpair.Sdk.Provider.Numbers.{
  parse_int, hex_chain, caip2_chain, to_text, signed, max_safe_integer, trim_start,
}
use walletpair.Sdk.Provider.Numbers.Hex.{parse_int-hex_chain, parse_int-to_text}
use walletpair.Sdk.ChainIds.{evm_numeric_chain_id}
use walletpair.Sdk.Provider.Chains.Caip.{evm_numeric_chain_id-caip2_chain}
use walletpair.Sdk.Provider.Chains.{
  is_truthy, is_transaction_method, chain_required_methods, read_chain, chosen, is_missing,
  reconcile, with_number, add_chain, inject_chain,
}

-- A chain id that stands for a number: the number itself, its hex digits after 0x, or its decimal
-- digits.
pub data Denotes : Option Json → ℕ → Type 0 where
  by_number : (n : ℕ) → Denotes (some (num (whole n))) n
  by_hex : (n : ℕ) → Denotes (some (str (hex_chain n))) n
  by_digits : (n : ℕ) → Denotes (some (str (to_text 10 n))) n

-- The chain that a transaction is meant for, on a session of a chain: the one that its chain id
-- stands for, if that is not 0, or the session's where none is given.
pub data IsMeant (chain : ℕ) : Option Json → ℕ → Type 0 where
  absent : IsMeant chain none chain
  is_null : IsMeant chain (some null) chain
  is_blank : IsMeant chain (some (str "")) chain
  given : (v : Option Json) (n : ℕ) → Denotes v (suc n) → IsMeant chain v (suc n)

written_present : (chain : ℕ) → (hex_chain chain =s "") ≡ false
unfolding hex_chain
written_present chain = elim (Bool-cases (hex_chain chain =s "")) [
  | inl e ↦ let same = ap codes ((=s_iff (hex_chain chain) "").0 e) in absurd (cc)
  | inr e ↦ e
]

digits_present : (n : ℕ) → (to_text 10 n =s "") ≡ false
unfolding parse_int trim_start
digits_present n = elim (Bool-cases (to_text 10 n =s "")) [
  | inl e ↦
      let same : codes (to_text 10 n) ≡ codes "" = ap codes ((=s_iff (to_text 10 n) "").0 e) in
      absurd (go n (ap (parse_int 10) (sym same) ∙ (parse_int-to_text n).0))
  | inr e ↦ e
]
  where
    go : (m : ℕ) → none ≡ signed false (some m) → ⊥
    go zero f = cc
    go (suc m) f = cc

-- A number up to 2^53 - 1 that is read is itself.
read-exact : (n : ℕ) → suc n ≤ max_safe_integer → signed false (some (suc n)) ≡ some (whole (suc n))
read-exact n h = let e : leb (suc n) max_safe_integer ≡ true = ground (arith, h) in rw e refl

hex_prefix : (n : ℕ) → starts_with (codes "0x") (codes (hex_chain n)) ≡ true
unfolding starts_with hex_chain
hex_prefix n = refl

read_chain-Denotes :
    (v : Option Json) (n : ℕ)
    → Denotes v (suc n)
    → suc n ≤ max_safe_integer
    → (is_missing v ≡ false) × (read_chain v ≡ some (whole (suc n)))
unfolding read_chain
read_chain-Denotes _ n (by_number _) h = (refl, read-exact n h)
read_chain-Denotes _ n (by_hex _) h = (
  written_present (suc n),
  (rw (hex_prefix (suc n)) (parse_int-hex_chain (suc n))) ∙ read-exact n h,
)
read_chain-Denotes _ n (by_digits _) h =
    let (read, plain) = parse_int-to_text (suc n) in
    (digits_present (suc n), (rw plain read) ∙ read-exact n h)

-- A transaction with its chain, and the number that goes with it.
record IsReconciled (chain : ℕ) (tx : Fields) (key : String) (n : ℕ) : Type 0 where
  tx' : Fields
  made : reconcile chain tx ≡ some (tx', n)
  denotes : Denotes (get "chainId" tx') n
  kept : get key tx' ≡ get key tx

module _ (chain : ℕ) (tx : Fields) (key : String) (other : ("chainId" =s key) ≡ false) where
  filled : is_missing (get "chainId" tx) ≡ true → IsReconciled chain tx key chain
  unfolding reconcile
  filled e =
      let v = str (hex_chain chain) in
      record {
        tx' = set_field "chainId" v tx;
        made = rw e refl;
        denotes = subst (λ x. Denotes x chain) (sym (get-set_field "chainId" v tx)) (by_hex chain);
        kept = get-set_field_other key "chainId" v tx other;
      }

  reconcile-IsReconciled :
      (v : Option Json) (n : ℕ)
      → get "chainId" tx ≡ v
      → IsMeant chain v n
      → n ≤ max_safe_integer
      → IsReconciled chain tx key n
  unfolding reconcile
  reconcile-IsReconciled _ _ e absent h = filled (ap is_missing e)
  reconcile-IsReconciled _ _ e is_null h = filled (ap is_missing e)
  reconcile-IsReconciled _ _ e is_blank h = filled (ap is_missing e)
  reconcile-IsReconciled v _ e (given _ n d) h =
      let (there, read) = read_chain-Denotes v n d h in
      record {
        tx' = tx;
        made =
            (rw (ap is_missing e ∙ there) refl)
            ∙ ap (λ x. with_number tx (chosen chain x)) (ap read_chain e ∙ read);
        denotes = subst (λ x. Denotes x (suc n)) (sym e) d;
        kept = refl;
      }

transaction-required :
    (method : String)
    → is_transaction_method method ≡ true
    → includes method chain_required_methods ≡ true
unfolding includes
transaction-required method e = ground arith

-- What is sent of a transaction: another property of it is the same, its chain id stands for a
-- number, and the chain beside it is a CAIP-2 id of EVM chains that is read as that number.
pub record IsSent (tx : Fields) (key : String) (n : ℕ) (sent : Fields) : Type 0 where
  pub sent_tx : Fields
  pub has_tx : get "tx" sent ≡ some (obj sent_tx)
  pub caip2 : String
  pub chain_beside : get "chain" sent ≡ some (str caip2)
  pub chain_reads : evm_numeric_chain_id (codes caip2) ≡ some (some (whole n))
  pub chain_inside : Denotes (get "chainId" sent_tx) n
  pub kept : get key sent_tx ≡ get key tx

-- The parameters of a request to sign or send a transaction, with no chain yet.
pub inject_chain-IsSent :
    (chain n : ℕ) (method : String) (p tx : Fields) (key : String)
    → is_transaction_method method ≡ true
    → get "tx" p ≡ some (obj tx)
    → IsMeant chain (get "chainId" tx) n
    → n ≤ max_safe_integer
    → is_truthy (get "chain" p) ≡ false
    → ("chainId" =s key) ≡ false
    → (sent : Fields) × (inject_chain chain method (obj p) ≡ some (obj sent)) × IsSent tx key n sent
unfolding inject_chain add_chain
inject_chain-IsSent chain n method p tx key m t meant h none_yet other =
    let r = reconcile-IsReconciled chain tx key other (get "chainId" tx) n refl meant h in
    let q = set_field "tx" (obj r.tx') p in
    let no_chain : is_truthy (get "chain" q) ≡ false =
      ap is_truthy (get-set_field_other "chain" "tx" (obj r.tx') p refl) ∙ none_yet in
    let v = str (caip2_chain n) in
    (
      set_field "chain" v q,
      rw (transaction-required method m, m, t, r.made, no_chain) refl,
      record {
        sent_tx = r.tx';
        has_tx = get-set_field_other "tx" "chain" v q refl ∙ get-set_field "tx" (obj r.tx') p;
        caip2 = caip2_chain n;
        chain_reads = evm_numeric_chain_id-caip2_chain n h;
        chain_beside = get-set_field "chain" v q;
        chain_inside = r.denotes;
        kept = r.kept;
      },
    )
