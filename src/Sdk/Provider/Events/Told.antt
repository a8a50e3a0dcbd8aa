-- ===== src/Sdk/Provider/Events/Told.antt =====
-- What the listeners of a provider know of it.
use walletpair.Common.{
  ◌≡◌, refl, sym, String, Bool, true, false, not, ◌&&◌, ◌||◌, Option, none, some, List, [], ◌∷◌,
  ◌=s◌, if◌then◌else◌, Bool-cases, inl, inr,
}
use walletpair.Json.{JsNumber, Json, Items}
use walletpair.Sdk.Types.{DAppPhase}
use walletpair.Sdk.Provider.Mapper.{first_of, property}
use walletpair.Sdk.Provider.Events.{
  Chain, Accounts, Output, connect, chain_changed, accounts_changed, disconnect, closes_session,
  Provider, new_provider, is_over, is_connected_phase, on_phase, on_disconnect, on_accounts_changed,
  tell_accounts, read_accounts, raw_accounts, same_chain, change_chain, change_if, new_chain,
  raw_chain, on_chain_changed, on_event, switch_to, hex_of, keep_accounts, take_result,
  ProviderEvent, phase, event, mapped_result, step, run,
}

-- Whether the last that was said of the connection is that there is one.
abbrev pub told_connected : List Output → Bool
told_connected [] = false
told_connected (connect chain ∷ out) = true
told_connected (disconnect cause ∷ out) = false
told_connected (chain_changed chain ∷ out) = told_connected out
told_connected (accounts_changed accounts ∷ out) = told_connected out
told_connected (closes_session ∷ out) = told_connected out

-- The last chain that was said, or the first one.
abbrev pub told_chain : Chain → List Output → Chain
told_chain first [] = first
told_chain first (connect chain ∷ out) = chain
told_chain first (chain_changed chain ∷ out) = chain
told_chain first (disconnect cause ∷ out) = told_chain first out
told_chain first (accounts_changed accounts ∷ out) = told_chain first out
told_chain first (closes_session ∷ out) = told_chain first out

abbrev pub disconnects : ProviderEvent → Bool
disconnects (event name value) = name =s "disconnect"
disconnects (phase x) = false
disconnects (mapped_result method params result) = false

abbrev pub ever_disconnected : Bool → List ProviderEvent → Bool
ever_disconnected before [] = before
ever_disconnected before (e ∷ es) = ever_disconnected (before || disconnects e) es

record Told (first : Chain) (ended : Bool) (p : Provider) : Type 0 where
  connection : told_connected p.out ≡ p.is_connected
  chain : told_chain first p.out ≡ p.chain_id
  over : p.is_disconnected ≡ ended

module _ (first : Chain) (ended : Bool) where
  on_phase-Told :
      (x : DAppPhase) (p : Provider) → Told first ended p → Told first ended (on_phase x p)
  unfolding on_phase
  on_phase-Told x p h = elim (Bool-cases (is_connected_phase x && not p.is_connected)) [
    | inl e ↦ rw e (record { connection = refl; chain = refl; over = h.over })
    | inr e ↦ elim (Bool-cases (is_over x && p.is_connected)) [
      | inl f ↦ rw (e, f) (record { connection = refl; chain = h.chain; over = h.over })
      | inr f ↦ rw (e, f) h
    ]
  ]

  change_chain-Told :
      (c : Chain) (p : Provider) → Told first ended p → Told first ended (change_chain c p)
  change_chain-Told c p h = elim (Bool-cases (same_chain c p.chain_id)) [
    | inl e ↦ rw e h
    | inr e ↦ rw e (record { connection = h.connection; chain = refl; over = h.over })
  ]

  change_if-Told :
      (c : Option Chain) (p : Provider) → Told first ended p → Told first ended (change_if c p)
  change_if-Told none p h = h
  change_if-Told (some c) p h = change_chain-Told c p h

  switch_to-Told :
      (c : Chain) (p : Provider) → Told first ended p → Told first ended (switch_to c p)
  switch_to-Told none p h = h
  switch_to-Told (some n) p h = change_chain-Told (some n) p h

  tell_accounts-Told :
      (a : Option Accounts) (p : Provider)
      → Told first ended p
      → Told first ended (tell_accounts a p)
  tell_accounts-Told none p h = h
  tell_accounts-Told (some a) p h = record {
    connection = h.connection;
    chain = h.chain;
    over = h.over;
  }

  on_accounts_changed-Told :
      (value : Json) (p : Provider)
      → Told first ended p
      → Told first ended (on_accounts_changed value p)
  unfolding on_accounts_changed
  on_accounts_changed-Told value p h = go (raw_accounts value)
    where
      go :
          (o : Option Items)
          → Told first ended
              (elim o [ none ↦ p | some items ↦ tell_accounts (read_accounts items) p ])
      go none = h
      go (some items) = tell_accounts-Told (read_accounts items) p h

  keep_accounts-Told :
      (value : Json) (p : Provider) → Told first ended p → Told first ended (keep_accounts value p)
  keep_accounts-Told (Json.arr items) p h = record {
    connection = h.connection;
    chain = h.chain;
    over = h.over;
  }
  keep_accounts-Told (Json.obj f) p h = h
  keep_accounts-Told (Json.str s) p h = h
  keep_accounts-Told (Json.num n) p h = h
  keep_accounts-Told (Json.bool b) p h = h
  keep_accounts-Told Json.null p h = h

if-Told :
    (first : Chain) (ended b : Bool) (p q : Provider)
    → Told first ended p
    → Told first ended q
    → Told first ended (if b then p else q)
if-Told first ended true p q h k = h
if-Told first ended false p q h k = k

or_false : (b : Bool) → b ≡ (b || false)
or_false true = refl
or_false false = refl

or_true : (b : Bool) → true ≡ (b || true)
or_true true = refl
or_true false = refl

-- What does not disconnect.
still-Told :
    (first : Chain) (ended : Bool) (p : Provider)
    → Told first ended p
    → Told first (ended || false) p
still-Told first ended p h = rw (sym (or_false ended)) h

on_event-Told :
    (first : Chain) (ended : Bool) (name : String) (value : Json) (p : Provider)
    → Told first ended p
    → Told first (ended || name =s "disconnect") (on_event name value p)
unfolding on_event on_disconnect on_chain_changed
on_event-Told first ended name value p h = elim (Bool-cases (name =s "disconnect")) [
  | inl e ↦ rw e (record { connection = refl; chain = h.chain; over = or_true ended })
  | inr e ↦ rw e (
      still-Told first ended _ (
        if-Told first ended (name =s "accountsChanged") _ _
          (on_accounts_changed-Told first ended value p h)
          (if-Told first ended (name =s "chainChanged") _ _
            (change_if-Told first ended (new_chain (raw_chain value)) p h) h)))
]

take_result-Told :
    (first : Chain) (ended : Bool) (method : String) (params : Option Json) (result : Json)
    (p : Provider)
    → Told first ended p
    → Told first ended (take_result method params result p)
unfolding take_result
take_result-Told first ended method params result p h =
    if-Told first ended (method =s "eth_requestAccounts" || method =s "eth_accounts") _ _
      (keep_accounts-Told first ended result p h)
      (if-Told first ended (method =s "wallet_switchEthereumChain") _ _
        (switch_to-Told first ended (hex_of (property "chainId" (first_of params))) p h) h)

step-Told :
    (first : Chain) (ended : Bool) (e : ProviderEvent) (p : Provider)
    → Told first ended p
    → Told first (ended || disconnects e) (step e p)
unfolding step
step-Told first ended (phase x) p h =
    still-Told first ended (on_phase x p) (on_phase-Told first ended x p h)
step-Told first ended (event name value) p h = on_event-Told first ended name value p h
step-Told first ended (mapped_result method params result) p h =
    still-Told first ended (take_result method params result p)
      (take_result-Told first ended method params result p h)

run-Told :
    (es : List ProviderEvent) (first : Chain) (ended : Bool) (p : Provider)
    → Told first ended p
    → Told first (ever_disconnected ended es) (run es p)
unfolding run
run-Told [] first ended p h = h
run-Told (e ∷ es) first ended p h =
    run-Told es first (ended || disconnects e) (step e p) (step-Told first ended e p h)

-- After any phases and events of its session and any results, a provider is connected exactly if
-- that is the last that its listeners were told of the connection, its chain is the last one that
-- they were told, or the first, and it is disconnected exactly if the wallet has ever sent the event
-- disconnect.
pub run_new-Told :
    (chain : Option JsNumber) (es : List ProviderEvent)
    → let p = run es (new_provider chain) in
      (told_connected p.out ≡ p.is_connected)
      × (told_chain (new_provider chain).chain_id p.out ≡ p.chain_id)
      × (p.is_disconnected ≡ ever_disconnected false es)
run_new-Told chain es =
    let new : Told (new_provider chain).chain_id false (new_provider chain) = record {
      connection = refl;
      chain = refl;
      over = refl;
    } in
    let h = run-Told es (new_provider chain).chain_id false (new_provider chain) new in
    (h.connection, h.chain, h.over)
