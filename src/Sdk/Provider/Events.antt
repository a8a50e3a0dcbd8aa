-- ===== src/Sdk/Provider/Events.antt =====
-- eip1193.ts: the events of the session that the provider listens to, and what `dispatch` takes from
-- a result. A handler that throws changes nothing. The
-- phase that `close` emits is an event of its own.
pub mod Told
use walletpair.Common.{
  ℕ, zero, suc, ◌+◌, String, Bool, true, false, not, ◌&&◌, ◌||◌, Option, none, some, List, [], ◌∷◌,
  ◌=s◌, ◌==◌, if◌then◌else◌, codes,
}
use walletpair.Json.{
  JsNumber, whole, negative, Json, null, num, str, arr, obj, Items, nil, item, Fields, end, field,
  get,
}
use walletpair.Sdk.Types.{DAppPhase}
use walletpair.Sdk.Crypto.PairingUris.{starts_with}
use walletpair.Sdk.ChainIds.{evm_numeric_chain_id}
use walletpair.Sdk.Provider.Numbers.{parse_int}
use walletpair.Sdk.Provider.Chains.{is_truthy}
use walletpair.Sdk.Provider.Mapper.{first_of, property}

-- A number, or NaN.
abbrev pub Chain : Type 0
Chain = Option JsNumber

-- An account is the text or the `address` of a value, which may be undefined.
abbrev pub Accounts : Type 0
Accounts = List (Option Json)

-- Why the provider is disconnected: the phase of the session, the message of the wallet, or a
-- message that is made of its reason.
pub data Cause : Type 0 where
  by_phase : Cause
  by_message : String → Cause
  by_reason : Option Json → Cause

-- What the listeners of the provider are told, and the close of the session.
pub data Output : Type 0 where
  connect chain_changed : Chain → Output
  accounts_changed : Accounts → Output
  disconnect : Cause → Output
  closes_session : Output

pub record Provider : Type 0 where
  pub chain_id : Chain
  pub accounts : Accounts
  pub is_connected : Bool
  pub is_disconnected : Bool
  -- Newest first.
  pub out : List Output

abbrev or_mainnet : Option JsNumber → Chain
or_mainnet none = some (whole 1)
or_mainnet (some n) = some n

-- A new provider, with the chain of its options.
abbrev pub new_provider : Option JsNumber → Provider
new_provider chain = record {
  chain_id = or_mainnet chain;
  accounts = [];
  is_connected = false;
  is_disconnected = false;
  out = [];
}

abbrev pub is_over : DAppPhase → Bool
is_over DAppPhase.closed = true
is_over DAppPhase.disconnected = true
is_over _ = false

abbrev pub is_connected_phase : DAppPhase → Bool
is_connected_phase DAppPhase.connected = true
is_connected_phase _ = false

unfoldable pub on_phase : DAppPhase → Provider → Provider
on_phase phase p =
    if is_connected_phase phase && not p.is_connected
    then record p { is_connected = true; out = connect p.chain_id ∷ p.out }
    else if is_over phase && p.is_connected
    then record p { is_connected = false; out = disconnect by_phase ∷ p.out }
    else p

abbrev pub cause_of : Json → Cause
cause_of (obj f) = go (get "message" f)
  where
    go : Option Json → Cause
    go (some (str m)) = by_message m
    go _ = by_reason (get "reason" f)
cause_of _ = by_reason none

-- An event of the wallet whose data is not undefined.
unfoldable pub on_disconnect : Json → Provider → Provider
unfolding get
on_disconnect value p = record p {
  is_connected = false;
  is_disconnected = true;
  out = closes_session ∷ disconnect (cause_of value) ∷ p.out;
}

-- None is the exception of reading a property of null.
unfoldable pub read_accounts : Items → Option Accounts
unfolding get
read_accounts nil = some []
read_accounts (item v rest) = go v (read_accounts rest)
  where
    go : Json → Option Accounts → Option Accounts
    go v none = none
    go null (some accounts) = none
    go (str s) (some accounts) = some (some (str s) ∷ accounts)
    go (obj f) (some accounts) = some (get "address" f ∷ accounts)
    go _ (some accounts) = some (none ∷ accounts)

abbrev pub tell_accounts : Option Accounts → Provider → Provider
tell_accounts none p = p
tell_accounts (some accounts) p = record p {
  accounts = accounts;
  out = accounts_changed accounts ∷ p.out;
}

abbrev pub raw_accounts : Json → Option Items
raw_accounts (arr items) = some items
raw_accounts (obj f) = go (get "accounts" f)
  where
    go : Option Json → Option Items
    go (some (arr items)) = some items
    go _ = none
raw_accounts _ = none

unfoldable pub on_accounts_changed : Json → Provider → Provider
unfolding get read_accounts
on_accounts_changed value p = elim (raw_accounts value) [
  | none ↦ p
  | some items ↦ tell_accounts (read_accounts items) p
]

-- `parsed || null`
abbrev pub or_null : Chain → Option Chain
or_null none = none
or_null (some (whole zero)) = none
or_null (some n) = some (some n)

-- The new chain of an event; none is null, or an exception.
unfoldable pub new_chain : Option Json → Option Chain
unfolding evm_numeric_chain_id starts_with
new_chain (some (str raw)) =
    if starts_with (codes "eip155:") (codes raw)
    then evm_numeric_chain_id (codes raw)
    else if starts_with (codes "0x") (codes raw)
    then some (parse_int 16 (codes raw))
    else or_null (parse_int 10 (codes raw))
new_chain (some (num n)) = some (some n)
new_chain _ = none

abbrev pub or_chain : Option Json → Option Json → Option Json
or_chain none chain = chain
or_chain (some null) chain = chain
or_chain (some v) chain = some v

abbrev pub raw_chain : Json → Option Json
raw_chain (obj f) = or_chain (get "chainId" f) (get "chain" f)
raw_chain (arr items) = none
raw_chain v = some v

-- `a === b` of two numbers; NaN is not equal to itself, and fractions and numbers above 2^53 - 1 are
-- taken as apart.
abbrev pub same_chain : Chain → Chain → Bool
same_chain (some (whole m)) (some (whole n)) = m == n
same_chain (some (negative m)) (some (negative n)) = m == n
same_chain _ _ = false

abbrev pub change_chain : Chain → Provider → Provider
change_chain chain p =
    if same_chain chain p.chain_id
    then p
    else record p { chain_id = chain; out = chain_changed chain ∷ p.out }

abbrev pub change_if : Option Chain → Provider → Provider
change_if none p = p
change_if (some chain) p = change_chain chain p

unfoldable pub on_chain_changed : Json → Provider → Provider
unfolding get new_chain
on_chain_changed value p = change_if (new_chain (raw_chain value)) p

unfoldable pub on_event : String → Json → Provider → Provider
unfolding on_disconnect on_accounts_changed on_chain_changed
on_event event value p =
    if event =s "disconnect"
    then on_disconnect value p
    else if event =s "accountsChanged"
    then on_accounts_changed value p
    else if event =s "chainChanged"
    then on_chain_changed value p
    else p

-- The chain that a switch asked for; NaN is not taken.
abbrev pub switch_to : Chain → Provider → Provider
switch_to none p = p
switch_to (some n) p = change_chain (some n) p

abbrev pub hex_of : Option Json → Chain
hex_of (some (str hex)) = if hex =s "" then none else parse_int 16 (codes hex)
hex_of _ = none

abbrev pub elements : Items → Accounts
elements nil = []
elements (item v rest) = some v ∷ elements rest

abbrev pub keep_accounts : Json → Provider → Provider
keep_accounts (arr items) p = record p { accounts = elements items }
keep_accounts _ p = p

-- What `dispatch` does with a mapped result. The chain id of a switch is a text.
unfoldable pub take_result : String → Option Json → Json → Provider → Provider
unfolding get parse_int
take_result method params result p =
    if method =s "eth_requestAccounts" || method =s "eth_accounts"
    then keep_accounts result p
    else if method =s "wallet_switchEthereumChain"
    then switch_to (hex_of (property "chainId" (first_of params))) p
    else p

-- What happens to a provider: a phase or an event of its session, or the result of a request.
pub data ProviderEvent : Type 0 where
  phase : DAppPhase → ProviderEvent
  event : String → Json → ProviderEvent
  mapped_result : String → Option Json → Json → ProviderEvent

unfoldable pub step : ProviderEvent → Provider → Provider
unfolding on_phase on_event take_result
step (phase x) p = on_phase x p
step (event name value) p = on_event name value p
step (mapped_result method params result) p = take_result method params result p

unfoldable pub run : List ProviderEvent → Provider → Provider
unfolding step
run [] p = p
run (e ∷ es) p = run es (step e p)
