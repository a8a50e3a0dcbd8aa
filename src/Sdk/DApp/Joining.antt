-- ===== src/Sdk/DApp/Joining.antt =====
-- dapp-session.ts: the message `join`, acceptWallet and rejectWallet.
use walletpair.Common.{
  String, Bool, true, false, not, ◌&&◌, ◌||◌, Option, none, some, List, [], ◌∷◌, ◌==◌, ◌=s◌,
  if◌then◌else◌, length, is_just,
}
use walletpair.Json.{Json, null, str, arr, Fields, Items, nil, item, get, as_object}
use walletpair.Sdk.Types.{pending_accept}
use walletpair.Sdk.DApp.State.{
  Bytes, Crypto, Options, Session, SessionCryptoContext, Payload, accept, error, wallet_joined,
  emit, set_phase, given, same_phase, persist_snapshot, send_raw,
}
use walletpair.Sdk.DApp.Closing.{clear_pending_accept_timer, close}

-- `cap?.[key]` is an array.
abbrev pub is_array : Option Json → Bool
is_array (some (arr items)) = true
is_array (some _) = false
is_array none = false

abbrev has_lists : Option Fields → Bool
has_lists none = false
has_lists (some f) =
    is_array (get "methods" f) && is_array (get "events" f) && is_array (get "chains" f)

unfoldable pub validate_capabilities : Json → Bool
unfolding get as_object
validate_capabilities cap = has_lists (as_object cap)

-- `new Set(list).has(text)`
unfoldable pub lists : Items → String → Bool
lists nil x = false
lists (item (str s) rest) x = s =s x || lists rest x
lists (item _ rest) x = lists rest x

abbrev listed : Option Json → String → Bool
listed (some (arr items)) x = lists items x
listed (some _) x = false
listed none x = false

abbrev member : Option Fields → String → String → Bool
member none key x = false
member (some f) key x = listed (get key f) x

-- Some of what the dApp declared is not in the list under the key.
unfoldable pub lacks : List String → String → Json → Bool
unfolding get as_object lists
lacks [] key cap = false
lacks (x ∷ xs) key cap = not (member (as_object cap) key x) || lacks xs key cap

abbrev pub or_null_value : Option Json → Json
or_null_value none = null
or_null_value (some v) = v

-- What a join says of the wallet, or the reason and the error that it is refused with.
pub data Scope : Type 0 where
  scope : Option Json → Option Json → Scope
  refusal : String → String → Scope

abbrev pub unsealed : Option Fields → Scope
unsealed none = refusal "decryption_failed" "Failed to decrypt sealed_join"
unsealed (some f) = scope (get "capabilities" f) (get "meta" f)

module _ (k : Crypto) (o : Options) where
  -- A reconnection comes with `null`, and has the scope that was approved.
  unfoldable pub join_scope : Option Json → Bytes → Session → Scope
  unfolding get
  join_scope (some null) root s =
      if s.paired
      then scope s.approved_capabilities s.approved_wallet_meta
      else refusal "protocol_error" "Initial wallet join missing sealed_join"
  join_scope (some (str sealed)) root s =
      if sealed =s ""
      then refusal "protocol_error" "Initial wallet join missing sealed_join"
      else unsealed (k.unseal_join root s.channel_id sealed)
  join_scope (some _) root s = refusal "protocol_error" "Initial wallet join missing sealed_join"
  join_scope none root s = refusal "protocol_error" "Initial wallet join missing sealed_join"

  unfoldable pub is_same_approved_wallet : String → Option Json → Option Json → Session → Bool
  is_same_approved_wallet wallet_pub_key capabilities wallet_meta s =
      s.paired
      && is_just wallet_pub_key s.approved_wallet_pub_key
      && s.approved_scope_recorded
      && k.canonical_json (or_null_value s.approved_capabilities)
        =s k.canonical_json (or_null_value capabilities)
      && k.canonical_json (or_null_value s.approved_wallet_meta)
        =s k.canonical_json (or_null_value wallet_meta)

  abbrev pub session_context : String → Option Json → Option Json → Session → SessionCryptoContext
  session_context wallet_pub_key capabilities wallet_meta s = record {
    dapp_pub_key = s.pub_key;
    wallet_pub_key = wallet_pub_key;
    capabilities = or_null_value capabilities;
    wallet_meta = or_null_value wallet_meta;
  }

  unfoldable pub do_accept : Bytes → Session → Session
  unfolding persist_snapshot send_raw
  do_accept remote s =
      let wallet_pub_key = k.b64url_encode remote in
      send_raw k (accept wallet_pub_key) (
        persist_snapshot o (record s {
          paired = true;
          approved_capabilities = s.wallet_capabilities;
          approved_wallet_meta = s.wallet_meta;
          approved_wallet_pub_key = some wallet_pub_key;
          approved_scope_recorded = true;
        }))

  -- A message that closes the channel, and an error; the session stays.
  unfoldable pub refuse : String → String → Session → Session
  unfolding send_raw
  refuse reason message s = emit (error message) (send_raw k (Payload.close reason) s)

  -- The declared methods and chains are asked for only if there are capabilities.
  abbrev pub missing : List String → String → Option Json → Bool
  missing declared key none = false
  missing declared key (some cap) = lacks declared key cap

  abbrev pub malformed : Option Json → Bool
  malformed none = false
  malformed (some cap) = not (validate_capabilities cap)

  -- With the keys of the session derived. The error's text is without the names that are missing.
  unfoldable pub enter_scope : Bool → Bytes → Option Json → Option Json → Session → Session
  unfolding lacks refuse set_phase do_accept
  enter_scope known remote capabilities wallet_meta s =
      if missing o.declared_methods "methods" (given capabilities)
      then refuse "unsupported_capability" "Wallet missing required methods" s
      else if missing o.declared_chains "chains" (given capabilities)
      then refuse "unsupported_capability" "Wallet missing required chains" s
      else let s' = set_phase pending_accept (emit (wallet_joined capabilities wallet_meta) s) in
        if o.auto_accept || known
        then do_accept remote s'
        else record s' { pending_accept_timer = true }

  unfoldable pub apply_scope : Scope → String → Bytes → Bytes → Session → Session
  unfolding refuse validate_capabilities is_same_approved_wallet enter_scope
  apply_scope (refusal reason message) from remote root s = refuse reason message s
  apply_scope (scope capabilities wallet_meta) from remote root s =
      if malformed (given capabilities)
      then refuse "protocol_error" "Malformed wallet capabilities" s
      else let (send_key, recv_key) =
          k.directional_keys root s.channel_id (session_context from capabilities wallet_meta s) in
        enter_scope (is_same_approved_wallet from capabilities wallet_meta s) remote capabilities
          wallet_meta
          (record s {
            wallet_capabilities = capabilities;
            wallet_meta = wallet_meta;
            send_key = some send_key;
            recv_key = some recv_key;
          })

  -- Without a root key, its derivation has thrown: the handler ends there.
  abbrev pub join_with : Option Bytes → Option Json → String → Bytes → Session → Session
  join_with none sealed_join from remote s = s
  join_with (some root) sealed_join from remote s =
      apply_scope (join_scope sealed_join root s) from remote root s

  abbrev pub wallet_key : Option Bytes → Option Bytes
  wallet_key none = none
  wallet_key (some bytes) = if length bytes == 32 then some bytes else none

  abbrev pub join_from : Option Bytes → Option Json → String → Session → Session
  join_from none sealed_join from s = refuse "protocol_error" "Malformed wallet public key" s
  join_from (some remote) sealed_join from s =
      join_with (k.root_key s.priv_key remote s.channel_id) sealed_join from remote
        (record s { remote_pub_key = some remote })

  unfoldable pub handle_join : String → Option Json → Session → Session
  unfolding refuse join_scope apply_scope
  handle_join from sealed_join s =
      if from =s ""
      then emit (error "Malformed wallet join: missing from") s
      else join_from (wallet_key (k.b64url_decode from)) sealed_join from s

  unfoldable pub accept_wallet : Session → Session
  unfolding clear_pending_accept_timer do_accept
  accept_wallet s =
      if same_phase s.phase pending_accept
      then elim s.remote_pub_key [
        | none ↦ s
        | some remote ↦ do_accept remote (clear_pending_accept_timer s)
      ]
      else s

  unfoldable pub reject_wallet : Session → Session
  unfolding send_raw close
  reject_wallet s = elim s.remote_pub_key [
    | none ↦ s
    | some remote ↦ close k o "normal" (send_raw k (Payload.close "user_rejected") s)
  ]

  -- The timer that a join arms if the application has to decide.
  unfoldable pub pending_accept_timer_fires : Session → Session
  unfolding close
  pending_accept_timer_fires s = close k o "timeout" (emit (error "Pending accept timed out") s)
