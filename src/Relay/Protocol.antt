-- ===== src/Relay/Protocol.antt =====
-- walletpair-websocket-relay-cf-worker/src/protocol.ts: the messages of clients, their validation
-- and parsing, the messages that the worker builds, and which message a state allows.
pub mod Parsing
pub mod PeerIds
use walletpair.Common.{
  ℕ, zero, suc, ◌%◌, String, Bool, true, false, ◌&&◌, ◌||◌, Option, none, some, List, [], ◌∷◌, ◌++◌,
  map, leb, ◌==◌, ◌=s◌, if◌then◌else◌, is_some, length, every, codes,
}
use walletpair.Json.{
  JsNumber, whole, Json, null, bool, num, str, arr, obj, Fields, get, as_object, is_number, is_null,
}
use walletpair.Base64.{atob}
use walletpair.Relay.Types.{
  Role, dapp, wallet, ChannelState, no_channel, waiting, pending_accept, connected, closed,
  CloseReasonString, protocol_error, unsupported_version,
}

-- /^[0-9a-f]{64}$/
unfoldable pub is_hex : ℕ → Bool
is_hex c = (leb b'0' c && leb c b'9') || (leb b'a' c && leb c b'f')

unfoldable pub validate_channel_id : String → Bool
unfolding is_hex
validate_channel_id ch = every is_hex (codes ch) && length (codes ch) == 64

-- [A-Za-z0-9_-]
unfoldable pub is_b64url : ℕ → Bool
is_b64url c =
    (leb b'A' c && leb c b'Z')
    || (leb b'a' c && leb c b'z')
    || (leb b'0' c && leb c b'9')
    || c == b'_'
    || c == b'-'

-- `replace(/-/g, "+").replace(/_/g, "/")`, at one character.
unfoldable pub to_b64 : ℕ → ℕ
to_b64 c = if c == b'-' then b'+' else if c == b'_' then b'/' else c

-- `while (b64.length % 4 !== 0) b64 += "="`; three rounds are enough.
unfoldable pub pad_loop : ℕ → List ℕ → List ℕ
pad_loop zero b64 = b64
pad_loop (suc fuel) b64 =
    let longer = pad_loop fuel (b64 ++ b'=' ∷ []) in if length b64 % 4 == 0 then b64 else longer

-- `binary.length === 32`, and false where `atob` throws.
abbrev pub is_32_bytes : Option (List ℕ) → Bool
is_32_bytes none = false
is_32_bytes (some binary) = length binary == 32

abbrev pub is_nonempty : List ℕ → Bool
is_nonempty [] = false
is_nonempty (c ∷ cs) = true

unfoldable pub validate_peer_id : String → Bool
validate_peer_id peer_id =
    if is_nonempty (codes peer_id) && every is_b64url (codes peer_id)
    then is_32_bytes (atob (pad_loop 3 (map to_b64 (codes peer_id))))
    else false

-- A parsed message: `ch` and `from`, then what its type adds.
pub data ClientMessage : Type 0 where
  create : String → String → ClientMessage
  join : String → String → Bool → ClientMessage
  accept req res evt : String → String → String → ClientMessage
  ping pong : String → String → ClientMessage
  close : String → String → String → ClientMessage

unfoldable pub ch_of : ClientMessage → String
ch_of (create ch from) = ch
ch_of (join ch from sealed_join_null) = ch
ch_of (accept ch from target) = ch
ch_of (req ch from id) = ch
ch_of (res ch from id) = ch
ch_of (evt ch from id) = ch
ch_of (ping ch from) = ch
ch_of (pong ch from) = ch
ch_of (close ch from reason) = ch

unfoldable pub from_of : ClientMessage → String
from_of (create ch from) = from
from_of (join ch from sealed_join_null) = from
from_of (accept ch from target) = from
from_of (req ch from id) = from
from_of (res ch from id) = from
from_of (evt ch from id) = from
from_of (ping ch from) = from
from_of (pong ch from) = from
from_of (close ch from reason) = from

-- The type that is written in the field `t`.
unfoldable pub tag_of : ClientMessage → String
tag_of (create ch from) = "create"
tag_of (join ch from sealed_join_null) = "join"
tag_of (accept ch from target) = "accept"
tag_of (req ch from id) = "req"
tag_of (res ch from id) = "res"
tag_of (evt ch from id) = "evt"
tag_of (ping ch from) = "ping"
tag_of (pong ch from) = "pong"
tag_of (close ch from reason) = "close"

pub data ParseError : Type 0 where
  invalid_json not_an_object invalid_channel_id invalid_peer_id : ParseError
  missing_field unknown_type : String → ParseError
  bad_version : JsNumber → ParseError

unfoldable pub parse_error_to_close_reason : ParseError → CloseReasonString
parse_error_to_close_reason (bad_version version) = unsupported_version
parse_error_to_close_reason _ = protocol_error

pub data Parsed {ℓ} (A : Type ℓ) : Type ℓ where
  ok : A → Parsed A
  fail : ParseError → Parsed A

infixl 5 ◌>>=◌ ◌>>◌
abbrev pub ◌>>=◌ {ℓ κ} : {A : Type ℓ} {B : Type κ} → Parsed A → (A → Parsed B) → Parsed B
ok a >>= f = f a
fail e >>= f = fail e

abbrev pub ◌>>◌ {ℓ} : {B : Type ℓ} → Parsed (Unit {0}) → Parsed B → Parsed B
m >> k = m >>= λ _. k

abbrev pub or_fail {ℓ} : {A : Type ℓ} → Option A → ParseError → Parsed A
or_fail none e = fail e
or_fail (some a) e = ok a

abbrev pub check : Bool → ParseError → Parsed (Unit {0})
check true e = ok tt
check false e = fail e

abbrev pub as_string : Option Json → Option String
as_string (some (str s)) = some s
as_string (some _) = none
as_string none = none

unfoldable pub get_str : Fields → String → Option String
unfolding get
get_str fields key = as_string (get key fields)

abbrev pub object_at : Option Json → Option Fields
object_at none = none
object_at (some v) = as_object v

-- `v` has to be an integer, and then to be 1.
unfoldable pub check_version : Option Json → Parsed (Unit {0})
check_version (some (num (JsNumber.whole n))) =
    if n == 1 then ok tt else fail (bad_version (whole n))
check_version (some (num (JsNumber.negative n))) = fail (bad_version (JsNumber.negative n))
check_version (some _) = fail (missing_field "v")
check_version none = fail (missing_field "v")

-- The cases "req", "res" and "evt".
unfoldable pub parse_data :
    (String → String → String → ClientMessage) → String → String → Fields → Parsed ClientMessage
unfolding get_str
parse_data message ch from body = do
  check (validate_peer_id from) invalid_peer_id
  id ← or_fail (get_str body "id") (missing_field "body.id")
  check (is_some (get "sealed" body)) (missing_field "body.sealed")
  ok (message ch from id)

-- The other cases of the switch on the message's type.
unfoldable pub parse_create : String → String → Fields → Parsed ClientMessage
unfolding get as_object
parse_create ch from body = do
  check (validate_peer_id from) invalid_peer_id
  check (is_some (object_at (get "meta" body))) (missing_field "body.meta")
  ok (create ch from)

unfoldable pub parse_join : String → String → Fields → Parsed ClientMessage
unfolding get is_null
parse_join ch from body = do
  check (validate_peer_id from) invalid_peer_id
  check (is_some (get "sealed_join" body)) (missing_field "body.sealed_join")
  ok (join ch from (is_null (get "sealed_join" body)))

unfoldable pub parse_accept : String → String → Fields → Parsed ClientMessage
unfolding get_str
parse_accept ch from body = do
  check (validate_peer_id from) invalid_peer_id
  target ← or_fail (get_str body "target") (missing_field "body.target")
  check (validate_peer_id target) invalid_peer_id
  ok (accept ch from target)

unfoldable pub parse_close : String → String → Fields → Parsed ClientMessage
unfolding get_str
parse_close ch from body = do
  check (validate_peer_id from) invalid_peer_id
  reason ← or_fail (get_str body "reason") (missing_field "body.reason")
  ok (close ch from reason)

unfoldable pub parse_bare :
    (String → String → ClientMessage) → String → String → Parsed ClientMessage
parse_bare message ch from = do check (validate_peer_id from) invalid_peer_id; ok (message ch from)

abbrev pub must_not_send : String → ParseError
must_not_send t = unknown_type (
    Prim.Native.String.◌++◌ t
      (Prim.Native.String.◌++◌ " (peers must not send " (Prim.Native.String.◌++◌ t ")")))

unfoldable pub parse_body : String → String → String → Fields → Parsed ClientMessage
unfolding parse_create parse_join parse_accept parse_data parse_bare parse_close
parse_body t ch from body =
    if t =s "create"
    then parse_create ch from body
    else if t =s "join"
    then parse_join ch from body
    else if t =s "accept"
    then parse_accept ch from body
    else if t =s "req"
    then parse_data req ch from body
    else if t =s "res"
    then parse_data res ch from body
    else if t =s "evt"
    then parse_data evt ch from body
    else if t =s "ping"
    then parse_bare ping ch from
    else if t =s "pong"
    then parse_bare pong ch from
    else if t =s "close"
    then parse_close ch from body
    else if t =s "ready" || t =s "terminate"
    then fail (must_not_send t)
    else fail (unknown_type t)

-- The checks on the envelope, in the order of the source.
unfoldable pub parse_value : Json → Parsed ClientMessage
unfolding get as_object check_version get_str is_number
parse_value value = do
  fields ← or_fail (as_object value) not_an_object
  check_version (get "v" fields)
  t ← or_fail (get_str fields "t") (missing_field "t")
  ch ← or_fail (get_str fields "ch") (missing_field "ch")
  check (validate_channel_id ch) invalid_channel_id
  check (is_number (get "ts" fields)) (missing_field "ts")
  from ← or_fail (get_str fields "from") (missing_field "from")
  body ← or_fail (object_at (get "body" fields)) (missing_field "body")
  parse_body t ch from body

-- `parse_json` is `JSON.parse`, with `none` for its exception.
unfoldable pub parse_message : (String → Option Json) → String → Parsed ClientMessage
unfolding parse_value parse_body
parse_message parse_json raw = do value ← or_fail (parse_json raw) invalid_json; parse_value value

-- What the worker sends of its own, by the builder that makes it.
pub data AdapterMessage : Type 0 where
  ready_waiting : String → Role → String → Bool → AdapterMessage
  ready_connected : String → Role → String → String → Bool → AdapterMessage
  terminate : String → CloseReasonString → AdapterMessage
  terminate_with_target : String → CloseReasonString → String → AdapterMessage

pub data MessageType : Type 0 where
  t_accept t_req t_res t_evt t_ping t_pong t_close : MessageType

abbrev pub is_dapp : Role → Bool
is_dapp dapp = true
is_dapp wallet = false

abbrev pub is_wallet : Role → Bool
is_wallet dapp = false
is_wallet wallet = true

-- `stateAllowsMessage`, with the types that the worker can ask about.
unfoldable pub state_allows_message : ChannelState → MessageType → Role → Bool
state_allows_message closed t role = false
state_allows_message no_channel t role = false
state_allows_message _ t_close role = true
state_allows_message _ t_ping role = true
state_allows_message _ t_pong role = true
state_allows_message pending_accept t_accept role = is_dapp role
state_allows_message connected t_req role = is_dapp role
state_allows_message connected t_res role = is_wallet role
state_allows_message connected t_evt role = is_wallet role
state_allows_message _ _ role = false
