-- ===== src/Relay/Protocol/Parsing.antt =====
-- What a message that has been parsed satisfies, and which messages are refused.
use walletpair.Common.{
  String, Bool, true, false, Option, none, some, ◌≡◌, refl, arith, ◌=s◌, if◌then◌else◌, ◌||◌, inl,
  inr, ◌⊎◌,
}
use walletpair.Json.{
  JsNumber, whole, Json, null, num, str, obj, Fields, end, field, get, as_object, is_number,
}
use walletpair.Relay.Protocol.{
  ClientMessage, create, join, accept, req, res, evt, ping, pong, close, ch_of, from_of, Parsed, ok,
  fail, ParseError, get_str, parse_data, parse_create, parse_join, parse_accept, parse_close,
  parse_bare, parse_body, parse_value, parse_message, validate_peer_id, validate_channel_id,
  check_version, must_not_send, object_at, or_fail, check, ◌>>=◌, ◌>>◌, invalid_json, tag_of,
  not_an_object, missing_field, invalid_channel_id,
}

-- The target of an accept is a peer id too.
abbrev pub TargetIsValid : ClientMessage → Type 0
TargetIsValid (accept ch from target) = validate_peer_id target ≡ true
TargetIsValid _ = Unit {0}

-- A message with the envelope's channel and sender, the sender a valid peer id.
abbrev pub Carries : String → String → Parsed ClientMessage → Type 0
Carries ch from p =
    (msg : ClientMessage)
    → p ≡ ok msg
    → (ch_of msg ≡ ch) × (from_of msg ≡ from) × (validate_peer_id from ≡ true) × TargetIsValid msg

parse_create-Carries :
    (ch from : String) (body : Fields) → Carries ch from (parse_create ch from body)
unfolding parse_create ch_of from_of
parse_create-Carries ch from body msg e = ground arith

parse_join-Carries : (ch from : String) (body : Fields) → Carries ch from (parse_join ch from body)
unfolding parse_join ch_of from_of
parse_join-Carries ch from body msg e = ground arith

parse_accept-Carries :
    (ch from : String) (body : Fields) → Carries ch from (parse_accept ch from body)
unfolding parse_accept ch_of from_of
parse_accept-Carries ch from body msg e = ground arith

parse_close-Carries :
    (ch from : String) (body : Fields) → Carries ch from (parse_close ch from body)
unfolding parse_close ch_of from_of
parse_close-Carries ch from body msg e = ground arith

parse_req-Carries :
    (ch from : String) (body : Fields) → Carries ch from (parse_data req ch from body)
unfolding parse_data ch_of from_of
parse_req-Carries ch from body msg e = ground arith

parse_res-Carries :
    (ch from : String) (body : Fields) → Carries ch from (parse_data res ch from body)
unfolding parse_data ch_of from_of
parse_res-Carries ch from body msg e = ground arith

parse_evt-Carries :
    (ch from : String) (body : Fields) → Carries ch from (parse_data evt ch from body)
unfolding parse_data ch_of from_of
parse_evt-Carries ch from body msg e = ground arith

parse_ping-Carries : (ch from : String) → Carries ch from (parse_bare ping ch from)
unfolding parse_bare ch_of from_of
parse_ping-Carries ch from msg e = ground arith

parse_pong-Carries : (ch from : String) → Carries ch from (parse_bare pong ch from)
unfolding parse_bare ch_of from_of
parse_pong-Carries ch from msg e = ground arith

if-Carries :
    (b : Bool) {ch from : String} {x y : Parsed ClientMessage}
    → Carries ch from x
    → Carries ch from y
    → Carries ch from (if b then x else y)
if-Carries true h k = h
if-Carries false h k = k

-- Whatever the type, a parsed message has the channel and the sender of its envelope, and the
-- sender is a valid peer id.
parse_body-Carries :
    (t ch from : String) (body : Fields) → Carries ch from (parse_body t ch from body)
unfolding parse_body
parse_body-Carries t ch from body = if-Carries (t =s "create") (parse_create-Carries ch from body) (
    if-Carries (t =s "join") (parse_join-Carries ch from body) (
      if-Carries (t =s "accept") (parse_accept-Carries ch from body) (
        if-Carries (t =s "req") (parse_req-Carries ch from body) (
          if-Carries (t =s "res") (parse_res-Carries ch from body) (
            if-Carries (t =s "evt") (parse_evt-Carries ch from body) (
              if-Carries (t =s "ping") (parse_ping-Carries ch from) (
                if-Carries (t =s "pong") (parse_pong-Carries ch from) (
                  if-Carries (t =s "close") (parse_close-Carries ch from body) (
                    if-Carries (t =s "ready" || t =s "terminate") (λ msg e. cc)
                      (λ msg e. cc))))))))))

abbrev pub IsValid : Parsed ClientMessage → Type 0
IsValid p =
    (msg : ClientMessage)
    → p ≡ ok msg
    → (validate_channel_id (ch_of msg) ≡ true)
      × (validate_peer_id (from_of msg) ≡ true)
      × TargetIsValid msg

or_fail-IsValid :
    {A : Type 0} (o : Option A) (e : ParseError) {f : A → Parsed ClientMessage}
    → ((a : A) → IsValid (f a))
    → IsValid (or_fail o e >>= f)
or_fail-IsValid none e h msg q = cc
or_fail-IsValid (some a) e h msg q = h a msg q

check-IsValid :
    (b : Bool) (e : ParseError) {m : Parsed ClientMessage}
    → (b ≡ true → IsValid m)
    → IsValid (check b e >> m)
check-IsValid true e h msg q = h refl msg q
check-IsValid false e h msg q = cc

version-IsValid : (p : Parsed (Unit {0})) {m : Parsed ClientMessage} → IsValid m → IsValid (p >> m)
version-IsValid (ok u) h msg q = h msg q
version-IsValid (fail e) h msg q = cc

Carries-IsValid :
    (ch from : String) {p : Parsed ClientMessage}
    → validate_channel_id ch ≡ true
    → Carries ch from p
    → IsValid p
Carries-IsValid ch from h c msg e =
    let (same_ch, same_from, valid, target) = c msg e in (rw same_ch h, rw same_from valid, target)

pub parse_value-IsValid : (value : Json) → IsValid (parse_value value)
unfolding parse_value
parse_value-IsValid value = or_fail-IsValid (as_object value) not_an_object λ fields.
    version-IsValid (check_version (get "v" fields)) (
      or_fail-IsValid (get_str fields "t") (missing_field "t") λ t.
        or_fail-IsValid (get_str fields "ch") (missing_field "ch") λ ch.
          check-IsValid (validate_channel_id ch) invalid_channel_id λ valid.
            check-IsValid (is_number (get "ts" fields)) (missing_field "ts") λ timed.
              or_fail-IsValid (get_str fields "from") (missing_field "from") λ from.
                or_fail-IsValid (object_at (get "body" fields)) (missing_field "body")
                  λ body. Carries-IsValid ch from valid (parse_body-Carries t ch from body))

-- For every JSON parser, a text that is parsed to a message gives one whose channel id is 64 lower
-- case hex digits, whose sender is a valid peer id, and so is its target if it is an accept.
pub parse_message-IsValid :
    (parse_json : String → Option Json) (raw : String) {msg : ClientMessage}
    → parse_message parse_json raw ≡ ok msg
    → (validate_channel_id (ch_of msg) ≡ true)
      × (validate_peer_id (from_of msg) ≡ true)
      × TargetIsValid msg
unfolding parse_message
parse_message-IsValid parse_json raw {msg} e = go (parse_json raw) msg e
  where
    go : (o : Option Json) → IsValid (or_fail o invalid_json >>= parse_value)
    go o = or_fail-IsValid o invalid_json parse_value-IsValid

-- A client cannot send what only the worker sends: `ready` and `terminate` are refused by type.
pub parse_body_adapter :
    (t ch from : String) (body : Fields)
    → (t ≡ "ready") ⊎ (t ≡ "terminate")
    → parse_body t ch from body ≡ fail (must_not_send t)
unfolding parse_body
parse_body_adapter t ch from body (inl e) = rw e refl
parse_body_adapter t ch from body (inr e) = rw e refl

-- The envelope and the body that a client writes for a message.
unfoldable body_of : ClientMessage → Fields
body_of (create ch from) = field "meta" (obj end) end
body_of (join ch from true) = field "sealed_join" null end
body_of (join ch from false) = field "sealed_join" (str "") end
body_of (accept ch from target) = field "target" (str target) end
body_of (req ch from id) = field "id" (str id) (field "sealed" (str "") end)
body_of (res ch from id) = field "id" (str id) (field "sealed" (str "") end)
body_of (evt ch from id) = field "id" (str id) (field "sealed" (str "") end)
body_of (ping ch from) = end
body_of (pong ch from) = end
body_of (close ch from reason) = field "reason" (str reason) end

unfoldable pub encode : JsNumber → ClientMessage → Json
unfolding body_of ch_of from_of tag_of
encode ts msg = obj (
    field "v" (num (whole 1)) (
      field "t" (str (tag_of msg)) (
        field "ch" (str (ch_of msg)) (
          field "ts" (num ts)
            (field "from" (str (from_of msg)) (field "body" (obj (body_of msg)) end))))))

-- Every message whose ids are valid can be sent: what is written for it parses to it.
pub parse_value-encode :
    (ts : JsNumber) (msg : ClientMessage)
    → validate_channel_id (ch_of msg) ≡ true
    → validate_peer_id (from_of msg) ≡ true
    → TargetIsValid msg
    → parse_value (encode ts msg) ≡ ok msg
unfolding parse_value parse_body encode
parse_value-encode ts (create ch from) h k t = rw (h, k)
parse_value-encode ts (join ch from true) h k t = rw (h, k)
parse_value-encode ts (join ch from false) h k t = rw (h, k)
parse_value-encode ts (accept ch from target) h k t = rw (h, k, t)
parse_value-encode ts (req ch from id) h k t = rw (h, k)
parse_value-encode ts (res ch from id) h k t = rw (h, k)
parse_value-encode ts (evt ch from id) h k t = rw (h, k)
parse_value-encode ts (ping ch from) h k t = rw (h, k)
parse_value-encode ts (pong ch from) h k t = rw (h, k)
parse_value-encode ts (close ch from reason) h k t = rw (h, k)
