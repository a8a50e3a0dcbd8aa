-- ===== src/Relay/Channel/Runs.antt =====
-- channel.ts: the upgrade request (fetch), and runs of a channel over the events that the platform
-- delivers. An event carries the time and says for which sockets a send throws.
use walletpair.Common.{
  ℕ, ◌+◌, String, Bool, true, false, not, ◌&&◌, ◌||◌, Option, none, some, List, [], ◌∷◌, ◌++◌, leb,
  ◌==◌, if◌then◌else◌, codes,
}
use walletpair.Json.{Json}
use walletpair.Relay.Types.{no_channel}
use walletpair.Relay.Protocol.{validate_channel_id}
use walletpair.Relay.Channel.State.{
  Socket, Channel, Flow, returned, truthy, update, ensure_initialized, hibernate,
}
use walletpair.Relay.Channel.Events.{Message, web_socket_message, web_socket_close, alarm}

-- The headers and the query parameter that `fetch` reads.
pub record Request : Type 0 where
  pub upgrade : Option String
  pub protocols : Option String
  pub ch : Option String

pub record Response : Type 0 where
  pub status : ℕ
  pub subprotocol : Option String

abbrev pub same_text : List ℕ → List ℕ → Bool
same_text [] [] = true
same_text [] (y ∷ ys) = false
same_text (x ∷ xs) [] = false
same_text (x ∷ xs) (y ∷ ys) = x == y && same_text xs ys

-- `toLowerCase` on the bytes of a header.
unfoldable pub to_lower : List ℕ → List ℕ
to_lower [] = []
to_lower (c ∷ cs) = (if leb b'A' c && leb c b'Z' then c + 32 else c) ∷ to_lower cs

unfoldable pub is_upgrade : Option String → Bool
unfolding to_lower
is_upgrade none = false
is_upgrade (some header) = same_text (to_lower (codes header)) (codes "websocket")

-- The white space of `trim` among the characters of a header.
abbrev blank : ℕ → Bool
blank c = c == 0x20 || (leb 0x9 c && leb c 0xd) || c == 0xa0

-- `split(",").some((p) => p.trim() === name)`: the text is walked with the part read so far, which
-- has lost the blanks at its start; blanks at the end of a part may follow its name.
unfoldable pub trims_to : List ℕ → List ℕ → Bool
trims_to name [] = same_text [] name
trims_to [] (c ∷ cs) = blank c && trims_to [] cs
trims_to (n ∷ name) (c ∷ cs) = c == n && trims_to name cs

unfoldable pub trim_start : List ℕ → List ℕ
trim_start [] = []
trim_start (c ∷ cs) = if blank c then trim_start cs else c ∷ cs

unfoldable pub some_part : List ℕ → List ℕ → List ℕ → Bool
unfolding trims_to trim_start
some_part name part [] = trims_to name (trim_start part)
some_part name part (c ∷ cs) =
    let next = some_part name [] cs in
    let longer = some_part name (part ++ c ∷ []) cs in
    if c == b',' then trims_to name (trim_start part) || next else longer

unfoldable pub offers_protocol : Option String → Bool
unfolding some_part
offers_protocol none = false
offers_protocol (some protocols) = some_part (codes "walletpair.v1") [] (codes protocols)

abbrev pub valid_ch : Option String → Bool
valid_ch none = false
valid_ch (some ch) = truthy (some ch) && validate_channel_id ch

-- The server's end of a new pair, open and without an attachment.
abbrev pub new_socket : ℕ → Socket
new_socket id = record { id = id; ready_state = 1; attachment = none }

-- `if (this.channelId === null) this.channelId = ch`
abbrev pub adopt : Option String → Option String → Channel → Channel
adopt none ch c = record c { channel_id = ch }
adopt (some known) ch c = c

-- `id` is the name that the model gives to the new socket.
unfoldable pub fetch : ℕ → Request → Channel → Response × Channel
unfolding is_upgrade validate_channel_id offers_protocol ensure_initialized
fetch id r c =
    if not (is_upgrade r.upgrade)
    then (record { status = 426; subprotocol = none }, c)
    else if not (valid_ch r.ch)
    then (record { status = 400; subprotocol = none }, c)
    else let w = ensure_initialized (record c { sockets = c.sockets ++ new_socket id ∷ [] }) in
      (
        record {
          status = 101;
          subprotocol = if offers_protocol r.protocols then some "walletpair.v1" else none;
        },
        adopt w.channel_id r.ch w,
      )

-- The platform delivers a call of the object, lets a socket change its state, drops one, or takes
-- the object out of memory.
pub data Event : Type 0 where
  requested : ℕ → Request → Event
  received : ℕ → ℕ → Message → Event
  closed_by_peer : ℕ → ℕ → Event
  timed_out : Event
  link_changed : ℕ → ℕ → Event
  evicted : Event

module _ (throws : Socket → Bool) (parse_json : String → Option Json) where
  unfoldable pub step : Event → Channel → Channel × Flow
  unfolding fetch web_socket_message web_socket_close alarm update hibernate
  step (requested id r) c = ((fetch id r c).1, returned)
  step (received now id message) c = web_socket_message throws parse_json now id message c
  step (closed_by_peer now id) c = (web_socket_close throws now id c, returned)
  step timed_out c = (alarm throws c, returned)
  step (link_changed id n) c =
      (record c { sockets = update id (λ s. record s { ready_state = n }) c.sockets }, returned)
  step evicted c = (hibernate c, returned)

-- A run: for each event, which sends throw while it is handled.
unfoldable pub run : (String → Option Json) → List ((Socket → Bool) × Event) → Channel → Channel
unfolding step
run parse_json [] c = c
run parse_json ((throws, e) ∷ es) c = run parse_json es (step throws parse_json e c).0

-- The object before its first request.
abbrev pub new_channel : Channel
new_channel = record {
  channel_state = no_channel;
  channel_id = none;
  dapp_peer_id = none;
  wallet_peer_id = none;
  is_reconnect = false;
  pending_requests = [];
  initialized = false;
  sockets = [];
  storage = none;
  alarm_at = none;
  sent = [];
}
