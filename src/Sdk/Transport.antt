-- ===== src/Sdk/Transport.antt =====
-- walletpair-sdk/src/ws-transport.ts: the WebSocket transport. The sockets that `connect` opens are
-- numbered, `writes` are the frames that were written to a socket, newest first, and an event of a
-- socket comes with its number. The handlers of the owner are set before `connect`, and a timer that
-- was cleared does not fire.
pub mod Frames
mod Tests
use walletpair.Common.{
  ℕ, suc, ◌+◌, String, Bool, true, false, not, ◌&&◌, ◌||◌, Option, none, some, List, [], ◌∷◌, ◌++◌,
  ltb, leb, ◌==◌, ◌=s◌, if◌then◌else◌, length, shift,
}
use walletpair.Json.{Json, str, obj, arr, null, Fields, get, is_number}

pub data TransportState : Type 0 where
  disconnected connecting connected : TransportState

abbrev pub is_connected : TransportState → Bool
is_connected connected = true
is_connected connecting = false
is_connected disconnected = false

abbrev pub max_outbound_queue : ℕ
max_outbound_queue = 64

abbrev pub max_inbound_bytes : ℕ
max_inbound_bytes = 131072

-- What the transport tells its owner: that it is open, a message, or a close with a code, a reason,
-- and whether an error came before it.
pub data Output : Type 0 where
  opened : Output
  told : Json → Output
  closed : Option ℕ → Option String → Bool → Output
  -- `connect()` succeeds or fails.
  resolves rejects : ℕ → Output

pub record Transport : Type 0 where
  pub state : TransportState
  -- The socket that frames are written to.
  pub ws : Option ℕ
  pub outbound : List Json
  pub last_errored : Bool
  -- The sockets whose `connect()` has come to an end.
  pub settled : List ℕ
  -- The sockets that no longer have a handler for their close.
  pub detached : List ℕ
  pub next_socket : ℕ
  pub writes : List (ℕ × Json)
  pub out : List Output

unfoldable pub has_socket : ℕ → List ℕ → Bool
has_socket n [] = false
has_socket n (m ∷ ms) = m == n || has_socket n ms

abbrev pub tell : Output → Transport → Transport
tell o t = record t { out = o ∷ t.out }

abbrev pub write : ℕ → Json → Transport → Transport
write n frame t = record t { writes = (n, frame) ∷ t.writes }

-- A new socket, whose number is the result.
unfoldable pub connect : Transport → Transport × ℕ
connect t =
    (record t { outbound = []; state = connecting; next_socket = t.next_socket + 1 }, t.next_socket)

-- The socket has not opened in time: its handlers are taken off and it is closed.
unfoldable pub connect_timer_fires : ℕ → Transport → Transport
unfolding has_socket
connect_timer_fires n t =
    if has_socket n t.settled
    then t
    else tell (rejects n)
        (record t { settled = n ∷ t.settled; detached = n ∷ t.detached; state = disconnected })

unfoldable pub write_each : ℕ → List Json → Transport → Transport
write_each n [] t = t
write_each n (frame ∷ frames) t = write_each n frames (write n frame t)

unfoldable pub flush_outbound : Transport → Transport
unfolding write_each
flush_outbound t = elim t.ws [
  | none ↦ t
  | some n ↦ write_each n t.outbound (record t { outbound = [] })
]

unfoldable pub on_open : ℕ → Transport → Transport
unfolding has_socket flush_outbound
on_open n t =
    if has_socket n t.settled
    then t
    else tell (resolves n) (
        tell opened (
          flush_outbound (record t {
            settled = n ∷ t.settled;
            state = connected;
            ws = some n;
            last_errored = false;
          })))

-- `event.reason || undefined`
abbrev pub given_reason : Option String → Option String
given_reason none = none
given_reason (some r) = if r =s "" then none else some r

unfoldable pub on_close : ℕ → Option ℕ → Option String → Transport → Transport
unfolding has_socket
on_close n code reason t =
    let t' : Transport = record t { last_errored = false; state = disconnected; ws = none } in
    if has_socket n t.detached || (has_socket n t.settled && not (is_connected t.state))
    then t
    else if is_connected t.state
    then tell (closed code (given_reason reason) t.last_errored) t'
    else if has_socket n t.settled
    then t'
    else tell (rejects n) (record t' { settled = n ∷ t.settled })

unfoldable pub on_error : Transport → Transport
on_error t = record t { last_errored = true }

abbrev pub is_text : Option Json → Bool
is_text (some (str s)) = true
is_text (some _) = false
is_text none = false

-- `typeof m.body === "object" && m.body !== null`
abbrev pub is_object : Option Json → Bool
is_object (some (obj f)) = true
is_object (some (arr items)) = true
is_object (some _) = false
is_object none = false

abbrev pub has_shape : Fields → Bool
has_shape m =
    is_text (get "t" m)
    && is_number (get "v" m)
    && is_text (get "ch" m)
    && is_text (get "from" m)
    && is_object (get "body" m)

-- An array has none of the properties that are asked for.
unfoldable pub is_wire_message : Json → Bool
unfolding get is_number
is_wire_message (obj m) = has_shape m
is_wire_message _ = false

abbrev pub hand_over : Option Json → Transport → Transport
hand_over none t = t
hand_over (some value) t = if is_wire_message value then tell (told value) t else t

-- The data of an event, as its length and what JSON.parse makes of it; none if it is not a text.
unfoldable pub on_message : Option (ℕ × Option Json) → Transport → Transport
unfolding is_wire_message
on_message none t = t
on_message (some (size, parsed)) t = if ltb max_inbound_bytes size then t else hand_over parsed t

unfoldable pub queue : Json → List Json → List Json
queue frame q = (if leb max_outbound_queue (length q) then shift q else q) ++ frame ∷ []

abbrev pub send_to : Option ℕ → Json → Transport → Transport
send_to (some n) frame t =
    if is_connected t.state then write n frame t else record t { outbound = queue frame t.outbound }
send_to none frame t = record t { outbound = queue frame t.outbound }

unfoldable pub send : Json → Transport → Transport
unfolding queue
send frame t = send_to t.ws frame t

abbrev pub detach : Option ℕ → List ℕ → List ℕ
detach none ns = ns
detach (some n) ns = n ∷ ns

unfoldable pub disconnect : Transport → Transport
disconnect t = record t {
  detached = detach t.ws t.detached;
  ws = none;
  outbound = [];
  state = disconnected;
}
