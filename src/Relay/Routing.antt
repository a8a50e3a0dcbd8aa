-- ===== src/Relay/Routing.antt =====
-- walletpair-websocket-relay-cf-worker/src/index.ts: the worker's own fetch handler, and what it
-- hands to the object of a channel.
use walletpair.Common.{
  ℕ, String, true, not, Option, none, some, ◌≡◌, arith, ◌=s◌, if◌then◌else◌, codes, length, every,
}
use walletpair.Relay.Protocol.{validate_channel_id, is_hex}
use walletpair.Relay.Channel.State.{Channel}
use walletpair.Relay.Channel.Runs.{Request, is_upgrade, valid_ch, fetch, offers_protocol}

-- The method and the path, then what `ChannelDO.fetch` reads too.
pub record WorkerRequest : Type 0 where
  pub method : String
  pub pathname : String
  pub inner : Request
  pub open inner use *

pub data Reply : Type 0 where
  status : ℕ → Reply
  -- The request goes on to the object that is named by the channel id.
  forwarded : String → Reply

abbrev route_channel : Option String → Reply
route_channel none = status 400
route_channel (some ch) =
    if ch =s ""
    then status 400
    else if not (validate_channel_id ch)
    then status 400
    else forwarded ch

unfoldable pub handle_web_socket : WorkerRequest → Reply
unfolding is_upgrade
handle_web_socket r = if not (is_upgrade r.upgrade) then status 426 else route_channel r.ch

unfoldable pub worker_fetch : WorkerRequest → Reply
unfolding handle_web_socket
worker_fetch r =
    if r.method =s "OPTIONS"
    then status 204
    else if r.pathname =s "/healthz"
    then status 200
    else if r.pathname =s "/v1"
    then handle_web_socket r
    else status 404

route_channel-forwarded :
    (o : Option String) (ch : String)
    → route_channel o ≡ forwarded ch
    → (o ≡ some ch) × (validate_channel_id ch ≡ true) × (valid_ch o ≡ true)
route_channel-forwarded none ch e = cc
route_channel-forwarded (some c) ch e = ground arith

fetch_switches :
    (id : ℕ) (r : Request) (c : Channel)
    → is_upgrade r.upgrade ≡ true
    → valid_ch r.ch ≡ true
    → (fetch id r c).0 ≡ record {
      status = 101;
      subprotocol = if offers_protocol r.protocols then some "walletpair.v1" else none;
    }
unfolding fetch
fetch_switches id r c u v = simp (u, v)

worker_fetch-forwarded :
    (r : WorkerRequest) (ch : String)
    → worker_fetch r ≡ forwarded ch
    → (is_upgrade r.upgrade ≡ true) × (route_channel r.ch ≡ forwarded ch)
unfolding worker_fetch handle_web_socket
worker_fetch-forwarded r ch e = ground arith

validate_channel_id-shape :
    (ch : String)
    → validate_channel_id ch ≡ true
    → (every is_hex (codes ch) ≡ true) × (length (codes ch) ≡ 64)
unfolding validate_channel_id
validate_channel_id-shape ch e = ground arith

-- What the worker forwards, the object of the channel never turns down: the channel id is 64 lower
-- case hex digits, and the object answers 101 with the one subprotocol, if that was offered.
pub fetch_forwarded :
    (r : WorkerRequest) (ch : String) (id : ℕ) (c : Channel)
    → worker_fetch r ≡ forwarded ch
    → (r.ch ≡ some ch)
      × (every is_hex (codes ch) ≡ true)
      × (length (codes ch) ≡ 64)
      × ((fetch id r.inner c).0 ≡ record {
        status = 101;
        subprotocol = if offers_protocol r.protocols then some "walletpair.v1" else none;
      })
fetch_forwarded r ch id c e =
    let (u, f) = worker_fetch-forwarded r ch e in
    let (known, valid, inner) = route_channel-forwarded r.ch ch f in
    let (hex, size) = validate_channel_id-shape ch valid in
    (known, hex, size, fetch_switches id r.inner c u inner)
