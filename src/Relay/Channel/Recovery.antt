-- ===== src/Relay/Channel/Recovery.antt =====
-- Eviction and recovery: what storage and the attachments bring back.
use walletpair.Common.{ℕ, String, Bool, true, Option, some, ◌≡◌, sym, ◌∙◌, ap, arith}
use walletpair.Json.{Json}
use walletpair.Relay.Channel.State.{
  Socket, Channel, returned, truthy, or_null, or_empty, attached_channel, snapshot,
  ensure_initialized, hibernate,
}
use walletpair.Relay.Channel.Events.{
  Message, web_socket_message, web_socket_close, alarm, receive, expire,
}
use walletpair.Relay.Channel.Traffic.{handle_disconnect}
use walletpair.Relay.Channel.Runs.{received, closed_by_peer, timed_out, step}
use walletpair.Relay.Channel.Sets.{Distinct, set_of-Distinct}

-- Awake, with all that matters in storage, and the channel id in an attachment.
pub record Settled (c : Channel) : Type 0 where
  pub awake : c.initialized ≡ true
  pub saved : c.storage ≡ some (snapshot c)
  pub named : truthy c.channel_id ≡ true
  pub attached : attached_channel c.sockets ≡ c.channel_id
  pub dapp_readable : or_null (or_empty c.dapp_peer_id) ≡ c.dapp_peer_id
  pub distinct : Distinct c.pending_requests

-- Eviction loses nothing: when the object comes back, it is as it was.
pub ensure_initialized-hibernate : (c : Channel) → Settled c → ensure_initialized (hibernate c) ≡ c
unfolding ensure_initialized hibernate snapshot
ensure_initialized-hibernate c s = ground (arith, set_of-Distinct c.pending_requests s.distinct)

pub ensure_initialized_awake : (c : Channel) → c.initialized ≡ true → ensure_initialized c ≡ c
unfolding ensure_initialized
ensure_initialized_awake c e = ground arith

-- So a message, a disconnect and the alarm are handled after an eviction exactly as without it:
-- with the same channel, the same storage and the same frames sent.
pub step-hibernate :
    (throws : Socket → Bool) (parse_json : String → Option Json) (c : Channel) (now id : ℕ)
    (m : Message)
    → Settled c
    → (step throws parse_json (received now id m) (hibernate c)
        ≡ step throws parse_json (received now id m) c)
      × (step throws parse_json (closed_by_peer now id) (hibernate c)
          ≡ step throws parse_json (closed_by_peer now id) c)
      × (step throws parse_json timed_out (hibernate c) ≡ step throws parse_json timed_out c)
unfolding step web_socket_message web_socket_close alarm
step-hibernate throws parse_json c now id m s =
    let same : ensure_initialized (hibernate c) ≡ ensure_initialized c =
      ensure_initialized-hibernate c s ∙ sym (ensure_initialized_awake c s.awake) in
    (
      ap (receive throws parse_json now id m) same,
      ap (λ x. (handle_disconnect throws now id x, returned)) same,
      ap (λ x. (expire throws x, returned)) same,
    )
