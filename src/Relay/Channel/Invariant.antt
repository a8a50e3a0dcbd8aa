-- ===== src/Relay/Channel/Invariant.antt =====
-- The well-formedness of a channel, in memory and in storage: which peers a state has, how many
-- requests may be pending, and that the pending set holds no id twice.
pub mod Pairing
pub mod Traffic
pub mod Steps
use walletpair.Common.{
  ℕ, ◌+◌, ◌≤◌, String, Bool, true, false, Option, none, some, List, [], ◌∷◌, ◌≡◌, ◌∙◌, arith,
  length, Bool-cases, Option-cases, inl, inr, is_just, is_just_iff, refl, if◌then◌else◌,
}
use walletpair.Relay.Types.{
  Role, dapp, wallet, ChannelState, no_channel, waiting, pending_accept, connected, closed,
  PersistedChannelState,
}
use walletpair.Relay.Protocol.{ready_waiting, is_dapp}
use walletpair.Relay.Channel.State.{
  Socket, Channel, Flow, truthy, or_null, or_empty, set_of, persist_state, restore,
  ensure_initialized, built, raw_text, find_peer_ws, send, arm_alarm, unpaired_ttl_ms,
  pending_request_limit, send_then_close, send_and_close,
}
use walletpair.Relay.Channel.Pairing.{
  handle_create, create_in, make_room, open_channel, Room, cleared, refused, handle_join, join_in,
  join_failed, register_wallet, forward_join, revert_to_waiting, handle_accept, connect_peers,
  replace_peer,
}
use walletpair.Relay.Channel.Traffic.{
  DataMessage, track, handle_data, handle_close, handle_disconnect, disconnect_in, forward,
  close_peer, dapp_gone, wallet_gone,
}
use walletpair.Relay.Channel.Sets.{
  Distinct, add-Distinct, delete-Distinct, length-add-le, length-delete-le, set_of-Distinct,
}
use walletpair.Relay.Channel.Quiet.{
  Quiet, send-Quiet, send_then_close-Quiet, send_and_close-Quiet, replace_peer-Quiet, forward-Quiet,
  close_peer-Quiet, time_out-Quiet,
}

-- Which peers a channel has in each state.
abbrev pub Peers : ChannelState → Option String → Option String → Type 0
Peers waiting d w = (truthy d ≡ true) × (w ≡ none)
Peers pending_accept d w = (truthy d ≡ true) × (truthy w ≡ true)
Peers connected d w = (truthy d ≡ true) × (truthy w ≡ true)
Peers _ d w = Unit {0}

-- The parts of a channel that its state constrains.
pub record Fine (state : ChannelState) (d w : Option String) (pending : List String) : Type 0 where
  pub peers : Peers state d w
  pub bounded : length pending ≤ pending_request_limit
  pub distinct : Distinct pending

abbrev pub FineStored : Option PersistedChannelState → Type 0
FineStored none = Unit {0}
FineStored (some p) = Fine p.state (or_null p.dapp_peer_id) p.wallet_peer_id p.pending_requests

pub record Inv (c : Channel) : Type 0 where
  pub memory : Fine c.channel_state c.dapp_peer_id c.wallet_peer_id c.pending_requests
  pub stored : FineStored c.storage

or_null-or_empty : (o : Option String) → truthy o ≡ true → or_null (or_empty o) ≡ o
or_null-or_empty none h = cc
or_null-or_empty (some s) h = ground arith

-- What is written is read back as peers that fit the state.
Peers-stored :
    (state : ChannelState) (d w : Option String)
    → Peers state d w
    → Peers state (or_null (or_empty d)) w
Peers-stored waiting d w p = rw (or_null-or_empty d p.0) p
Peers-stored pending_accept d w p = rw (or_null-or_empty d p.0) p
Peers-stored connected d w p = rw (or_null-or_empty d p.0) p
Peers-stored closed d w p = tt
Peers-stored no_channel d w p = tt

pub persist_state-Inv : (c : Channel) → Inv c → Inv (persist_state c)
unfolding persist_state
persist_state-Inv c v =
    let ps = Peers-stored c.channel_state c.dapp_peer_id c.wallet_peer_id v.memory.peers in
    elim (Bool-cases (truthy c.channel_id)) [
      | inl e ↦ rw e (record {
        memory = v.memory;
        stored = record { peers = ps; bounded = v.memory.bounded; distinct = v.memory.distinct };
      })
      | inr e ↦ rw e v
    ]

pub Quiet-Inv : {c c' : Channel} → Quiet c c' → Inv c → Inv c'
Quiet-Inv {c} {c'} q v = record {
  memory = rw (q.state, q.dapp, q.wallet, q.pending) v.memory;
  stored = rw q.storage v.stored;
}

restore-Inv :
    (o : Option PersistedChannelState) (c : Channel) → FineStored o → Inv c → Inv (restore o c)
unfolding restore
restore-Inv none c f v = v
restore-Inv (some p) c f v = record {
  memory = rw (set_of-Distinct p.pending_requests f.distinct) f;
  stored = v.stored;
}

pub if-Inv : (b : Bool) {x y : Channel} → Inv x → Inv y → Inv (if b then x else y)
if-Inv true v w = v
if-Inv false v w = w

pub if_cases-Inv :
    (b : Bool) {x y : Channel} → (b ≡ true → Inv x) → (b ≡ false → Inv y) → Inv (if b then x else y)
if_cases-Inv true v w = v refl
if_cases-Inv false v w = w refl

pub ensure_initialized-Inv : (c : Channel) → Inv c → Inv (ensure_initialized c)
unfolding ensure_initialized
ensure_initialized-Inv c v =
    let r =
      restore-Inv c.storage (record c { initialized = true }) v.stored
        (record { memory = v.memory; stored = v.stored }) in
    if-Inv c.initialized v (record { memory = r.memory; stored = r.stored })

pub Inv-alarm : {c : Channel} (o : Option ℕ) → Inv c → Inv (record c { alarm_at = o })
Inv-alarm o v = record { memory = v.memory; stored = v.stored }

pub Inv-closed : {c : Channel} → Inv c → Inv (record c { channel_state = closed })
Inv-closed v = record {
  memory = record { peers = tt; bounded = v.memory.bounded; distinct = v.memory.distinct };
  stored = v.stored;
}
