-- ===== src/Relay/Tests/Runs.antt =====
-- Runs of one pairing, and the theorems on events at its states.
use walletpair.Common.{none, some, [], ◌∷◌, ◌≡◌, refl, ◌⊎◌, arith}
use walletpair.Relay.Types.{dapp, waiting, pending_accept, connected, closed}
use walletpair.Relay.Channel.State.{
  Channel, snapshot, returned, thrown, ensure_initialized, hibernate, get_attachment,
  attached_channel, find_peer_ws, socket_at,
}
use walletpair.Relay.Channel.Events.{text, web_socket_message, web_socket_close, alarm}
use walletpair.Relay.Channel.Runs.{received, closed_by_peer, timed_out, step, run, new_channel}
use walletpair.Relay.Channel.Pairing.{handle_create, replace_peer}
use walletpair.Relay.Channel.Traffic.{handle_data, a_req}
use walletpair.Relay.Channel.Invariant.{Inv}
use walletpair.Relay.Channel.Invariant.Steps.{run_new-Inv}
use walletpair.Relay.Channel.Transitions.{Delivered, web_socket_message-Change}
use walletpair.Relay.Channel.Storage.{Durable}
use walletpair.Relay.Channel.Storage.Steps.{step-Durable}
use walletpair.Relay.Channel.Recovery.{Settled, step-hibernate}
use walletpair.Relay.Channel.Delivery.{Sent, handle_data-Sent}
use walletpair.Relay.Channel.Edges.{stale_dapp_closes, alarm_unattached, recreate_cut_off}
use walletpair.Relay.Tests.{
  channel, dapp_key, wallet_key, read_json, throws_unless_open, pairing, dapp_socket, wallet_socket,
  stored, channel_in, connected_channel,
}

pairing_pends : (run read_json pairing new_channel).channel_state ≡ pending_accept
unfolding run read_json walletpair.Relay.Protocol.validate_peer_id
    walletpair.Relay.Protocol.is_b64url walletpair.Base64.atob walletpair.Relay.Protocol.pad_loop
    walletpair.Relay.Protocol.to_b64
pairing_pends = refl

accept_connects :
    (step throws_unless_open read_json
      (received 30 1 (text "accept"))
      (run read_json pairing new_channel)).0.channel_state
    ≡ connected
unfolding run step read_json walletpair.Relay.Protocol.validate_peer_id
    walletpair.Relay.Protocol.is_b64url walletpair.Base64.atob walletpair.Relay.Protocol.pad_loop
    walletpair.Relay.Protocol.to_b64
accept_connects = refl

run_new-Inv_example : Inv (run read_json pairing new_channel)
run_new-Inv_example = run_new-Inv read_json pairing

abbrev pending_channel : Channel
pending_channel = channel_in pending_accept (some wallet_key) (dapp_socket ∷ wallet_socket ∷ [])

web_socket_message-Change_example :
    ((web_socket_message throws_unless_open read_json 30 1
        (text "accept")
        pending_channel).0.channel_state
      ≡ (ensure_initialized pending_channel).channel_state)
    ⊎ Delivered throws_unless_open read_json 1
        (text "accept")
        (ensure_initialized pending_channel)
        (web_socket_message throws_unless_open read_json 30 1
          (text "accept")
          pending_channel).0.channel_state
web_socket_message-Change_example =
    web_socket_message-Change throws_unless_open read_json 30 1 (text "accept") pending_channel

pending_channel-Durable : Durable pending_channel
unfolding snapshot
pending_channel-Durable = record { awake = refl; named = refl; saved = refl }

accept_returns :
    (step throws_unless_open read_json (received 30 1 (text "accept")) pending_channel).1 ≡ returned
unfolding step read_json walletpair.Relay.Protocol.validate_peer_id
    walletpair.Relay.Protocol.is_b64url walletpair.Base64.atob walletpair.Relay.Protocol.pad_loop
    walletpair.Relay.Protocol.to_b64
accept_returns = refl

step-Durable_example :
    Durable (step throws_unless_open read_json (received 30 1 (text "accept")) pending_channel).0
step-Durable_example =
    step-Durable throws_unless_open read_json pending_channel (received 30 1 (text "accept"))
      pending_channel-Durable (λ e. cc) accept_returns

pending_channel-Settled : Settled pending_channel
unfolding snapshot attached_channel
pending_channel-Settled = record {
  awake = refl;
  saved = refl;
  named = refl;
  attached = refl;
  dapp_readable = refl;
  distinct = tt;
}

step-hibernate_example :
    (step throws_unless_open read_json (received 30 1 (text "accept")) (hibernate pending_channel)
      ≡ step throws_unless_open read_json (received 30 1 (text "accept")) pending_channel)
    × (step throws_unless_open read_json (closed_by_peer 30 1) (hibernate pending_channel)
        ≡ step throws_unless_open read_json (closed_by_peer 30 1) pending_channel)
    × (step throws_unless_open read_json timed_out (hibernate pending_channel)
        ≡ step throws_unless_open read_json timed_out pending_channel)
step-hibernate_example =
    step-hibernate throws_unless_open read_json pending_channel 30 1 (text "accept")
      pending_channel-Settled

handle_data-Sent_example :
    Sent 1 "req" dapp_key
      (a_req "r1")
      dapp
      connected_channel
      (handle_data throws_unless_open 1 "req" channel dapp_key (a_req "r1") dapp connected_channel)
handle_data-Sent_example =
    handle_data-Sent throws_unless_open 1 "req" channel dapp_key (a_req "r1") dapp connected_channel

-- Socket 1 was the dApp's until socket 3 replaced it.
abbrev replaced_channel : Channel
replaced_channel =
    channel_in waiting none
      (record dapp_socket { ready_state = 3 } ∷ record dapp_socket { id = 3 } ∷ [])

stale_dapp_closes_example :
    ((web_socket_close throws_unless_open 40 1 replaced_channel).channel_state ≡ closed)
    × ((web_socket_close throws_unless_open 40 1 replaced_channel).sent ≡ [])
    × ((web_socket_close throws_unless_open 40 1 replaced_channel).sockets
        ≡ replaced_channel.sockets)
    × ((web_socket_close throws_unless_open 40 1 replaced_channel).alarm_at ≡ none)
unfolding get_attachment find_peer_ws
stale_dapp_closes_example =
    stale_dapp_closes throws_unless_open 40 1 replaced_channel
      (record { role = dapp; peer_id = dapp_key; channel_id = channel }) refl refl refl refl refl
      refl

-- The one socket left has not said yet whose it is.
abbrev unattached_channel : Channel
unattached_channel =
    channel_in connected (some wallet_key) (record dapp_socket { attachment = none } ∷ [])

alarm_unattached_example :
    ((alarm throws_unless_open (hibernate unattached_channel)).storage
      ≡ some (stored connected (some wallet_key)))
    × ((alarm throws_unless_open (hibernate unattached_channel)).sent ≡ [])
    × ((alarm throws_unless_open (hibernate unattached_channel)).channel_state ≡ connected)
unfolding attached_channel
alarm_unattached_example =
    alarm_unattached throws_unless_open unattached_channel (stored connected (some wallet_key)) refl
      refl

abbrev lone_dapp : Channel
lone_dapp = channel_in waiting none (dapp_socket ∷ [])

recreate_cut_off_example :
    ((handle_create throws_unless_open 50 1 channel dapp_key lone_dapp).1 ≡ thrown)
    × ((handle_create throws_unless_open 50 1 channel dapp_key lone_dapp).0.storage
        ≡ some (stored waiting none))
    × (socket_at 1 (replace_peer throws_unless_open dapp channel lone_dapp).sockets
        ≡ some (record dapp_socket { ready_state = 2 }))
unfolding find_peer_ws socket_at
recreate_cut_off_example =
    recreate_cut_off throws_unless_open 50 channel dapp_key lone_dapp dapp_socket
      (λ t n. ground arith) refl refl refl refl
