-- ===== src/Sdk/Transport/Tests.antt =====
-- A transport, and the theorems on it at a state.
use walletpair.Common.{◌≤◌, false, none, List, [], ◌∷◌, ◌≡◌, refl, length}
use walletpair.Json.{Json, str}
use walletpair.Sdk.Transport.{
  Transport, disconnected, connected, max_outbound_queue, connect, disconnect, on_open, has_socket,
}
use walletpair.Sdk.Transport.Frames.{
  last_frames, send_each, onto, flushed_in_order, disconnect_overtaken,
}

abbrev idle : Transport
idle = record {
  state = disconnected;
  ws = none;
  outbound = [];
  last_errored = false;
  settled = 0 ∷ [];
  detached = 0 ∷ [];
  next_socket = 1;
  writes = [];
  out = [];
}

abbrev two : List Json
two = str "join" ∷ str "ping" ∷ []

flushed_in_order_example :
    ((send_each two (connect idle).0).outbound ≡ last_frames two)
    × (length (send_each two (connect idle).0).outbound ≤ max_outbound_queue)
    × ((on_open (connect idle).1 (send_each two (connect idle).0)).writes
        ≡ onto 1 (last_frames two) [])
    × ((on_open (connect idle).1 (send_each two (connect idle).0)).outbound ≡ [])
    × ((on_open (connect idle).1 (send_each two (connect idle).0)).state ≡ connected)
unfolding has_socket
flushed_in_order_example = flushed_in_order two idle refl refl

disconnect_overtaken_example :
    ((disconnect (connect idle).0).state ≡ disconnected)
    × ((on_open (connect idle).1 (disconnect (connect idle).0)).state ≡ connected)
    × ((on_open (connect idle).1 (disconnect (connect idle).0)).writes ≡ [])
unfolding has_socket
disconnect_overtaken_example = disconnect_overtaken idle refl refl
