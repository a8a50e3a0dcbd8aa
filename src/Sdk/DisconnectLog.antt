-- ===== src/Sdk/DisconnectLog.antt =====
-- walletpair-sdk/src/disconnect-log.ts: the ring buffer of disconnects. The sink and the console are
-- left out.
pub mod Last
use walletpair.Common.{
  ℕ, String, Bool, Option, none, some, List, [], ◌∷◌, ◌++◌, ltb, if◌then◌else◌, length, shift,
}

pub data DisconnectKind : Type 0 where
  transport_close terminate session_close reconnect_failed : DisconnectKind

pub data Side : Type 0 where
  dapp wallet : Side

pub record DisconnectLogEntry : Type 0 where
  pub ts : ℕ
  pub side : Side
  pub kind : DisconnectKind
  pub code : Option ℕ
  pub reason : Option String
  pub phase : Option String
  pub will_reconnect : Option Bool
  pub channel_id : Option String

abbrev pub ring_size : ℕ
ring_size = 50

-- Of an entry with the time that it is recorded at.
unfoldable pub record_disconnect :
    DisconnectLogEntry → List DisconnectLogEntry → List DisconnectLogEntry
record_disconnect entry ring =
    let pushed = ring ++ entry ∷ [] in
    if ltb ring_size (length pushed) then shift pushed else pushed

abbrev pub get_disconnect_log : List DisconnectLogEntry → List DisconnectLogEntry
get_disconnect_log ring = ring

abbrev pub clear_disconnect_log : List DisconnectLogEntry → List DisconnectLogEntry
clear_disconnect_log ring = []
