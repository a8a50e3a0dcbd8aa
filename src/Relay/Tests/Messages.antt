-- ===== src/Relay/Tests/Messages.antt =====
-- Messages, ids and requests: the theorems at the texts of one pairing.
use walletpair.Common.{true, ◌≡◌, ◌↔◌, refl, codes, length, every, some}
use walletpair.Json.{whole}
use walletpair.Relay.Protocol.{
  accept, ok, ch_of, from_of, parse_message, parse_value, validate_channel_id, validate_peer_id,
  is_b64url, is_hex,
}
use walletpair.Relay.Protocol.Parsing.{encode, parse_message-IsValid, parse_value-encode}
use walletpair.Relay.Protocol.PeerIds.{validate_peer_id_iff}
use walletpair.Relay.Channel.Runs.{offers_protocol, fetch, new_channel}
use walletpair.Relay.Routing.{WorkerRequest, worker_fetch, forwarded, fetch_forwarded}
use walletpair.Relay.Tests.{channel, dapp_key, wallet_key, read_json, upgrade_request}

channel_is_valid : validate_channel_id channel ≡ true
unfolding validate_channel_id is_hex
channel_is_valid = refl

dapp_key_is_valid : validate_peer_id dapp_key ≡ true
unfolding is_b64url
dapp_key_is_valid = (validate_peer_id_iff dapp_key).1 (refl, refl)

wallet_key_is_valid : validate_peer_id wallet_key ≡ true
unfolding is_b64url
wallet_key_is_valid = (validate_peer_id_iff wallet_key).1 (refl, refl)

validate_peer_id_iff_example :
    (validate_peer_id wallet_key ≡ true)
    ↔ ((every is_b64url (codes wallet_key) ≡ true) × (length (codes wallet_key) ≡ 43))
validate_peer_id_iff_example = validate_peer_id_iff wallet_key

parse_value-encode_example :
    parse_value (encode (whole 3) (accept channel dapp_key wallet_key))
    ≡ ok (accept channel dapp_key wallet_key)
unfolding ch_of from_of
parse_value-encode_example =
    parse_value-encode (whole 3) (accept channel dapp_key wallet_key) channel_is_valid
      dapp_key_is_valid wallet_key_is_valid

text_is_read : parse_message read_json "accept" ≡ ok (accept channel dapp_key wallet_key)
unfolding parse_message read_json ch_of from_of
text_is_read =
    parse_value-encode (whole 3) (accept channel dapp_key wallet_key) channel_is_valid
      dapp_key_is_valid wallet_key_is_valid

parse_message-IsValid_example :
    (validate_channel_id channel ≡ true)
    × (validate_peer_id dapp_key ≡ true)
    × (validate_peer_id wallet_key ≡ true)
unfolding ch_of from_of
parse_message-IsValid_example = parse_message-IsValid read_json "accept" text_is_read

abbrev socket_request : WorkerRequest
socket_request = record { method = "GET"; pathname = "/v1"; inner = upgrade_request }

socket_request_goes_on : worker_fetch socket_request ≡ forwarded channel
unfolding worker_fetch validate_channel_id is_hex
socket_request_goes_on = refl

fetch_forwarded_example :
    (some channel ≡ some channel)
    × (every is_hex (codes channel) ≡ true)
    × (length (codes channel) ≡ 64)
    × ((fetch 1 upgrade_request new_channel).0
        ≡ record { status = 101; subprotocol = some "walletpair.v1" })
unfolding offers_protocol
fetch_forwarded_example =
    fetch_forwarded socket_request channel 1 new_channel socket_request_goes_on
