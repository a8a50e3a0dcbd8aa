-- ===== src/Sdk/Crypto/Payloads.antt =====
-- crypto.ts: sealed payloads, and the sealed message of a join.
pub mod Sealing
pub mod Headers
pub mod Numbers
use walletpair.Common.{
  ℕ, ◌+◌, Bool, Option, none, some, List, [], ◌∷◌, ◌++◌, ltb, if◌then◌else◌, length, take, drop,
  codes,
}
use walletpair.Json.{Json, obj, field, end}
use walletpair.Sdk.Crypto.Encodings.{Bytes, Text, uint32, read_uint32, b64url_encode, b64url_decode}
use walletpair.Sdk.Crypto.Primitives.{Primitives}
use walletpair.Sdk.Crypto.Keys.{lp, json_or_null, ◌+?◌}

pub data HeaderType : Type 0 where
  req res evt : HeaderType

pub record AadHeader : Type 0 where
  pub kind : HeaderType
  pub from : Text
  pub id : Text

abbrev pub type_byte : HeaderType → ℕ
type_byte req = 1
type_byte res = 2
type_byte evt = 3

abbrev pub max_seq : ℕ
max_seq = 4294967295

module _ (p : Primitives) where
  unfoldable pub build_aad : Text → Option AadHeader → Option Bytes
  unfolding lp
  build_aad ch none = p.hex_to_bytes ch
  build_aad ch (some h) =
      p.hex_to_bytes ch +? some (type_byte h.kind ∷ []) +? lp p h.from +? lp p h.id

  abbrev pub nonce_of : Bytes → Bytes → Bytes
  nonce_of key seq_bytes = take 12 (p.hmac key seq_bytes)

  abbrev pub plaintext_of : Json → Bytes
  plaintext_of value = p.utf8_to_bytes (p.canonical_json value)

  abbrev pub seal_with : Option Bytes → Bytes → ℕ → Json → Option Text
  seal_with none key seq value = none
  seal_with (some aad) key seq value = some (
      b64url_encode
        (uint32 seq ++ p.encrypt key (nonce_of key (uint32 seq)) aad (plaintext_of value)))

  unfoldable pub seal_payload : Bytes → Text → ℕ → Json → Option AadHeader → Option Text
  unfolding build_aad
  seal_payload key ch seq value header =
      if ltb max_seq seq then none else seal_with (build_aad ch header) key seq value

  abbrev pub parsed : ℕ → Bytes → Option Json → Option (ℕ × Json × Bytes)
  parsed seq plaintext none = none
  parsed seq plaintext (some value) = some (seq, value, plaintext)

  abbrev pub numbered : Option ℕ → Bytes → Option (ℕ × Json × Bytes)
  numbered none plaintext = none
  numbered (some seq) plaintext = parsed seq plaintext (p.parse_json (p.decode_utf8 plaintext))

  abbrev pub opened : Option Bytes → Bytes → Option (ℕ × Json × Bytes)
  opened none seq_bytes = none
  opened (some plaintext) seq_bytes = numbered (read_uint32 seq_bytes) plaintext

  abbrev pub open_with : Option Bytes → Bytes → Bytes → Option (ℕ × Json × Bytes)
  open_with none key bytes = none
  open_with (some aad) key bytes =
      opened (p.decrypt key (nonce_of key (take 4 bytes)) aad (drop 4 bytes)) (take 4 bytes)

  abbrev pub open_bytes : Option Bytes → Option Bytes → Bytes → Option (ℕ × Json × Bytes)
  open_bytes none aad key = none
  open_bytes (some bytes) aad key = open_with aad key bytes

  -- The number, the value, and the plaintext that it was read from.
  unfoldable pub unseal_payload : Bytes → Text → Text → Option AadHeader → Option (ℕ × Json × Bytes)
  unfolding build_aad
  unseal_payload key ch sealed header = open_bytes (b64url_decode sealed) (build_aad ch header) key

  abbrev pub join_aad : Text → Option Bytes
  join_aad ch = p.hex_to_bytes ch +? some (4 ∷ [])

  abbrev pub join_value : Json → Option Json → Json
  join_value capabilities meta =
      obj (field "capabilities" capabilities (field "meta" (json_or_null meta) end))

  abbrev pub seal_join_with : Option Bytes → Bytes → Bytes → Json → Option Text
  seal_join_with none key nonce value = none
  seal_join_with (some aad) key nonce value =
      some (b64url_encode (nonce ++ p.encrypt key nonce aad (plaintext_of value)))

  -- With the twelve random bytes of the nonce.
  unfoldable pub seal_join : Bytes → Bytes → Text → Json → Option Json → Option Text
  seal_join nonce key ch capabilities meta =
      seal_join_with (join_aad ch) key nonce (join_value capabilities meta)

  abbrev pub join_text : Option Bytes → Option Json
  join_text none = none
  join_text (some plaintext) = p.parse_json (p.decode_utf8 plaintext)

  abbrev pub unseal_join_with : Option Bytes → Bytes → Bytes → Option Json
  unseal_join_with none key envelope = none
  unseal_join_with (some aad) key envelope =
      join_text (p.decrypt key (take 12 envelope) aad (drop 12 envelope))

  abbrev pub open_envelope : Option Bytes → Bytes → Text → Option Json
  open_envelope none key ch = none
  open_envelope (some envelope) key ch =
      if ltb (length envelope) 28 then none else unseal_join_with (join_aad ch) key envelope

  unfoldable pub unseal_join : Bytes → Text → Text → Option Json
  unseal_join key ch sealed = open_envelope (b64url_decode sealed) key ch
