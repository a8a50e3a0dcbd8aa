-- ===== src/Sdk/Crypto/Keys.antt =====
-- crypto.ts: the shared secret, the keys that are derived from it, and the fingerprint of a session.
use walletpair.Common.{
  ℕ, suc, ◌+◌, ◌/◌, ◌%◌, Bool, true, false, not, ◌&&◌, Option, none, some, List, [], ◌∷◌, ◌++◌, map,
  codes, every, ◌==◌, if◌then◌else◌, length, take,
}
use walletpair.Json.{Json, null}
use walletpair.Sdk.Crypto.Encodings.{Bytes, Text, uint16, read_uint32, b64url_decode}
use walletpair.Sdk.Crypto.Primitives.{Primitives}

pub record SessionCryptoContext : Type 0 where
  pub dapp_pub_key : Text
  pub wallet_pub_key : Text
  pub capabilities : Option Json
  pub wallet_meta : Option Json
  pub dapp_name : Option Text

abbrev pub json_or_null : Option Json → Json
json_or_null none = null
json_or_null (some v) = v

abbrev pub text_or_nothing : Option Text → Text
text_or_nothing none = []
text_or_nothing (some t) = t

-- One after the other, unless one of them is an exception.
infixr 30 ◌+?◌
abbrev pub ◌+?◌ : Option Bytes → Option Bytes → Option Bytes
none +? b = none
some a +? none = none
some a +? some b = some (a ++ b)

abbrev is_zero : ℕ → Bool
is_zero n = n == 0

module _ (p : Primitives) where
  -- A length of up to 65,535 bytes, and the bytes.
  unfoldable pub lp : Text → Option Bytes
  lp text =
      let bytes = p.utf8_to_bytes text in
      if walletpair.Common.ltb 0xffff (length bytes)
      then none
      else some (uint16 (length bytes) ++ bytes)

  -- `acc` is zero where every byte is.
  unfoldable pub compute_shared_secret : Bytes → Bytes → Option Bytes
  compute_shared_secret mine remote =
      let shared = p.get_shared_secret mine remote in
      if not (length remote == 32) then none else if every is_zero shared then none else some shared

  abbrev derive : Option Bytes → Bytes → Text → Option Bytes
  derive none secret purpose = none
  derive (some salt) secret purpose = some (p.hkdf secret salt purpose)

  unfoldable pub derive_session_key : Bytes → Text → Option Bytes
  derive_session_key shared ch = derive (p.hex_to_bytes ch) shared (codes "walletpair-v1 root")

  unfoldable pub derive_join_encryption_key : Bytes → Text → Option Bytes
  derive_join_encryption_key root ch =
      derive (p.hex_to_bytes ch) root (codes "walletpair-v1 join-encryption")

  -- What the hash of the transcript is made of.
  unfoldable pub transcript : Text → SessionCryptoContext → Option Bytes
  transcript ch c =
      some (p.utf8_to_bytes (codes "walletpair-v1-transcript"))
      +? p.hex_to_bytes ch
      +? lp c.dapp_pub_key
      +? lp c.wallet_pub_key
      +? lp (p.canonical_json (json_or_null c.capabilities))
      +? lp (p.canonical_json (json_or_null c.wallet_meta))
      +? lp (text_or_nothing c.dapp_name)

  abbrev pub hashed : Option Bytes → Option Bytes
  hashed none = none
  hashed (some bytes) = some (p.sha256 bytes)

  unfoldable pub compute_handshake_transcript_hash : Text → SessionCryptoContext → Option Bytes
  compute_handshake_transcript_hash ch c = hashed (transcript ch c)

  abbrev directional : Option Bytes → Bytes → Option (Bytes × Bytes)
  directional none root = none
  directional (some hash) root = some (
    p.hkdf root hash (codes "walletpair-v1 dapp-to-wallet"),
    p.hkdf root hash (codes "walletpair-v1 wallet-to-dapp"),
  )

  -- From the dApp to the wallet, and back.
  unfoldable pub derive_directional_session_keys :
      Bytes → Text → SessionCryptoContext → Option (Bytes × Bytes)
  derive_directional_session_keys root ch c =
      directional (compute_handshake_transcript_hash ch c) root

  -- A number below 10,000, padded with zeros to four digits.
  unfoldable pub four_digits : ℕ → Text
  four_digits n =
      (b'0' + n / 1000 % 10) ∷ (b'0' + n / 100 % 10) ∷ (b'0' + n / 10 % 10) ∷ (b'0' + n % 10) ∷ []

  abbrev code_of : Option ℕ → Option Text
  code_of none = none
  code_of (some n) = some (four_digits (n % 10000))

  abbrev first_number : Option Bytes → Option Text
  first_number none = none
  first_number (some hash) = code_of (read_uint32 hash)

  unfoldable pub compute_session_fingerprint : Text → Text → Option Text
  compute_session_fingerprint ch dapp_pub_key = first_number (
      hashed (
        some (p.utf8_to_bytes (codes "walletpair-v1-session-fingerprint"))
        +? p.hex_to_bytes ch
        +? b64url_decode dapp_pub_key))
