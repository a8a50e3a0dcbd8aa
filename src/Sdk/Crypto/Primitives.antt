-- ===== src/Sdk/Crypto/Primitives.antt =====
-- What crypto.ts calls of third-party packages and of the browser: curves, hashes, the cipher, the
-- canonical form of JSON, and the codecs of texts. `none` stands for an exception.
use walletpair.Common.{◌≡◌, Option, some, All}
use walletpair.Json.{Json}
use walletpair.Sdk.Crypto.Encodings.{Bytes, Text}
use walletpair.Sdk.Crypto.Encodings.Base64url.{IsByte}

pub record Primitives : Type 0 where
  -- x25519.getSharedSecret
  pub get_shared_secret : Bytes → Bytes → Bytes
  pub sha256 : Bytes → Bytes
  -- The key, then the message.
  pub hmac : Bytes → Bytes → Bytes
  -- The secret, the salt, and the text of the purpose, for 32 bytes.
  pub hkdf : Bytes → Bytes → Text → Bytes
  -- chacha20poly1305, with the key, the nonce and the additional data.
  pub encrypt : Bytes → Bytes → Bytes → Bytes → Bytes
  pub decrypt : Bytes → Bytes → Bytes → Bytes → Option Bytes
  -- `canonicalize(value) ?? 'null'`
  pub canonical_json : Json → Text
  pub parse_json : Text → Option Json
  pub utf8_to_bytes : Text → Bytes
  pub decode_utf8 : Bytes → Text
  pub hex_to_bytes : Text → Option Bytes
  pub bytes_to_hex : Bytes → Text

-- Of bytes the cipher makes bytes, which it decrypts again under the same key, nonce and additional
-- data.
pub record IsCipher (p : Primitives) : Type 0 where
  pub encrypted :
      (key nonce aad plain : Bytes) → All IsByte plain → All IsByte (p.encrypt key nonce aad plain)
  pub decrypted :
      (key nonce aad plain : Bytes)
      → All IsByte plain
      → p.decrypt key nonce aad (p.encrypt key nonce aad plain) ≡ some plain

-- UTF-8 is made of bytes.
pub record IsUtf8 (p : Primitives) : Type 0 where
  pub encoded : (text : Text) → All IsByte (p.utf8_to_bytes text)
