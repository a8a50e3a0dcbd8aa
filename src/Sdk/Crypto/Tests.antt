-- ===== src/Sdk/Crypto/Tests.antt =====
-- Encodings on examples, and the theorems on crypto.ts with toy primitives.
use walletpair.Common.{
  take, ℕ, ◌%◌, ◌≤◌, ◌≡◌, refl, arith, true, false, Option, none, some, List, [], ◌∷◌, ◌++◌, map,
  All, codes, ◌↔◌, ◌==◌, if◌then◌else◌, every, not,
}
use walletpair.Json.{str}
use walletpair.Sdk.Crypto.Encodings.{Bytes, Text, uint32, b64url_encode, b64url_decode}
use walletpair.Sdk.Crypto.Encodings.Base64url.{IsByte, b64url_decode-encode}
use walletpair.Sdk.Crypto.Primitives.{Primitives, IsCipher, IsUtf8}
use walletpair.Sdk.Crypto.Payloads.{
  AadHeader, req, max_seq, build_aad, plaintext_of, seal_payload, unseal_payload,
}
use walletpair.Sdk.Crypto.Payloads.Sealing.{unseal_payload-seal}
use walletpair.Sdk.Crypto.Payloads.Headers.{build_aad-Injective}
use walletpair.Sdk.Crypto.Payloads.Numbers.{IsAuthentic, unseal_payload-sealed}
use walletpair.Sdk.Crypto.Snapshots.{constant_time_equal, sign_snapshot, verify_snapshot}
use walletpair.Sdk.Crypto.Snapshots.Signing.{IsHashHex, verify_snapshot_iff}
use walletpair.Sdk.Crypto.PairingUris.{UriCodec, PairingParams, parse_pairing_uri}
use walletpair.Sdk.Crypto.PairingUris.Parsing.{IsPairing, parse_pairing_uri-IsPairing}

fingerprint_text : b64url_encode (0xfb ∷ 0xff ∷ 0xbf ∷ 0x00 ∷ []) ≡ codes "-_-_AA"
unfolding b64url_encode walletpair.Base64.btoa walletpair.Sdk.Crypto.Encodings.to_url
    walletpair.Sdk.Crypto.Encodings.drop_pads
fingerprint_text = refl

b64url_decode-encode_example :
    b64url_decode (b64url_encode (0xfb ∷ 0xff ∷ 0xbf ∷ 0x00 ∷ []))
    ≡ some (0xfb ∷ 0xff ∷ 0xbf ∷ 0x00 ∷ [])
b64url_decode-encode_example =
    b64url_decode-encode (0xfb ∷ 0xff ∷ 0xbf ∷ 0x00 ∷ [])
      (omega arith, (omega arith, (omega arith, (omega arith, tt))))

abbrev low_byte : ℕ → ℕ
low_byte c = c % 256

abbrev hash_hex : Text
hash_hex = codes "0123456789abcdef0123456789abcdef0123456789abcdef0123456789abcdef"

-- Nothing is encrypted, and every text is the same JSON.
abbrev toy : Primitives
toy = record {
  get_shared_secret = λ mine remote. mine;
  sha256 = λ bytes. 1 ∷ 2 ∷ 3 ∷ 4 ∷ [];
  hmac = λ key message. key;
  hkdf = λ secret salt purpose. secret;
  encrypt = λ key nonce aad plain. plain;
  decrypt = λ key nonce aad cipher. some cipher;
  canonical_json = λ value. codes "\"0x\"";
  parse_json = λ text. some (str "0x");
  utf8_to_bytes = λ text. map low_byte text;
  decode_utf8 = λ bytes. bytes;
  hex_to_bytes = λ text. some (codes "7");
  bytes_to_hex = λ bytes. hash_hex;
}

toy-IsCipher : IsCipher toy
toy-IsCipher = record {
  encrypted = λ key nonce aad plain h. h;
  decrypted = λ key nonce aad plain h. refl;
}

low_bytes : (text : Text) → All IsByte (map low_byte text)
low_bytes [] = tt
low_bytes (c ∷ cs) = (omega arith, low_bytes cs)

toy-IsUtf8 : IsUtf8 toy
toy-IsUtf8 = record { encoded = low_bytes }

every-undotted :
    (t : Text) → every (λ c. not (c == b'.')) t ≡ true → All (λ c. (c == b'.') ≡ false) t
every-undotted [] e = tt
every-undotted (c ∷ cs) e = (ground arith, every-undotted cs (ground arith))

toy-IsHashHex : IsHashHex toy
toy-IsHashHex = record {
  hex_length = λ key message. refl;
  undotted = λ key message. every-undotted hash_hex refl;
}

abbrev header : Option AadHeader
header = some (record { kind = req; from = codes "dapp"; id = codes "req-1" })

abbrev sealed : Text
sealed = codes "AAAABSIweCI"

sealed_text : seal_payload toy (9 ∷ []) (codes "07") 5 (str "0x") header ≡ some sealed
unfolding seal_payload b64url_encode walletpair.Base64.btoa walletpair.Sdk.Crypto.Encodings.to_url
    walletpair.Sdk.Crypto.Encodings.drop_pads walletpair.Sdk.Crypto.Encodings.uint32
sealed_text = refl

unseal_payload-seal_example :
    unseal_payload toy (9 ∷ []) (codes "07") sealed header
    ≡ some (5, str "0x", plaintext_of toy (str "0x"))
unseal_payload-seal_example =
    unseal_payload-seal toy (9 ∷ []) (codes "07") sealed 5 (str "0x") (str "0x") header toy-IsCipher
      toy-IsUtf8 refl sealed_text

toy-IsAuthentic : IsAuthentic toy
toy-IsAuthentic key nonce aad ciphertext plaintext e = cc

unseal_payload-sealed_example :
    (aad : Bytes) × (bytes : Bytes) × (build_aad toy (codes "07") header ≡ some aad)
    × (b64url_decode sealed ≡ some bytes)
    × (bytes
        ≡ uint32 5
          ++ toy.encrypt
              (9 ∷ [])
              (take 12 (toy.hmac (9 ∷ []) (uint32 5)))
              aad
              (plaintext_of toy (str "0x")))
    × (5 ≤ max_seq)
    × (toy.parse_json (toy.decode_utf8 (plaintext_of toy (str "0x"))) ≡ some (str "0x"))
unseal_payload-sealed_example =
    unseal_payload-sealed toy (9 ∷ []) (plaintext_of toy (str "0x")) (codes "07") sealed header 5
      (str "0x") toy-IsAuthentic unseal_payload-seal_example

build_aad-Injective_example :
    (codes "7" ≡ codes "7")
    × (req ≡ req)
    × (map low_byte (codes "dapp") ≡ map low_byte (codes "dapp"))
    × (map low_byte (codes "req-1") ≡ map low_byte (codes "req-1"))
unfolding build_aad walletpair.Sdk.Crypto.Encodings.uint16
build_aad-Injective_example =
    build_aad-Injective toy (codes "07") (codes "07")
      (record { kind = req; from = codes "dapp"; id = codes "req-1" })
      (record { kind = req; from = codes "dapp"; id = codes "req-1" }) (codes "7") (codes "7")
      (55 ∷ 1 ∷ 0 ∷ 4 ∷ codes "dapp" ++ 0 ∷ 5 ∷ codes "req-1") refl refl refl refl refl

verify_snapshot_iff_example :
    (verify_snapshot toy (9 ∷ []) (hash_hex ++ codes ".{}") ≡ some (codes "{}"))
    ↔ (hash_hex ++ codes ".{}" ≡ sign_snapshot toy (9 ∷ []) (codes "{}"))
verify_snapshot_iff_example =
    verify_snapshot_iff toy (9 ∷ []) (hash_hex ++ codes ".{}") (codes "{}") toy-IsHashHex

abbrev params : List (Text × Text)
params =
    (codes "ch", hash_hex)
    ∷ (codes "pubkey", codes "AAAAAAAAAAAAAAAAAAAAAAAAAAAAAAAAAAAAAAAAAAA")
    ∷ (codes "icon", codes "https://dapp/icon.png")
    ∷ (codes "methods", codes "eth_sign,,eth_call")
    ∷ (codes "relay", codes "wss")
    ∷ (codes "name", codes "wss")
    ∷ (codes "url", codes "wss")
    ∷ []

unfoldable find_param : List (Text × Text) → Text → Option Text
unfolding constant_time_equal
find_param [] key = none
find_param ((k, v) ∷ rest) key = if constant_time_equal k key then some v else find_param rest key

abbrev toy_codec : UriCodec
toy_codec = record { get = λ qs. find_param params; encode_uri_component = λ text. text }

abbrev toy_params : PairingParams
toy_params = record {
  ch = hash_hex;
  pubkey = codes "AAAAAAAAAAAAAAAAAAAAAAAAAAAAAAAAAAAAAAAAAAA";
  relay = codes "wss";
  name = codes "wss";
  url = codes "wss";
  icon = codes "https://dapp/icon.png";
  methods = some (codes "eth_sign" ∷ codes "eth_call" ∷ []);
  chains = none;
}

toy_parsed : parse_pairing_uri toy_codec (codes "walletpair:?x") ≡ some toy_params
unfolding parse_pairing_uri b64url_decode walletpair.Base64.atob
    walletpair.Sdk.Crypto.Encodings.from_url find_param
toy_parsed = refl

parse_pairing_uri-IsPairing_example : IsPairing toy_params
parse_pairing_uri-IsPairing_example =
    parse_pairing_uri-IsPairing toy_codec (codes "walletpair:?x") toy_params toy_parsed
