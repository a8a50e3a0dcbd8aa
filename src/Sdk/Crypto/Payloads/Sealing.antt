-- ===== src/Sdk/Crypto/Payloads/Sealing.antt =====
-- What is sealed, when it is opened again.
use walletpair.Common.{
  ℕ, ◌≤◌, ◌≡◌, refl, ap, arith, Option, none, some, [], ◌∷◌, ◌++◌, All, ltb, take, drop, Bool-cases,
  inl, inr,
}
use walletpair.Json.{Json}
use walletpair.Sdk.Crypto.Encodings.{Bytes, Text, uint32, read_uint32, b64url_encode, b64url_decode}
use walletpair.Sdk.Crypto.Encodings.Base64url.{IsByte, b64url_decode-encode}
use walletpair.Sdk.Crypto.Primitives.{Primitives, IsCipher, IsUtf8}
use walletpair.Sdk.Crypto.Payloads.{
  AadHeader, max_seq, build_aad, nonce_of, plaintext_of, seal_with, seal_payload, open_bytes,
  unseal_payload,
}

append-bytes : (xs ys : Bytes) → All IsByte xs → All IsByte ys → All IsByte (xs ++ ys)
append-bytes [] ys h g = g
append-bytes (x ∷ xs) ys (p, h) g = (p, append-bytes xs ys h g)

uint32-All : (n : ℕ) → All IsByte (uint32 n)
unfolding uint32
uint32-All n = (omega arith, (omega arith, (omega arith, (omega arith, tt))))

read_uint32-uint32 : (n : ℕ) → n ≤ max_seq → read_uint32 (uint32 n) ≡ some n
unfolding read_uint32 uint32
read_uint32-uint32 n h = ap some (omega (arith, h))

take-uint32 : (n : ℕ) (rest : Bytes) → take 4 (uint32 n ++ rest) ≡ uint32 n
unfolding uint32
take-uint32 n rest = refl

drop-uint32 : (n : ℕ) (rest : Bytes) → drop 4 (uint32 n ++ rest) ≡ rest
unfolding uint32
drop-uint32 n rest = refl

module _ (p : Primitives) where
  -- Let the cipher decrypt what it has encrypted, and let the JSON of a value be parsed as some value
  -- once it is written in UTF-8 and read again. What is sealed with a number is opened under the same
  -- key, channel and header as that number, that value, and the plaintext that was encrypted.
  pub unseal_payload-seal :
      (key : Bytes) (ch sealed : Text) (seq : ℕ) (value back : Json) (header : Option AadHeader)
      → IsCipher p
      → IsUtf8 p
      → p.parse_json (p.decode_utf8 (plaintext_of p value)) ≡ some back
      → seal_payload p key ch seq value header ≡ some sealed
      → unseal_payload p key ch sealed header ≡ some (seq, back, plaintext_of p value)
  unfolding seal_payload unseal_payload
  unseal_payload-seal key ch sealed seq value back header c u j e =
      elim (Bool-cases (ltb max_seq seq)) [
        | inl f ↦ absurd (let g = rw f at e in cc)
        | inr f ↦ go (build_aad p ch header) (rw f at e) (ground arith)
      ]
    where
      go :
          (aad : Option Bytes)
          → seal_with p aad key seq value ≡ some sealed
          → seq ≤ max_seq
          → open_bytes p (b64url_decode sealed) aad key ≡ some (seq, back, plaintext_of p value)
      go none g l = cc
      go (some aad) g l =
          let cipher = p.encrypt key (nonce_of p key (uint32 seq)) aad (plaintext_of p value) in
          let plain = u.encoded (p.canonical_json value) in
          let written : sealed ≡ b64url_encode (uint32 seq ++ cipher) = cc in
          let bytes =
            append-bytes (uint32 seq) cipher (uint32-All seq)
              (c.encrypted key (nonce_of p key (uint32 seq)) aad (plaintext_of p value) plain) in
          rw (written, b64url_decode-encode (uint32 seq ++ cipher) bytes)
            (rw (take-uint32 seq cipher, drop-uint32 seq cipher)
              (rw (c.decrypted key (nonce_of p key (uint32 seq)) aad (plaintext_of p value) plain)
                (rw (read_uint32-uint32 seq l, j) refl)))
