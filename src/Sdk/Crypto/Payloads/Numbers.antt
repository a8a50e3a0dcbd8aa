-- ===== src/Sdk/Crypto/Payloads/Numbers.antt =====
-- What a payload that is opened is made of.
use walletpair.Common.{
  ℕ, zero, suc, ◌+◌, ◌*◌, ◌/◌, ◌%◌, ◌≤◌, ◌<◌, ◌≡◌, refl, sym, ap, ◌∙◌, subst, arith, Option, none,
  some, List, [], ◌∷◌, ◌++◌, All, ◌==◌, if◌then◌else◌, length, take, drop, Bool-cases, Option-cases,
  inl, inr,
}
use walletpair.Json.{Json}
use walletpair.Base64.{sextet, sextets, pack, strip_padding, drop_spaces, atob}
use walletpair.Sdk.Crypto.Encodings.{Bytes, Text, uint32, read_uint32, b64url_decode}
use walletpair.Sdk.Crypto.Encodings.Base64url.{IsByte}
use walletpair.Sdk.Crypto.Primitives.{Primitives}
use walletpair.Sdk.Crypto.Payloads.{
  AadHeader, max_seq, build_aad, nonce_of, parsed, opened, open_bytes, unseal_payload,
}

sextet-bound : (c n : ℕ) → sextet c ≡ some n → n < 64
unfolding sextet
sextet-bound c n e = ground arith

pack-All : (ns : List ℕ) → All (λ n. n < 64) ns → All IsByte (pack ns)
unfolding pack
pack-All [] h = h
pack-All (a ∷ []) h = tt
pack-All (a ∷ b ∷ []) h = (omega (arith, h.0, h.1.0), tt)
pack-All (a ∷ b ∷ c ∷ []) h = (omega (arith, h.0, h.1.0), (omega (arith, h.1.0, h.1.1.0), tt))
pack-All (a ∷ b ∷ c ∷ d ∷ rest) h = (
  omega (arith, h.0, h.1.0),
  (omega (arith, h.1.0, h.1.1.0), (omega (arith, h.1.1.0, h.1.1.1.0), pack-All rest h.1.1.1.1)),
)

sextets-bound : (cs ns : List ℕ) → sextets cs ≡ some ns → All (λ n. n < 64) ns
unfolding sextets
sextets-bound [] ns e = let f : [] ≡ ns = cc in subst (All (λ n. n < 64)) f tt
sextets-bound (c ∷ cs) ns e = elim (Option-cases (sextet c)) [
  | inl f ↦ absurd (let g = rw f at e in cc)
  | inr (n, f) ↦ elim (Option-cases (sextets cs)) [
    | inl h ↦ absurd (let g = rw (f, h) at e in cc)
    | inr (ms, h) ↦
        let g : n ∷ ms ≡ ns = let i = rw (f, h) at e in cc in
        subst (All (λ n. n < 64)) g (sextet-bound c n f, sextets-bound cs ms h)
  ]
]

-- What is decoded are bytes.
atob-All : (text bytes : List ℕ) → atob text ≡ some bytes → All IsByte bytes
unfolding atob
atob-All text bytes e = go (strip_padding (drop_spaces text)) e
  where
    go :
        (s : List ℕ)
        → (if length s % 4 == 1
            then none
            else elim (sextets s) [ none ↦ none | some ns ↦ some (pack ns) ])
          ≡ some bytes
        → All IsByte bytes
    go s f = elim (Bool-cases (length s % 4 == 1)) [
      | inl g ↦ absurd (let h = rw g at f in cc)
      | inr g ↦ elim (Option-cases (sextets s)) [
        | inl h ↦ absurd (let i = rw (g, h) at f in cc)
        | inr (ns, h) ↦
            let i : pack ns ≡ bytes = let j = rw (g, h) at f in cc in
            subst (All IsByte) i (pack-All ns (sextets-bound s ns h))
      ]
    ]

take-All : (n : ℕ) (bytes : Bytes) → All IsByte bytes → All IsByte (take n bytes)
take-All zero bytes h = tt
take-All (suc n) [] h = tt
take-All (suc n) (b ∷ bytes) h = (h.0, take-All n bytes h.1)

read_uint32-bound :
    (bytes : Bytes) (n : ℕ) → All IsByte bytes → read_uint32 bytes ≡ some n → n ≤ max_seq
unfolding read_uint32
read_uint32-bound [] n h e = cc
read_uint32-bound (a ∷ []) n h e = cc
read_uint32-bound (a ∷ b ∷ []) n h e = cc
read_uint32-bound (a ∷ b ∷ c ∷ []) n h e = cc
read_uint32-bound (a ∷ b ∷ c ∷ d ∷ rest) n h e =
    let f : (((a * 256 + b) * 256 + c) * 256 + d) ≡ n = cc in
    omega (arith, f, h.0, h.1.0, h.1.1.0, h.1.1.1.0)

-- The digits that a number is read from are those that it is written as.
take_4-uint32 :
    (bytes : Bytes) (n : ℕ)
    → All IsByte bytes
    → read_uint32 (take 4 bytes) ≡ some n
    → take 4 bytes ≡ uint32 n
unfolding read_uint32 uint32
take_4-uint32 [] n h e = cc
take_4-uint32 (a ∷ []) n h e = cc
take_4-uint32 (a ∷ b ∷ []) n h e = cc
take_4-uint32 (a ∷ b ∷ c ∷ []) n h e = cc
take_4-uint32 (a ∷ b ∷ c ∷ d ∷ rest) n h e =
    let f : ((a * 256 + b) * 256 + c) * 256 + d ≡ n = cc in
    let i : a ≡ n / 16777216 % 256 = omega (arith, f, h.0, h.1.0, h.1.1.0, h.1.1.1.0) in
    let j : b ≡ n / 65536 % 256 = omega (arith, f, h.0, h.1.0, h.1.1.0, h.1.1.1.0) in
    let l : c ≡ n / 256 % 256 = omega (arith, f, h.0, h.1.0, h.1.1.0, h.1.1.1.0) in
    let m : d ≡ n % 256 = omega (arith, f, h.0, h.1.0, h.1.1.0, h.1.1.1.0) in cc

take_4-drop_4 : (bytes : Bytes) → take 4 bytes ++ drop 4 bytes ≡ bytes
take_4-drop_4 [] = refl
take_4-drop_4 (a ∷ []) = refl
take_4-drop_4 (a ∷ b ∷ []) = refl
take_4-drop_4 (a ∷ b ∷ c ∷ []) = refl
take_4-drop_4 (a ∷ b ∷ c ∷ d ∷ rest) = refl

-- A cipher that decrypts only what it would encrypt, under the same key, nonce and additional data:
-- that is what the tag is compared for.
abbrev pub IsAuthentic : Primitives → Type 0
IsAuthentic p =
    (key nonce aad ciphertext plaintext : Bytes)
    → p.decrypt key nonce aad ciphertext ≡ some plaintext
    → ciphertext ≡ p.encrypt key nonce aad plaintext

module _ (p : Primitives) (authentic : IsAuthentic p) (seq : ℕ) (value : Json)
    (key plaintext : Bytes) where
  -- What an opened envelope is made of.
  abbrev IsSealed : Bytes → Bytes → Type 0
  IsSealed aad bytes =
      (bytes ≡ uint32 seq ++ p.encrypt key (take 12 (p.hmac key (uint32 seq))) aad plaintext)
      × (seq ≤ max_seq)
      × (p.parse_json (p.decode_utf8 plaintext) ≡ some value)

  opened-IsSealed :
      (aad bytes : Bytes) (t : Option Bytes)
      → All IsByte bytes
      → p.decrypt key (nonce_of p key (take 4 bytes)) aad (drop 4 bytes) ≡ t
      → opened p t (take 4 bytes) ≡ some (seq, value, plaintext)
      → IsSealed aad bytes
  opened-IsSealed aad bytes none h d e = cc
  opened-IsSealed aad bytes (some t) h d e = elim (Option-cases (read_uint32 (take 4 bytes))) [
    | inl f ↦ absurd (let g = rw f at e in cc)
    | inr (n, f) ↦ go n (p.parse_json (p.decode_utf8 t)) f refl (rw f at e)
  ]
    where
      go :
          (n : ℕ) (v : Option Json)
          → read_uint32 (take 4 bytes) ≡ some n
          → p.parse_json (p.decode_utf8 t) ≡ v
          → parsed p n t v ≡ some (seq, value, plaintext)
          → IsSealed aad bytes
      go n none f j l = cc
      go n (some v) f j l =
          let same : n ≡ seq = cc in
          let text : t ≡ plaintext = cc in
          let read : v ≡ value = cc in
          let digits : take 4 bytes ≡ uint32 seq = take_4-uint32 bytes n h f ∙ ap uint32 same in
          let rest : drop 4 bytes
              ≡ p.encrypt key (take 12 (p.hmac key (uint32 seq))) aad plaintext =
            authentic key (take 12 (p.hmac key (take 4 bytes))) aad (drop 4 bytes) t d
            ∙ ap (λ x. p.encrypt key (take 12 (p.hmac key x)) aad t) digits
            ∙ ap (p.encrypt key (take 12 (p.hmac key (uint32 seq))) aad) text in
          (
            sym (take_4-drop_4 bytes)
                ∙ ap (λ x. x ++ drop 4 bytes) digits
                ∙ ap (λ x. uint32 seq ++ x) rest,
            rw⁻¹ same (read_uint32-bound (take 4 bytes) n (take-All 4 bytes h) f),
            rw⁻¹ (read, text) j,
          )

  open_bytes-IsSealed :
      (bytes aad : Option Bytes)
      → ((b : Bytes) → bytes ≡ some b → All IsByte b)
      → open_bytes p bytes aad key ≡ some (seq, value, plaintext)
      → (a : Bytes) × (b : Bytes) × (aad ≡ some a) × (bytes ≡ some b) × IsSealed a b
  open_bytes-IsSealed none aad h e = cc
  open_bytes-IsSealed (some bytes) none h e = cc
  open_bytes-IsSealed (some bytes) (some a) h e =
      (a, bytes, refl, refl, opened-IsSealed a bytes _ (h bytes refl) refl e)

module _ (p : Primitives) where
  -- Let the cipher decrypt only what it would encrypt under the same key, nonce and additional data.
  -- Whatever text is opened, under whatever key, channel and header, is the base64url of the number
  -- in four bytes and of what the cipher makes of the plaintext with the nonce of the key and that
  -- number and with the additional data of that channel and header; the number is at most 2^32 - 1,
  -- and the value is what the JSON of the plaintext is parsed to.
  pub unseal_payload-sealed :
      (key plaintext : Bytes) (ch sealed : Text) (header : Option AadHeader) (seq : ℕ)
      (value : Json)
      → IsAuthentic p
      → unseal_payload p key ch sealed header ≡ some (seq, value, plaintext)
      → (aad : Bytes) × (bytes : Bytes) × (build_aad p ch header ≡ some aad)
        × (b64url_decode sealed ≡ some bytes)
        × (bytes ≡ uint32 seq ++ p.encrypt key (take 12 (p.hmac key (uint32 seq))) aad plaintext)
        × (seq ≤ max_seq)
        × (p.parse_json (p.decode_utf8 plaintext) ≡ some value)
  unfolding unseal_payload b64url_decode
  unseal_payload-sealed key plaintext ch sealed header seq value authentic e =
      let (aad, bytes, headed, decoded, made) =
        open_bytes-IsSealed p authentic seq value key plaintext (b64url_decode sealed)
          (build_aad p ch header) (λ b. atob-All _ b) e in
      let (whole, bound, read) = made in (aad, bytes, headed, decoded, whole, bound, read)
