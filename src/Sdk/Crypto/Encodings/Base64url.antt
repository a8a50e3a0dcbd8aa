-- ===== src/Sdk/Crypto/Encodings/Base64url.antt =====
-- Base64url without padding, and what it decodes to.
use walletpair.Common.{
  ℕ, ◌+◌, ◌*◌, ◌/◌, ◌%◌, ◌<◌, ◌≡◌, refl, sym, ap, ◌∙◌, inl, inr, some, List, [], ◌∷◌, map,
  append-nil, All, arith, ◌⊎◌, length,
}
use walletpair.Base64.{sextet, sextets, pack, letter, btoa}
use walletpair.Base64.Decoding.{IsLetter, atob_whole, atob_two, atob_one}
use walletpair.Sdk.Crypto.Encodings.{
  Bytes, Text, to_url, from_url, drop_pads, b64url_encode, b64url_decode,
}

-- The six bits of each character.
unfoldable groups : Bytes → List ℕ
groups (a ∷ b ∷ c ∷ rest) =
    a / 4 ∷ (a % 4 * 16 + b / 16) ∷ (b % 16 * 4 + c / 64) ∷ c % 64 ∷ groups rest
groups (a ∷ b ∷ []) = a / 4 ∷ (a % 4 * 16 + b / 16) ∷ b % 16 * 4 ∷ []
groups (a ∷ []) = a / 4 ∷ a % 4 * 16 ∷ []
groups [] = []

abbrev pub IsByte : ℕ → Type 0
IsByte n = n < 256

abbrev IsSextet : ℕ → Type 0
IsSextet n = n < 64

sextet-letter : (n : ℕ) → IsSextet n → sextet (letter n) ≡ some n
unfolding sextet letter
sextet-letter n h = ground arith

to_url-letter : (n : ℕ) → IsSextet n → from_url (to_url (letter n)) ≡ letter n
unfolding from_url to_url letter
to_url-letter n h = ground arith

drop_pads-letter :
    (n : ℕ) (cs : Text)
    → IsSextet n
    → drop_pads (to_url (letter n) ∷ cs) ≡ to_url (letter n) ∷ drop_pads cs
unfolding drop_pads to_url letter
drop_pads-letter n cs h = ground arith

groups-All : (bytes : Bytes) → All IsByte bytes → All IsSextet (groups bytes)
unfolding groups
groups-All [] h = h
groups-All (a ∷ []) h = (omega (arith, h.0), (omega (arith, h.0), h.1))
groups-All (a ∷ b ∷ []) h =
    (omega (arith, h.0), (omega (arith, h.0, h.1.0), (omega (arith, h.1.0), h.1.1)))
groups-All (a ∷ b ∷ c ∷ rest) h = (
  omega (arith, h.0),
  (
    omega (arith, h.0, h.1.0),
    (omega (arith, h.1.0, h.1.1.0), (omega (arith, h.1.1.0), groups-All rest h.1.1.1)),
  ),
)

pack-groups : (bytes : Bytes) → All IsByte bytes → pack (groups bytes) ≡ bytes
unfolding groups pack
pack-groups [] h = refl
pack-groups (a ∷ []) h = let p : (a / 4 * 4 + a % 4 * 16 / 16) ≡ a = omega arith in rw p refl
pack-groups (a ∷ b ∷ []) h =
    let p : (a / 4 * 4 + (a % 4 * 16 + b / 16) / 16) ≡ a = omega (arith, h.0, h.1.0) in
    let q : ((a % 4 * 16 + b / 16) % 16 * 16 + b % 16 * 4 / 4) ≡ b = omega (arith, h.1.0) in
    rw (p, q) refl
pack-groups (a ∷ b ∷ c ∷ rest) h =
    let p : (a / 4 * 4 + (a % 4 * 16 + b / 16) / 16) ≡ a = omega (arith, h.0, h.1.0) in
    let q : ((a % 4 * 16 + b / 16) % 16 * 16 + (b % 16 * 4 + c / 64) / 4) ≡ b =
      omega (arith, h.1.0, h.1.1.0) in
    let r : ((b % 16 * 4 + c / 64) % 4 * 64 + c % 64) ≡ c = omega (arith, h.1.1.0) in
    rw (p, q, r, pack-groups rest h.1.1.1) refl

sextets-letters : (ns : List ℕ) → All IsSextet ns → sextets (map letter ns) ≡ some ns
unfolding sextets
sextets-letters [] h = refl
sextets-letters (n ∷ ns) (p, h) = rw (sextet-letter n p, sextets-letters ns h) refl

letters-All : (ns : List ℕ) → All IsSextet ns → All IsLetter (map letter ns)
letters-All [] h = h
letters-All (n ∷ ns) (p, h) = ((λ e. let f = sym (sextet-letter n p) ∙ e in cc), letters-All ns h)

-- What is read back of a text that a digit starts.
first_letter :
    (n : ℕ) (cs : Text)
    → IsSextet n
    → map from_url (drop_pads (to_url (letter n) ∷ cs)) ≡ letter n ∷ map from_url (drop_pads cs)
first_letter n cs h =
    rw (drop_pads-letter n cs h) (ap (λ c. c ∷ map from_url (drop_pads cs)) (to_url-letter n h))

no_letter : map from_url (drop_pads []) ≡ []
unfolding drop_pads
no_letter = refl

one_pad : map from_url (drop_pads (to_url b'=' ∷ [])) ≡ []
unfolding drop_pads to_url
one_pad = refl

two_pads : map from_url (drop_pads (to_url b'=' ∷ to_url b'=' ∷ [])) ≡ []
unfolding drop_pads to_url
two_pads = refl

-- What the encoder writes is one character for each six bits.
read_groups :
    (bytes : Bytes)
    → All IsByte bytes
    → map from_url (drop_pads (map to_url (btoa bytes))) ≡ map letter (groups bytes)
unfolding groups btoa
read_groups [] h = no_letter
read_groups (a ∷ []) h =
    let (p, (q, _)) = groups-All (a ∷ []) h in
    first_letter (a / 4) _ p
    ∙ ap (◌∷◌ (letter (a / 4)))
        (first_letter (a % 4 * 16) _ q ∙ ap (◌∷◌ (letter (a % 4 * 16))) two_pads)
read_groups (a ∷ b ∷ []) h =
    let (p, (q, (r, _))) = groups-All (a ∷ b ∷ []) h in
    first_letter (a / 4) _ p
    ∙ ap (◌∷◌ (letter (a / 4))) (
        first_letter (a % 4 * 16 + b / 16) _ q
        ∙ ap (◌∷◌ (letter (a % 4 * 16 + b / 16)))
            (first_letter (b % 16 * 4) _ r ∙ ap (◌∷◌ (letter (b % 16 * 4))) one_pad))
read_groups (a ∷ b ∷ c ∷ rest) h =
    let (p, (q, (r, (t, _)))) = groups-All (a ∷ b ∷ c ∷ rest) h in
    first_letter (a / 4) _ p
    ∙ ap (◌∷◌ (letter (a / 4))) (
        first_letter (a % 4 * 16 + b / 16) _ q
        ∙ ap (◌∷◌ (letter (a % 4 * 16 + b / 16))) (
            first_letter (b % 16 * 4 + c / 64) _ r
            ∙ ap (◌∷◌ (letter (b % 16 * 4 + c / 64))) (
                first_letter (c % 64) _ t ∙ ap (◌∷◌ (letter (c % 64))) (read_groups rest h.1.1.1))))

length-groups :
    (bytes : Bytes)
    → (length (map letter (groups bytes)) % 4 ≡ 0)
      ⊎ ((length (map letter (groups bytes)) % 4 ≡ 2)
          ⊎ (length (map letter (groups bytes)) % 4 ≡ 3))
unfolding groups
length-groups [] = inl refl
length-groups (a ∷ []) = inr (inl refl)
length-groups (a ∷ b ∷ []) = inr (inr refl)
length-groups (a ∷ b ∷ c ∷ rest) = let ih = length-groups rest in ground arith

-- Whatever bytes are encoded, they are decoded again.
pub b64url_decode-encode :
    (bytes : Bytes) → All IsByte bytes → b64url_decode (b64url_encode bytes) ≡ some bytes
unfolding b64url_decode b64url_encode
b64url_decode-encode bytes h =
    let ns = groups bytes in
    let cs = map letter ns in
    let l = letters-All ns (groups-All bytes h) in
    let e = sextets-letters ns (groups-All bytes h) in
    rw (read_groups bytes h) (elim (length-groups bytes) [
      | inl z ↦ rw z (rw (append-nil cs) (atob_whole cs l ns z e ∙ ap some (pack-groups bytes h)))
      | inr (inl z) ↦ rw z (atob_two cs l ns z e ∙ ap some (pack-groups bytes h))
      | inr (inr z) ↦ rw z (atob_one cs l ns z e ∙ ap some (pack-groups bytes h))
    ])
