-- ===== src/Sdk/Crypto/Payloads/Headers.antt =====
-- The additional data of a payload, and the number of one that is opened.
use walletpair.Common.{
  ℕ, ◌/◌, ◌%◌, ◌≤◌, ◌≡◌, refl, sym, ap, ◌∙◌, arith, Option, none, some, [], ◌∷◌, ◌++◌, ltb, length,
  append_assoc, Bool-cases, inl, inr,
}
use walletpair.Sdk.Crypto.Encodings.{Bytes, Text, uint16}
use walletpair.Sdk.Crypto.Primitives.{Primitives}
use walletpair.Sdk.Crypto.Keys.{lp, ◌+?◌}
use walletpair.Sdk.Crypto.Payloads.{AadHeader, HeaderType, req, res, evt, type_byte, build_aad}

append-split :
    (xs ys us vs : Bytes) → length xs ≡ length ys → xs ++ us ≡ ys ++ vs → (xs ≡ ys) × (us ≡ vs)
append-split [] [] us vs l e = (refl, e)
append-split [] (y ∷ ys) us vs l e = absurd (omega (arith, l))
append-split (x ∷ xs) [] us vs l e = absurd (omega (arith, l))
append-split (x ∷ xs) (y ∷ ys) us vs l e =
    let h : x ≡ y = cc in
    let t : xs ++ us ≡ ys ++ vs = cc in
    let (p, q) = append-split xs ys us vs (omega (arith, l)) t in (rw (h, p) refl, q)

type_byte-same : (a b : HeaderType) → type_byte a ≡ type_byte b → a ≡ b
type_byte-same req req e = refl
type_byte-same req res e = absurd (omega (arith, e))
type_byte-same req evt e = absurd (omega (arith, e))
type_byte-same res req e = absurd (omega (arith, e))
type_byte-same res res e = refl
type_byte-same res evt e = absurd (omega (arith, e))
type_byte-same evt req e = absurd (omega (arith, e))
type_byte-same evt res e = absurd (omega (arith, e))
type_byte-same evt evt e = refl

uint16-split :
    (m k : ℕ) (us vs : Bytes)
    → m ≤ 0xffff
    → k ≤ 0xffff
    → uint16 m ++ us ≡ uint16 k ++ vs
    → (m ≡ k) × (us ≡ vs)
unfolding uint16
uint16-split m k us vs a b e =
    let h : m / 256 % 256 ≡ k / 256 % 256 = cc in
    let l : m % 256 ≡ k % 256 = cc in let t : us ≡ vs = cc in (omega (arith, h, l), t)

module _ (p : Primitives) where
  lp-some :
      (s : Text) (a : Bytes)
      → lp p s ≡ some a
      → (length (p.utf8_to_bytes s) ≤ 0xffff)
        × (a ≡ uint16 (length (p.utf8_to_bytes s)) ++ p.utf8_to_bytes s)
  unfolding lp
  lp-some s a e = elim (Bool-cases (ltb 0xffff (length (p.utf8_to_bytes s)))) [
    | inl h ↦ absurd (let i = rw h at e in cc)
    | inr h ↦ (ground arith, (let i = rw h at e in cc))
  ]

  -- A text with its length is told from what follows it.
  lp-split :
      (s t : Text) (a b us vs : Bytes)
      → lp p s ≡ some a
      → lp p t ≡ some b
      → a ++ us ≡ b ++ vs
      → (p.utf8_to_bytes s ≡ p.utf8_to_bytes t) × (us ≡ vs)
  lp-split s t a b us vs e f g =
      let x = p.utf8_to_bytes s in
      let y = p.utf8_to_bytes t in
      let (m, c) = lp-some s a e in
      let (n, d) = lp-some t b f in
      let h : uint16 (length x) ++ (x ++ us) ≡ uint16 (length y) ++ (y ++ vs) =
        sym (append_assoc (uint16 (length x)) x us)
        ∙ ap (λ z. z ++ us) (sym c)
        ∙ g
        ∙ ap (λ z. z ++ vs) d
        ∙ append_assoc (uint16 (length y)) y vs in
      let (l, r) = uint16-split (length x) (length y) (x ++ us) (y ++ vs) m n h in
      append-split x y us vs l r

  -- Additional data with a header, for channels whose ids are as long, are the same only if the
  -- channels' bytes, the types, and the bytes of the senders and of the ids are.
  pub build_aad-Injective :
      (ch ch' : Text) (h h' : AadHeader) (c c' aad : Bytes)
      → p.hex_to_bytes ch ≡ some c
      → p.hex_to_bytes ch' ≡ some c'
      → length c ≡ length c'
      → build_aad p ch (some h) ≡ some aad
      → build_aad p ch' (some h') ≡ some aad
      → (c ≡ c')
        × (h.kind ≡ h'.kind)
        × (p.utf8_to_bytes h.from ≡ p.utf8_to_bytes h'.from)
        × (p.utf8_to_bytes h.id ≡ p.utf8_to_bytes h'.id)
  unfolding build_aad
  build_aad-Injective ch ch' h h' c c' aad x y l e f =
      go (lp p h.from) (lp p h.id) (lp p h'.from) (lp p h'.id) refl refl refl refl (rw x at e)
        (rw y at f)
    where
      go :
          (a b a' b' : Option Bytes)
          → lp p h.from ≡ a
          → lp p h.id ≡ b
          → lp p h'.from ≡ a'
          → lp p h'.id ≡ b'
          → (some c +? some (type_byte h.kind ∷ []) +? a +? b) ≡ some aad
          → (some c' +? some (type_byte h'.kind ∷ []) +? a' +? b') ≡ some aad
          → (c ≡ c')
            × (h.kind ≡ h'.kind)
            × (p.utf8_to_bytes h.from ≡ p.utf8_to_bytes h'.from)
            × (p.utf8_to_bytes h.id ≡ p.utf8_to_bytes h'.id)
      go (some a) (some b) (some a') (some b') q r q' r' e f =
          let t : c ++ type_byte h.kind ∷ (a ++ b) ≡ c' ++ type_byte h'.kind ∷ (a' ++ b') = cc in
          let (i, j) = append-split c c' _ _ l t in
          let k : type_byte h.kind ≡ type_byte h'.kind = cc in
          let m : a ++ b ≡ a' ++ b' = cc in
          let (from_same, n) = lp-split h.from h'.from a a' b b' q q' m in
          let (id_same, _) = lp-split h.id h'.id b b' [] [] r r' (ap (λ z. z ++ []) n) in
          (i, type_byte-same h.kind h'.kind k, from_same, id_same)
      go none b a' b' q r q' r' e f = cc
      go (some a) none a' b' q r q' r' e f = cc
      go (some a) (some b) none b' q r q' r' e f = cc
      go (some a) (some b) (some a') none q r q' r' e f = cc
