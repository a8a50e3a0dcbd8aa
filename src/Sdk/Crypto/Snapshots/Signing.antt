-- ===== src/Sdk/Crypto/Snapshots/Signing.antt =====
-- What a signed snapshot is verified as.
use walletpair.Common.{
  ℕ, suc, true, false, Option, none, some, [], ◌∷◌, ◌++◌, ◌≡◌, ◌↔◌, refl, sym, ap, ◌∙◌, arith, All,
  ◌==◌, if◌then◌else◌, length, take, drop, Bool-cases, Option-cases, inl, inr,
}
use walletpair.Sdk.Crypto.Encodings.{Bytes, Text}
use walletpair.Sdk.Crypto.Primitives.{Primitives}
use walletpair.Sdk.Crypto.Snapshots.{
  compare_codes, constant_time_equal, index_of, is_at, mac_hex, sign_snapshot, verify_snapshot,
}

-- The hex of a hash: 64 characters, and none of them a dot.
pub record IsHashHex (p : Primitives) : Type 0 where
  pub hex_length : (key message : Bytes) → length (p.bytes_to_hex (p.hmac key message)) ≡ 64
  pub undotted :
      (key message : Bytes) → All (λ c. (c == b'.') ≡ false) (p.bytes_to_hex (p.hmac key message))

compare_codes-false : (a b : Text) → compare_codes false a b ≡ false
unfolding compare_codes
compare_codes-false [] b = refl
compare_codes-false (x ∷ xs) [] = refl
compare_codes-false (x ∷ xs) (y ∷ ys) = compare_codes-false xs ys

compare_codes_sound : (a b : Text) → length a ≡ length b → compare_codes true a b ≡ true → a ≡ b
unfolding compare_codes
compare_codes_sound [] [] l e = refl
compare_codes_sound [] (y ∷ ys) l e = absurd (omega (arith, l))
compare_codes_sound (x ∷ xs) [] l e = absurd (omega (arith, l))
compare_codes_sound (x ∷ xs) (y ∷ ys) l e = elim (Bool-cases (x == y)) [
  | inl f ↦
      let ih = compare_codes_sound xs ys (omega (arith, l)) (rw f at e) in
      let g : x ≡ y = ground arith in rw (g, ih) refl
  | inr f ↦ absurd (let g = rw (f, compare_codes-false xs ys) at e in cc)
]

compare_codes_same : (a : Text) → compare_codes true a a ≡ true
unfolding compare_codes
compare_codes_same [] = refl
compare_codes_same (x ∷ xs) = let f : (x == x) ≡ true = ground arith in rw f (compare_codes_same xs)

-- The comparison that looks at every character holds for equal texts only.
pub constant_time_equal_iff : (a b : Text) → (constant_time_equal a b ≡ true) ↔ (a ≡ b)
unfolding constant_time_equal
constant_time_equal_iff a b = (forth, back)
  where
    forth : (if length a == length b then compare_codes true a b else false) ≡ true → a ≡ b
    forth e = elim (Bool-cases (length a == length b)) [
      | inl f ↦ compare_codes_sound a b (ground arith) (rw f at e)
      | inr f ↦ absurd (let g = rw f at e in cc)
    ]

    back : a ≡ b → (if length a == length b then compare_codes true a b else false) ≡ true
    back e =
        let f : (length b == length b) ≡ true = ground arith in rw (e, f) (compare_codes_same b)

index_of_split :
    (c : ℕ) (t : Text) (n : ℕ) → index_of c t ≡ some n → t ≡ take n t ++ c ∷ drop (suc n) t
unfolding index_of
index_of_split c [] n e = cc
index_of_split c (x ∷ xs) n e = elim (Bool-cases (x == c)) [
  | inl f ↦
      let g : x ≡ c = ground arith in let h : 0 ≡ n = let i = rw f at e in cc in rw⁻¹ h (rw g refl)
  | inr f ↦ elim (Option-cases (index_of c xs)) [
    | inl h ↦ absurd (let i = rw (f, h) at e in cc)
    | inr (m, h) ↦
        let i : suc m ≡ n = let j = rw (f, h) at e in cc in
        rw⁻¹ i (ap (◌∷◌ x) (index_of_split c xs m h))
  ]
]

index_of-append :
    (c : ℕ) (xs ys : Text)
    → All (λ x. (x == c) ≡ false) xs
    → index_of c (xs ++ c ∷ ys) ≡ some (length xs)
unfolding index_of
index_of-append c [] ys h = let f : (c == c) ≡ true = ground arith in rw f refl
index_of-append c (x ∷ xs) ys (f, h) = rw (f, index_of-append c xs ys h) refl

take_append : (xs ys : Text) → take (length xs) (xs ++ ys) ≡ xs
take_append [] ys = refl
take_append (x ∷ xs) ys = ap (◌∷◌ x) (take_append xs ys)

drop-append : (xs ys : Text) (c : ℕ) → drop (suc (length xs)) (xs ++ c ∷ ys) ≡ ys
drop-append [] ys c = refl
drop-append (x ∷ xs) ys c = drop-append xs ys c

is_at-some : (n : ℕ) (i : Option ℕ) → is_at n i ≡ true → i ≡ some n
is_at-some n none e = cc
is_at-some n (some m) e = ap some (ground arith)

module _ (p : Primitives) where
  verify_snapshot-signed :
      (key : Bytes) (signed json : Text)
      → verify_snapshot p key signed ≡ some json
      → signed ≡ sign_snapshot p key json
  unfolding verify_snapshot sign_snapshot
  verify_snapshot-signed key signed json e = elim (Bool-cases (is_at 64 (index_of b'.' signed))) [
    | inr f ↦ absurd (let g = rw f at e in cc)
    | inl f ↦
        elim (Bool-cases (constant_time_equal (take 64 signed) (mac_hex p key (drop 65 signed)))) [
          | inr g ↦ absurd (let h = rw (f, g) at e in cc)
          | inl g ↦
              let h : drop 65 signed ≡ json = let i = rw (f, g) at e in cc in
              let mac = (constant_time_equal_iff (take 64 signed) _).0 g in
              index_of_split b'.' signed 64 (is_at-some 64 (index_of b'.' signed) f)
              ∙ ap (λ t. t ++ b'.' ∷ drop 65 signed) mac
              ∙ ap (λ t. mac_hex p key t ++ b'.' ∷ t) h
        ]
  ]

  sign_snapshot-verified :
      (key : Bytes) (json : Text)
      → IsHashHex p
      → verify_snapshot p key (sign_snapshot p key json) ≡ some json
  unfolding verify_snapshot sign_snapshot
  sign_snapshot-verified key json h =
      let mac : Text = mac_hex p key json in
      let t : Text = mac ++ b'.' ∷ json in
      let l : length mac ≡ 64 = h.hex_length _ (p.utf8_to_bytes json) in
      let i : index_of b'.' t ≡ some 64 =
        index_of-append b'.' mac json (h.undotted _ (p.utf8_to_bytes json)) ∙ ap some l in
      let front : take 64 t ≡ mac = ap (λ n. take n t) (sym l) ∙ take_append mac (b'.' ∷ json) in
      let rest : drop 65 t ≡ json = ap (λ n. drop (suc n) t) (sym l) ∙ drop-append mac json b'.' in
      rw (i, front, rest, (constant_time_equal_iff mac mac).1 refl) refl

  -- Where the hex of a hash has 64 characters and no dot: a text is verified as a JSON text exactly
  -- if it is what signing that JSON text under the same key gives.
  pub verify_snapshot_iff :
      (key : Bytes) (signed json : Text)
      → IsHashHex p
      → (verify_snapshot p key signed ≡ some json) ↔ (signed ≡ sign_snapshot p key json)
  verify_snapshot_iff key signed json h =
      (verify_snapshot-signed key signed json, λ e. rw e (sign_snapshot-verified key json h))
