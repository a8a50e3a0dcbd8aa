-- ===== src/Base64/Decoding.antt =====
-- What `atob` makes of a text of the alphabet, with its padding or without.
use mathlib.Core.List.{append-nil, append_assoc}
use walletpair.Common.{
  ℕ, suc, ◌*◌, ◌/◌, ◌%◌, ◌≡◌, ◌≢◌, refl, ap, ◌∙◌, inl, inr, ◌++◌, List, [], ◌∷◌, none, some, All,
  Option-cases, arith, length, length-append, ◌==◌, false,
}
use walletpair.Base64.{sextet, sextets, pack, strip, strip_padding, drop_spaces, atob}

-- A character of the alphabet.
abbrev pub IsLetter : ℕ → Type 0
IsLetter c = sextet c ≢ none

pub length-pack : (ns : List ℕ) → length (pack ns) ≡ length ns * 3 / 4
unfolding pack
length-pack [] = omega arith
length-pack (a ∷ []) = omega arith
length-pack (a ∷ b ∷ []) = omega arith
length-pack (a ∷ b ∷ c ∷ []) = omega arith
length-pack (a ∷ b ∷ c ∷ d ∷ rest) = omega (arith, length-pack rest)

pub sextets-All :
    (cs : List ℕ)
    → All IsLetter cs
    → (ns : List ℕ) × (sextets cs ≡ some ns) × (length ns ≡ length cs)
unfolding sextets
sextets-All [] h = ([], refl, refl)
sextets-All (c ∷ cs) (p, h) = elim (Option-cases (sextet c)) [
  | inl e ↦ absurd (p e)
  | inr (n, e) ↦ let (ns, f, l) = sextets-All cs h in (n ∷ ns, rw (e, f), ap suc l)
]

drop_spaces-append :
    (cs ds : List ℕ) → All IsLetter cs → drop_spaces (cs ++ ds) ≡ cs ++ drop_spaces ds
unfolding drop_spaces sextet
drop_spaces-append [] ds h = refl
drop_spaces-append (c ∷ cs) ds (p, h) = ground (arith, drop_spaces-append cs ds h)

letter-ne-pad : (c : ℕ) → IsLetter c → (c == b'=') ≡ false
unfolding sextet
letter-ne-pad c p = ground arith

strip_letters : (cs : List ℕ) → All IsLetter cs → strip cs ≡ cs
unfolding strip
strip_letters [] h = refl
strip_letters (c ∷ []) (p, h) = ground (arith, letter-ne-pad c p)
strip_letters (c ∷ d ∷ []) (p, h) = ground (arith, letter-ne-pad d h.0)
strip_letters (c ∷ d ∷ e ∷ cs) (p, h) = ap (◌∷◌ c) (strip_letters (d ∷ e ∷ cs) h)

strip_one : (cs : List ℕ) → All IsLetter cs → strip (cs ++ b'=' ∷ []) ≡ cs
unfolding strip
strip_one [] h = refl
strip_one (c ∷ []) (p, h) = ground (arith, letter-ne-pad c p)
strip_one (c ∷ d ∷ []) (p, h) = ap (◌∷◌ c) (strip_one (d ∷ []) h)
strip_one (c ∷ d ∷ e ∷ cs) (p, h) = ap (◌∷◌ c) (strip_one (d ∷ e ∷ cs) h)

strip-append : (cs : List ℕ) (x y : ℕ) → strip (cs ++ x ∷ y ∷ []) ≡ cs ++ strip (x ∷ y ∷ [])
unfolding strip
strip-append [] x y = refl
strip-append (c ∷ []) x y = refl
strip-append (c ∷ d ∷ []) x y = refl
strip-append (c ∷ d ∷ e ∷ cs) x y = ap (◌∷◌ c) (strip-append (d ∷ e ∷ cs) x y)

strip_two : (cs : List ℕ) → strip (cs ++ b'=' ∷ b'=' ∷ []) ≡ cs
unfolding strip
strip_two cs = strip-append cs b'=' b'=' ∙ append-nil cs

sextets-pad : (cs : List ℕ) → sextets (cs ++ b'=' ∷ []) ≡ none
unfolding sextets sextet
sextets-pad [] = refl
sextets-pad (c ∷ cs) = rw (sextets-pad cs) (ground arith)

-- A text of the alphabet decodes once it is padded to a multiple of four, unless it is one longer
-- than such a multiple.
module _ (cs : List ℕ) (letters : All IsLetter cs) where
  spaceless : (ds : List ℕ) → drop_spaces ds ≡ ds → drop_spaces (cs ++ ds) ≡ cs ++ ds
  spaceless ds e = drop_spaces-append cs ds letters ∙ ap (◌++◌ cs) e

  pub atob_whole :
      (ns : List ℕ) → length cs % 4 ≡ 0 → sextets cs ≡ some ns → atob cs ≡ some (pack ns)
  unfolding atob strip_padding
  atob_whole ns h e =
      ground (arith, drop_spaces-append cs [] letters, append-nil cs, strip_letters cs letters)

  pub atob_two :
      (ns : List ℕ)
      → length cs % 4 ≡ 2
      → sextets cs ≡ some ns
      → atob (cs ++ b'=' ∷ b'=' ∷ []) ≡ some (pack ns)
  unfolding atob strip_padding
  atob_two ns h e =
      ground (
        arith,
        spaceless (b'=' ∷ b'=' ∷ []) refl,
        length-append cs (b'=' ∷ b'=' ∷ []),
        strip_two cs,
      )

  pub atob_one :
      (ns : List ℕ)
      → length cs % 4 ≡ 3
      → sextets cs ≡ some ns
      → atob (cs ++ b'=' ∷ []) ≡ some (pack ns)
  unfolding atob strip_padding
  atob_one ns h e =
      ground (arith, spaceless (b'=' ∷ []) refl, length-append cs (b'=' ∷ []), strip_one cs letters)

  pub atob_three : length cs % 4 ≡ 1 → atob (cs ++ b'=' ∷ b'=' ∷ b'=' ∷ []) ≡ none
  unfolding atob strip_padding strip
  atob_three h = ground (
    arith,
    spaceless (b'=' ∷ b'=' ∷ b'=' ∷ []) refl,
    length-append cs (b'=' ∷ b'=' ∷ b'=' ∷ []),
    length-append cs (b'=' ∷ []),
    append_assoc cs (b'=' ∷ []) (b'=' ∷ b'=' ∷ []),
    strip_two (cs ++ b'=' ∷ []),
    sextets-pad cs,
  )
