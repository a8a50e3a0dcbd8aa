-- ===== src/Base64.antt =====
-- The standard library's `atob` and `btoa`, on lists of code points and of bytes.
pub mod Decoding
use walletpair.Common.{
  ℕ, ◌+◌, ◌-◌, ◌*◌, ◌/◌, ◌%◌, Bool, ◌&&◌, ◌||◌, List, [], ◌∷◌, Option, none, some, ltb, leb, ◌==◌,
  if◌then◌else◌, length,
}

-- The six bits that a character of the base64 alphabet stands for.
unfoldable pub sextet : ℕ → Option ℕ
sextet c =
    if leb b'A' c && leb c b'Z'
    then some (c - 65)
    else if leb b'a' c && leb c b'z'
    then some (c - 71)
    else if leb b'0' c && leb c b'9'
    then some (c + 4)
    else if c == b'+'
    then some 62
    else if c == b'/'
    then some 63
    else none

-- The character for six bits.
unfoldable pub letter : ℕ → ℕ
letter n =
    if ltb n 26
    then n + 65
    else if ltb n 52
    then n + 71
    else if ltb n 62
    then n - 4
    else if n == 62
    then b'+'
    else b'/'

abbrev push_sextet : Option ℕ → Option (List ℕ) → Option (List ℕ)
push_sextet none rest = none
push_sextet (some n) none = none
push_sextet (some n) (some ns) = some (n ∷ ns)

unfoldable pub sextets : List ℕ → Option (List ℕ)
sextets [] = some []
sextets (c ∷ cs) = push_sextet (sextet c) (sextets cs)

-- Four groups of six bits are three bytes; the bits that are left over are dropped.
unfoldable pub pack : List ℕ → List ℕ
pack (a ∷ b ∷ c ∷ d ∷ rest) =
    (a * 4 + b / 16) ∷ (b % 16 * 16 + c / 4) ∷ (c % 4 * 64 + d) ∷ pack rest
pack (a ∷ b ∷ c ∷ []) = (a * 4 + b / 16) ∷ (b % 16 * 16 + c / 4) ∷ []
pack (a ∷ b ∷ []) = (a * 4 + b / 16) ∷ []
pack (a ∷ []) = []
pack [] = []

-- Without the one or two `=` at its end.
unfoldable pub strip : List ℕ → List ℕ
strip [] = []
strip (c ∷ []) = if c == b'=' then [] else c ∷ []
strip (c ∷ d ∷ []) = if d == b'=' then (if c == b'=' then [] else c ∷ []) else c ∷ d ∷ []
strip (c ∷ d ∷ e ∷ cs) = c ∷ strip (d ∷ e ∷ cs)

unfoldable pub strip_padding : List ℕ → List ℕ
unfolding strip
strip_padding s = if length s % 4 == 0 then strip s else s

unfoldable pub is_space : ℕ → Bool
is_space c = c == 0x20 || c == 0x9 || c == 0xa || c == 0xc || c == 0xd

unfoldable pub drop_spaces : List ℕ → List ℕ
unfolding is_space
drop_spaces [] = []
drop_spaces (c ∷ cs) = if is_space c then drop_spaces cs else c ∷ drop_spaces cs

abbrev pack_or_fail : Option (List ℕ) → Option (List ℕ)
pack_or_fail none = none
pack_or_fail (some ns) = some (pack ns)

-- `atob`, the forgiving decoder; `none` is its exception.
unfoldable pub atob : List ℕ → Option (List ℕ)
unfolding drop_spaces strip_padding sextets pack sextet
atob text =
    let s = strip_padding (drop_spaces text) in
    if length s % 4 == 1 then none else pack_or_fail (sextets s)

-- `btoa` on bytes.
unfoldable pub btoa : List ℕ → List ℕ
unfolding letter
btoa (a ∷ b ∷ c ∷ rest) =
    letter (a / 4)
    ∷ letter (a % 4 * 16 + b / 16)
    ∷ letter (b % 16 * 4 + c / 64)
    ∷ letter (c % 64)
    ∷ btoa rest
btoa (a ∷ b ∷ []) = letter (a / 4) ∷ letter (a % 4 * 16 + b / 16) ∷ letter (b % 16 * 4) ∷ b'=' ∷ []
btoa (a ∷ []) = letter (a / 4) ∷ letter (a % 4 * 16) ∷ b'=' ∷ b'=' ∷ []
btoa [] = []
