-- ===== src/Sdk/Provider/Numbers.antt =====
-- eip1193.ts: `Number.parseInt`, `toString(16)`, and the keys and names of chains that are made of
-- them. A double above 2^53 - 1 in size is not told from another.
pub mod Hex
use walletpair.Common.{
  ℕ, zero, suc, ◌+◌, ◌-◌, ◌*◌, ◌/◌, ◌%◌, String, Bool, true, false, not, ◌&&◌, ◌||◌, Option, none,
  some, List, [], ◌∷◌, ltb, leb, ◌==◌, if◌then◌else◌, codes, drop,
}
use Prim.Native.Char.{Char}
use walletpair.Json.{JsNumber, whole, negative}
use walletpair.Sdk.Crypto.PairingUris.{starts_with}

-- The white space that `parseInt` skips.
abbrev pub is_white_space : ℕ → Bool
is_white_space c =
    (leb 9 c && leb c 13)
    || c == 32
    || c == 160
    || c == 0x1680
    || (leb 0x2000 c && leb c 0x200a)
    || c == 0x2028
    || c == 0x2029
    || c == 0x202f
    || c == 0x205f
    || c == 0x3000
    || c == 0xfeff

unfoldable pub trim_start : List ℕ → List ℕ
trim_start [] = []
trim_start (c ∷ cs) = let rest = trim_start cs in if is_white_space c then rest else c ∷ cs

abbrev pub digit_of : ℕ → Option ℕ
digit_of c =
    if leb b'0' c && leb c b'9'
    then some (c - b'0')
    else if leb b'a' c && leb c b'z'
    then some (c - b'a' + 10)
    else if leb b'A' c && leb c b'Z'
    then some (c - b'A' + 10)
    else none

abbrev below : ℕ → Option ℕ → Option ℕ
below radix none = none
below radix (some d) = if ltb d radix then some d else none

unfoldable pub digit_value : ℕ → ℕ → Option ℕ
digit_value radix c = below radix (digit_of c)

abbrev pub or_zero : Option ℕ → ℕ
or_zero none = 0
or_zero (some n) = n

-- The number of the digits that come first, behind the ones that were read.
unfoldable pub parse_digits : ℕ → Option ℕ → List ℕ → Option ℕ
unfolding digit_value
parse_digits radix read [] = read
parse_digits radix read (c ∷ cs) = elim (digit_value radix c) [
  | none ↦ read
  | some d ↦ parse_digits radix (some (or_zero read * radix + d)) cs
]

abbrev pub drop_hex : ℕ → List ℕ → List ℕ
drop_hex radix cs =
    if radix == 16 && (starts_with (codes "0x") cs || starts_with (codes "0X") cs)
    then drop 2 cs
    else cs

-- The largest integer up to which doubles are exact, `Number.MAX_SAFE_INTEGER`.
abbrev pub max_safe_integer : ℕ
max_safe_integer = 9007199254740991

-- A number beyond that is `fractional`, that is, any other number.
abbrev pub exact : JsNumber → JsNumber
exact (whole n) = if leb n max_safe_integer then whole n else JsNumber.fractional
exact (negative n) = if ltb n max_safe_integer then negative n else JsNumber.fractional
exact JsNumber.fractional = JsNumber.fractional

-- With whether there is a minus sign; -0 is 0.
abbrev pub signed : Bool → Option ℕ → Option JsNumber
signed minus none = none
signed minus (some zero) = some (whole zero)
signed false (some (suc n)) = some (exact (whole (suc n)))
signed true (some (suc n)) = some (exact (negative n))

unfoldable pub parse_unsigned : ℕ → List ℕ → Option ℕ
unfolding parse_digits starts_with
parse_unsigned radix cs = parse_digits radix none (drop_hex radix cs)

abbrev pub parse_signed : ℕ → List ℕ → Option JsNumber
parse_signed radix [] = none
parse_signed radix (c ∷ cs) =
    if c == b'-'
    then signed true (parse_unsigned radix cs)
    else signed false (parse_unsigned radix (if c == b'+' then cs else c ∷ cs))

-- `Number.parseInt`; none is NaN.
unfoldable pub parse_int : ℕ → List ℕ → Option JsNumber
unfolding trim_start parse_unsigned
parse_int radix cs = parse_signed radix (trim_start cs)

abbrev pub nth_char : ℕ → String → Char
nth_char n String.[] = "0"
nth_char zero (String.◌∷◌ c s) = c
nth_char (suc n) (String.◌∷◌ c s) = nth_char n s

abbrev pub digit : ℕ → Char
digit n = nth_char n "0123456789abcdef"

-- The digits of a number in front of a text, with fuel for one digit less than there are.
unfoldable pub print_digits : ℕ → ℕ → ℕ → String → String
print_digits radix zero n rest = String.◌∷◌ (digit n) rest
print_digits radix (suc fuel) n rest =
    let more = print_digits radix fuel (n / radix) (String.◌∷◌ (digit (n % radix)) rest) in
    if ltb n radix then String.◌∷◌ (digit n) rest else more

-- `n.toString(radix)`; a number has no more digits than it is large, and one more.
unfoldable pub to_text : ℕ → ℕ → String
unfolding print_digits
to_text radix n = print_digits radix n n ""

-- `0x${n.toString(16)}` and `eip155:${n}`.
unfoldable pub hex_chain : ℕ → String
unfolding to_text
hex_chain n = String.◌∷◌ "0" (String.◌∷◌ "x" (to_text 16 n))

unfoldable pub caip2_chain : ℕ → String
unfolding to_text
caip2_chain n = String.◌∷◌ "e" (
    String.◌∷◌ "i" (
      String.◌∷◌ "p"
        (String.◌∷◌ "1" (String.◌∷◌ "5" (String.◌∷◌ "5" (String.◌∷◌ ":" (to_text 10 n)))))))

-- `Number.isFinite(n) && n > 0`
abbrev pub positive : Option JsNumber → Option ℕ
positive (some (whole (suc n))) = some (suc n)
positive _ = none

-- A key above 2^53 - 1 counts as none: no chain that is asked for has it.
unfoldable pub parse_chain_key : List ℕ → Option ℕ
unfolding parse_int starts_with
parse_chain_key key = positive (
    if starts_with (codes "eip155:") key
    then parse_int 10 (drop 7 key)
    else if starts_with (codes "0x") key
    then parse_int 16 key
    else parse_int 10 key)
