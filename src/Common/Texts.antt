-- ===== src/Common/Texts.antt =====
-- Texts of the source: compared by the native test, and walked as lists of code points.
use Prim.Native.Char.{code}
use Prim.Native.Nat.{ℕ, ◌+◌}
use Prim.Native.String.{String}
use mathlib.Core.Path.{◌≡◌}
use mathlib.Core.Logic.{◌↔◌}
use mathlib.Core.Bool.{Bool, true, false}
use mathlib.Core.Option.{Option, none, some}
use mathlib.Core.List.{List, [], ◌∷◌}
use native.Mathlib.Omega.{arith}
use text.Mathlib.Text.{◌==◌ as str_eq}
use text.Mathlib.TextEquality.{eq_iff}
use walletpair.Common.Tests.{ltb, if◌then◌else◌}

-- `a === b` on two strings.
infix 50 ◌=s◌
abbrev pub ◌=s◌ : String → String → Bool
a =s b = str_eq a b

pub =s_iff : (a b : String) → ((a =s b) ≡ true) ↔ (a ≡ b)
=s_iff a b = eq_iff a b

-- `a === b` where `b` may be null.
abbrev pub is_just : String → Option String → Bool
is_just a none = false
is_just a (some b) = a =s b

pub is_just_iff : (a : String) (o : Option String) → (is_just a o ≡ true) ↔ (o ≡ some a)
is_just_iff a none = ground arith
is_just_iff a (some b) = ground (arith, eq_iff a b)

-- The code points of a text.
abbrev pub codes : String → List ℕ
codes String.[] = []
codes (String.◌∷◌ c s) = code c ∷ codes s

-- `s.length`: a code point above 0xFFFF is two UTF-16 units.
abbrev pub units : List ℕ → ℕ
units [] = 0
units (c ∷ cs) = (if ltb 0xffff c then 2 else 1) + units cs
