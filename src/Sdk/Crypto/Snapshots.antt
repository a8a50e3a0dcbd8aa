-- ===== src/Sdk/Crypto/Snapshots.antt =====
-- crypto.ts: the comparison of texts, and signed snapshots.
pub mod Signing
use walletpair.Common.{
  ℕ, suc, ◌+◌, Bool, true, false, ◌&&◌, Option, none, some, List, [], ◌∷◌, ◌++◌, ◌==◌,
  if◌then◌else◌, length, take, drop, codes,
}
use walletpair.Sdk.Crypto.Encodings.{Bytes, Text}
use walletpair.Sdk.Crypto.Primitives.{Primitives}

-- The loop of constantTimeEqual; `result` is kept as whether it is still zero.
unfoldable pub compare_codes : Bool → Text → Text → Bool
compare_codes same (x ∷ xs) (y ∷ ys) = compare_codes (same && x == y) xs ys
compare_codes same _ _ = same

unfoldable pub constant_time_equal : Text → Text → Bool
unfolding compare_codes
constant_time_equal a b = if length a == length b then compare_codes true a b else false

abbrev next_index : Option ℕ → Option ℕ
next_index none = none
next_index (some n) = some (suc n)

-- `text.indexOf(c)`, with none for -1.
unfoldable pub index_of : ℕ → Text → Option ℕ
index_of c [] = none
index_of c (x ∷ xs) = let rest = index_of c xs in if x == c then some 0 else next_index rest

abbrev pub is_at : ℕ → Option ℕ → Bool
is_at n none = false
is_at n (some m) = m == n

module _ (p : Primitives) where
  unfoldable pub derive_snapshot_hmac_key : Bytes → Bytes
  derive_snapshot_hmac_key send_key =
      p.hmac send_key (p.utf8_to_bytes (codes "walletpair-v1-snapshot-hmac"))

  -- The hex of the code that authenticates a text.
  abbrev pub mac_hex : Bytes → Text → Text
  mac_hex send_key json =
      p.bytes_to_hex (p.hmac (derive_snapshot_hmac_key send_key) (p.utf8_to_bytes json))

  unfoldable pub sign_snapshot : Bytes → Text → Text
  sign_snapshot send_key json = mac_hex send_key json ++ b'.' ∷ json

  unfoldable pub verify_snapshot : Bytes → Text → Option Text
  verify_snapshot send_key signed =
      if is_at 64 (index_of b'.' signed)
      then (if constant_time_equal (take 64 signed) (mac_hex send_key (drop 65 signed))
          then some (drop 65 signed)
          else none)
      else none
