-- ===== src/Sdk/Crypto/Encodings.antt =====
-- crypto.ts: base64url, and the numbers and texts with a length that are written into bytes.
pub mod Base64url
use walletpair.Common.{
  ℕ, zero, suc, ◌+◌, ◌-◌, ◌*◌, ◌/◌, ◌%◌, Bool, Option, none, some, List, [], ◌∷◌, ◌++◌, map, ltb,
  ◌==◌, if◌then◌else◌, length,
}
use walletpair.Base64.{atob, btoa}

abbrev pub Bytes : Type 0
Bytes = List ℕ

abbrev pub Text : Type 0
Text = List ℕ

-- `.replace(/\+/g, '-').replace(/\//g, '_')`
unfoldable pub to_url : ℕ → ℕ
to_url c = if c == b'+' then b'-' else if c == b'/' then b'_' else c

-- `.replace(/-/g, '+').replace(/_/g, '/')`
unfoldable pub from_url : ℕ → ℕ
from_url c = if c == b'-' then b'+' else if c == b'_' then b'/' else c

-- `.replace(/=/g, '')`
unfoldable pub drop_pads : Text → Text
drop_pads [] = []
drop_pads (c ∷ cs) = let rest = drop_pads cs in if c == b'=' then rest else c ∷ rest

abbrev pub pads : ℕ → Text
pads zero = []
pads (suc n) = b'=' ∷ pads n

unfoldable pub b64url_encode : Bytes → Text
b64url_encode bytes = drop_pads (map to_url (btoa bytes))

-- `none` is the exception of `atob`.
unfoldable pub b64url_decode : Text → Option Bytes
b64url_decode text = let b64 = map from_url text in atob (b64 ++ pads ((4 - length b64 % 4) % 4))

-- `setUint16` and `setUint32`, big endian.
unfoldable pub uint16 : ℕ → Bytes
uint16 n = n / 256 % 256 ∷ n % 256 ∷ []

unfoldable pub uint32 : ℕ → Bytes
uint32 n = n / 16777216 % 256 ∷ n / 65536 % 256 ∷ n / 256 % 256 ∷ n % 256 ∷ []

-- `getUint32` on four bytes, and an exception on fewer.
unfoldable pub read_uint32 : Bytes → Option ℕ
read_uint32 (a ∷ b ∷ c ∷ d ∷ _) = some (((a * 256 + b) * 256 + c) * 256 + d)
read_uint32 _ = none
