-- ===== src/Sdk/Crypto/PairingUris.antt =====
-- crypto.ts: pairing URIs.
pub mod Parsing
use walletpair.Common.{
  ℕ, zero, suc, ◌+◌, Bool, true, false, not, ◌&&◌, ◌||◌, Option, none, some, List, [], ◌∷◌, ◌++◌,
  ltb, leb, ◌==◌, if◌then◌else◌, length, every, codes, is_some,
}
use walletpair.Sdk.Crypto.Encodings.{Bytes, Text, b64url_decode}

-- `get` of the URLSearchParams of a text, and encodeURIComponent.
pub record UriCodec : Type 0 where
  pub get : Text → Text → Option Text
  pub encode_uri_component : Text → Text

pub record PairingParams : Type 0 where
  pub ch : Text
  pub pubkey : Text
  pub relay : Text
  pub name : Text
  pub url : Text
  pub icon : Text
  pub methods : Option (List Text)
  pub chains : Option (List Text)

-- A text that is not empty.
abbrev pub present : Option Text → Option Text
present none = none
present (some []) = none
present (some (c ∷ cs)) = some (c ∷ cs)

-- `text.startsWith(prefix)`
unfoldable pub starts_with : Text → Text → Bool
starts_with [] t = true
starts_with (x ∷ xs) [] = false
starts_with (x ∷ xs) (y ∷ ys) = x == y && starts_with xs ys

-- The prefix is taken off where it is there.
unfoldable pub drop_prefix : Text → Text → Text
unfolding starts_with
drop_prefix prefix t = if starts_with prefix t then walletpair.Common.drop (length prefix) t else t

abbrev pub is_lower_hex : ℕ → Bool
is_lower_hex c = leb b'0' c && leb c b'9' || leb b'a' c && leb c b'f'

unfoldable pub is_channel_id : Text → Bool
is_channel_id ch = length ch == 64 && every is_lower_hex ch

abbrev pub is_32_long : Option Bytes → Bool
is_32_long none = false
is_32_long (some bytes) = length bytes == 32

-- `text.split(',')`
unfoldable pub split : ℕ → Text → List Text
split sep [] = [] ∷ []
split sep (c ∷ cs) = elim (split sep cs) [
  | [] ↦ if c == sep then [] ∷ [] ∷ [] else (c ∷ []) ∷ []
  | part ∷ parts ↦ if c == sep then [] ∷ part ∷ parts else (c ∷ part) ∷ parts
]

-- `parts.filter(Boolean)`
unfoldable pub nonempty_parts : List Text → List Text
nonempty_parts [] = []
nonempty_parts ([] ∷ ts) = nonempty_parts ts
nonempty_parts ((c ∷ cs) ∷ ts) = (c ∷ cs) ∷ nonempty_parts ts

-- `parts.join(',')`
unfoldable pub join_parts : ℕ → List Text → Text
join_parts sep [] = []
join_parts sep (t ∷ []) = t
join_parts sep (t ∷ u ∷ ts) = t ++ sep ∷ join_parts sep (u ∷ ts)

abbrev pub list_of : Option Text → Option (List Text)
list_of none = none
list_of (some t) = some (nonempty_parts (split b',' t))

-- A parameter that names a list which is not empty.
abbrev list_param : Text → Option (List Text) → Text
list_param key none = []
list_param key (some []) = []
list_param key (some (t ∷ ts)) = key ++ join_parts b',' (t ∷ ts)

module _ (u : UriCodec) where
  unfoldable pub build_pairing_uri : PairingParams → Text
  unfolding join_parts
  build_pairing_uri p =
      codes "walletpair:?ch="
      ++ p.ch
      ++ codes "&pubkey="
      ++ p.pubkey
      ++ codes "&relay="
      ++ u.encode_uri_component p.relay
      ++ codes "&name="
      ++ u.encode_uri_component p.name
      ++ codes "&url="
      ++ u.encode_uri_component p.url
      ++ codes "&icon="
      ++ u.encode_uri_component p.icon
      ++ list_param (codes "&methods=") p.methods
      ++ list_param (codes "&chains=") p.chains

  -- With the texts that have to be there; `none` is the exception of a check.
  abbrev pub check_params :
      Option Text
      → Option Text
      → Option Text
      → Option Text
      → Option Text
      → Option Text
      → Option (List Text)
      → Option (List Text)
      → Option PairingParams
  check_params (some ch) (some pubkey) (some relay) (some name) (some url) (some icon) methods
        chains =
      if is_channel_id ch && is_32_long (b64url_decode pubkey) && starts_with (codes "https:") icon
      then some (record {
        ch = ch;
        pubkey = pubkey;
        relay = relay;
        name = name;
        url = url;
        icon = icon;
        methods = methods;
        chains = chains;
      })
      else none
  check_params _ _ _ _ _ _ methods chains = none

  abbrev param : Text → Text → Option Text
  param qs key = present (u.get qs key)

  unfoldable pub parse_pairing_uri : Text → Option PairingParams
  unfolding drop_prefix is_channel_id starts_with nonempty_parts split
  parse_pairing_uri uri =
      let qs = drop_prefix (codes "walletpair:?") uri in
      check_params (param qs (codes "ch")) (param qs (codes "pubkey")) (param qs (codes "relay"))
        (param qs (codes "name")) (param qs (codes "url")) (param qs (codes "icon"))
        (list_of (param qs (codes "methods"))) (list_of (param qs (codes "chains")))
