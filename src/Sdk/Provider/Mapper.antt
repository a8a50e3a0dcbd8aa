-- ===== src/Sdk/Provider/Mapper.antt =====
-- eip1193.ts: `defaultMapper.mapRequest`. A property that is undefined is left out of its object.
pub mod Sending
use walletpair.Common.{
  ℕ, zero, suc, ◌+◌, ◌-◌, ◌/◌, ◌%◌, String, Bool, true, false, not, ◌&&◌, ◌||◌, Option, none, some,
  List, [], ◌∷◌, ltb, ◌=s◌, if◌then◌else◌, codes, drop,
}
use walletpair.Json.{
  JsNumber, whole, negative, Json, null, bool, num, str, arr, obj, Items, nil, item, Fields, end,
  field, get,
}
use walletpair.Sdk.Crypto.PairingUris.{starts_with}
use walletpair.Sdk.Provider.Numbers.{parse_int, to_text, caip2_chain}
use walletpair.Sdk.Provider.Chains.{is_truthy}
use walletpair.Sdk.Provider.Routing.{Mapping, unmapped, map_fails, maps_to}

-- `TextDecoder.decode`, `JSON.parse`, and `String` of a value that is not a text.
pub record Conversions : Type 0 where
  pub decode_utf8 : List ℕ → String
  pub parse_json : String → Option Json
  pub text_of : Json → String
  -- `eip155:${n}` of the number n that is read from hex digits, where it is above 2^53 - 1 in size.
  pub large_chain : List ℕ → String

-- `p?.[0]` and `p?.[1]`
abbrev pub first_of : Option Json → Option Json
first_of (some (arr (item v rest))) = some v
first_of (some (obj f)) = get "0" f
first_of (some (str (String.◌∷◌ c s))) = some (str (String.◌∷◌ c ""))
first_of _ = none

abbrev pub second_of : Option Json → Option Json
second_of (some (arr (item u (item v rest)))) = some v
second_of (some (obj f)) = get "1" f
second_of (some (str (String.◌∷◌ b (String.◌∷◌ c s)))) = some (str (String.◌∷◌ c ""))
second_of _ = none

abbrev pub property : String → Option Json → Option Json
property key (some (obj f)) = get key f
property key _ = none

abbrev pub optional : String → Option Json → Fields → Fields
optional key none rest = rest
optional key (some v) rest = field key v rest

-- The UTF-16 units of a text.
unfoldable pub utf16 : List ℕ → List ℕ
utf16 [] = []
utf16 (c ∷ cs) =
    let rest = utf16 cs in
    if ltb 0xffff c
    then (0xd800 + (c - 0x10000) / 1024) ∷ (0xdc00 + (c - 0x10000) % 1024) ∷ rest
    else c ∷ rest

-- What a `Uint8Array` keeps of a number.
abbrev pub to_byte : Option JsNumber → ℕ
to_byte (some (whole n)) = n % 256
to_byte (some (negative n)) = 255 - n % 256
to_byte (some JsNumber.fractional) = 0
to_byte none = 0

-- A digit that is left over is not read.
unfoldable pub hex_bytes : List ℕ → List ℕ
unfolding parse_int
hex_bytes (a ∷ b ∷ rest) = to_byte (parse_int 16 (a ∷ b ∷ [])) ∷ hex_bytes rest
hex_bytes _ = []

abbrev text_after : String → String → String
text_after String.[] t = t
text_after (String.◌∷◌ c s) t = String.◌∷◌ c (text_after s t)

-- With the method and the address; an array has no property `from`.
abbrev pub map_transaction : String → Option Json → Mapping
map_transaction method (some (obj tx)) =
    maps_to method (some (obj (optional "address" (get "from" tx) (field "tx" (obj tx) end))))
map_transaction method (some (arr items)) = maps_to method (some (obj (field "tx" (arr items) end)))
map_transaction method _ = map_fails (negative 32601)

module _ (js : Conversions) where
  abbrev pub message_text : String → String
  message_text msg =
      if starts_with (codes "0x") (codes msg)
      then js.decode_utf8 (hex_bytes (drop 2 (utf16 (codes msg))))
      else msg

  abbrev signed_message : String → Option Json → Mapping
  signed_message text address =
      maps_to "wallet_signMessage"
        (some (obj (field "message" (str text) (optional "address" address end))))

  -- A message that is another value has no `startsWith`.
  abbrev pub map_message : Option Json → Option Json → Mapping
  map_message none address = signed_message "" address
  map_message (some null) address = signed_message "" address
  map_message (some (str msg)) address = signed_message (message_text msg) address
  map_message (some _) address = map_fails (negative 32602)

  abbrev or_text : String → Option Json → Json
  or_text text none = str text
  or_text text (some v) = v

  abbrev pub typed_data : Option Json → Option Json
  typed_data (some (str text)) = some (or_text text (js.parse_json text))
  typed_data v = v

  abbrev pub map_typed_data : Option Json → Option Json → Mapping
  map_typed_data address data' =
      maps_to "wallet_signTypedData"
        (some (obj (optional "address" address (optional "typedData" (typed_data data') end))))

  abbrev hex_text : Json → List ℕ
  hex_text (str s) = codes s
  hex_text v = codes (js.text_of v)

  -- `hexChainToCaip2`, also of a text that is no number.
  unfoldable pub hex_chain_to_caip2 : List ℕ → String
  unfolding parse_int to_text caip2_chain
  hex_chain_to_caip2 hex = go (parse_int 16 hex)
    where
      go : Option JsNumber → String
      go (some (whole n)) = caip2_chain n
      go (some (negative n)) = text_after "eip155:-" (to_text 10 (suc n))
      go (some JsNumber.fractional) = js.large_chain hex
      go none = "eip155:NaN"

  abbrev pub target_chain : Option Json → Option Json
  target_chain none = none
  target_chain (some v) =
      if is_truthy (some v) then some (str (hex_chain_to_caip2 (hex_text v))) else none

  abbrev pub or_empty : Option Json → Json
  or_empty none = obj end
  or_empty (some null) = obj end
  or_empty (some v) = v

  unfoldable pub map_request : String → Option Json → Mapping
  unfolding get starts_with hex_bytes utf16 hex_chain_to_caip2
  map_request method params =
      if method =s "eth_requestAccounts" || method =s "eth_accounts"
      then maps_to "wallet_getAccounts" none
      else if method =s "personal_sign"
      then map_message (first_of params) (second_of params)
      else if method =s "eth_signTypedData_v3" || method =s "eth_signTypedData_v4"
      then map_typed_data (first_of params) (second_of params)
      else if method =s "eth_sendTransaction"
      then map_transaction "wallet_sendTransaction" (first_of params)
      else if method =s "eth_signTransaction"
      then map_transaction "wallet_signTransaction" (first_of params)
      else if method =s "wallet_switchEthereumChain"
      then maps_to "wallet_switchChain"
          (some (obj (optional "chain" (target_chain (property "chainId" (first_of params))) end)))
      else if method =s "wallet_sendCalls"
      then maps_to "wallet_sendCalls" (some (or_empty (first_of params)))
      else if method =s "wallet_getCallsStatus"
      then maps_to "wallet_getCallsStatus" (first_of params)
      else unmapped
