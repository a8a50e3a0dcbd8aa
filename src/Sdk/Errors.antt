-- ===== src/Sdk/Errors.antt =====
-- walletpair-sdk/src/errors.ts: the numeric codes of errors.
use walletpair.Common.{
  ℕ, zero, suc, ◌+◌, ◌-◌, ◌*◌, String, Bool, true, false, ◌&&◌, Option, none, some, List, [], ◌∷◌,
  leb, ◌==◌, ◌=s◌, if◌then◌else◌, codes, every,
}
use walletpair.Json.{JsNumber, whole, negative, Json, num, str}

-- -32603 and the other negative codes; `negative n` is -(n + 1).
abbrev pub internal_error : JsNumber
internal_error = negative 32602

unfoldable pub wallet_pair_code_to_rpc_code : Option String → JsNumber
wallet_pair_code_to_rpc_code none = internal_error
wallet_pair_code_to_rpc_code (some code) =
    if code =s "user_rejected"
    then whole 4001
    else if code =s "unauthorized"
    then whole 4100
    else if code =s "unsupported_method"
    then whole 4200
    else if code =s "unsupported_capability"
    then whole 4200
    else if code =s "unsupported_chain"
    then whole 4902
    else if code =s "chain_not_found"
    then whole 4902
    else if code =s "disconnected"
    then whole 4900
    else if code =s "invalid_params"
    then negative 32601
    else if code =s "rate_limited"
    then negative 32004
    else if code =s "transaction_rejected"
    then negative 32002
    else internal_error

pub record ProviderRpcError : Type 0 where
  pub code : JsNumber
  pub message : String
  pub error_data : Option Json

-- What is thrown: an error of the class, or another value with its `code`, `message` and `data`.
pub data Thrown : Type 0 where
  provider_error : ProviderRpcError → Thrown
  thrown : Option Json → Option Json → Option Json → Thrown

abbrev pub is_digit : ℕ → Bool
is_digit c = leb b'0' c && leb c b'9'

abbrev pub are_digits : List ℕ → Bool
are_digits [] = false
are_digits (c ∷ cs) = every is_digit (c ∷ cs)

-- The number that decimal digits stand for.
unfoldable pub number_of : ℕ → List ℕ → ℕ
number_of acc [] = acc
number_of acc (c ∷ cs) = number_of (acc * 10 + (c - b'0')) cs

abbrev pub minus : ℕ → JsNumber
minus zero = whole 0
minus (suc n) = negative n

abbrev digits_code : Bool → JsNumber → Option JsNumber
digits_code true n = some n
digits_code false n = none

-- `Number(text)` where the text matches /^-?\d+$/.
unfoldable pub numeric_code : List ℕ → Option JsNumber
unfolding number_of
numeric_code [] = none
numeric_code (c ∷ cs) =
    if c == b'-'
    then digits_code (are_digits cs) (minus (number_of 0 cs))
    else digits_code (are_digits (c ∷ cs)) (whole (number_of 0 (c ∷ cs)))

abbrev text_code : Option JsNumber → String → JsNumber
text_code none code = wallet_pair_code_to_rpc_code (some code)
text_code (some n) code = n

abbrev pub code_of : Option Json → JsNumber
code_of (some (num n)) = n
code_of (some (str code)) = text_code (numeric_code (codes code)) code
code_of (some _) = internal_error
code_of none = internal_error

abbrev pub message_of : Option Json → String
message_of (some (str m)) = if m =s "" then "Request failed" else m
message_of (some _) = "Request failed"
message_of none = "Request failed"

unfoldable pub to_provider_rpc_error : Thrown → ProviderRpcError
unfolding wallet_pair_code_to_rpc_code numeric_code
to_provider_rpc_error (provider_error e) = e
to_provider_rpc_error (thrown code message error_data) = record {
  code = code_of code;
  message = message_of message;
  error_data = error_data;
}
