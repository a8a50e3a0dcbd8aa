-- ===== src/Json.antt =====
-- The values of `JSON.parse`, and the reads that both programs make of them. An object is the list
-- of its own properties; a property that is not there reads as `undefined`, here `none`.
use walletpair.Common.{ℕ, String, Bool, true, false, Option, none, some, ◌=s◌, if◌then◌else◌}

-- An integer n, an integer -(n + 1), or any other number.
pub data JsNumber : Type 0 where
  whole negative : ℕ → JsNumber
  fractional : JsNumber

mutual
  pub data Json : Type 0 where
    null : Json
    bool : Bool → Json
    num : JsNumber → Json
    str : String → Json
    arr : Items → Json
    obj : Fields → Json

  pub data Items : Type 0 where
    nil : Items
    item : Json → Items → Items

  pub data Fields : Type 0 where
    end : Fields
    field : String → Json → Fields → Fields

-- `obj[key]`
unfoldable pub get : String → Fields → Option Json
get key end = none
get key (field k v rest) = if k =s key then some v else get key rest

-- `typeof v === "object" && v !== null && !Array.isArray(v)`
unfoldable pub as_object : Json → Option Fields
as_object (obj fields) = some fields
as_object _ = none

unfoldable pub is_number : Option Json → Bool
is_number (some (num _)) = true
is_number (some _) = false
is_number none = false

unfoldable pub is_null : Option Json → Bool
is_null (some null) = true
is_null (some _) = false
is_null none = false
