-- ===== src/Sdk/Exchange.antt =====
-- The two sessions of the SDK together: what one seals, the other opens.
pub mod Parameters
pub mod Delivery
pub mod Answers
mod Tests
use walletpair.Common.{ℕ, String, Bool, true, false, Option, none, some, ◌≡◌, ◌=s◌}
use walletpair.Json.{Json, bool, str, obj, Fields, get}

abbrev pub map_option {ℓ} : {A : Type ℓ} → (A → A) → Option A → Option A
map_option f none = none
map_option f (some a) = some (f a)

-- How a value comes out of its canonical JSON: the order of properties may change, and what a
-- property is does not; a Boolean and a text are themselves.
pub record IsReading (read : Json → Json) : Type 0 where
  pub read_bool : (b : Bool) → read (bool b) ≡ bool b
  pub read_str : (s : String) → read (str s) ≡ str s
  pub read_obj :
      (f : Fields)
      → (g : Fields) × (read (obj f) ≡ obj g)
        × ((key : String) → get key g ≡ map_option read (get key f))

-- What is sealed is a text that is not empty, and is opened as the number and the value in it: `unseal`
-- is unsealPayload of the other side, under the same key, channel and header.
pub record Opened {A : Type 0} (unseal : String → Option A) (sealed : String) (a : A) : Type 0 where
  pub named : (sealed =s "") ≡ false
  pub opened : unseal sealed ≡ some a
