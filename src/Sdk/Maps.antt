-- ===== src/Sdk/Maps.antt =====
-- The `Map` of the standard library under texts: its entries in the order of their insertion.
pub mod Sizes
pub mod Lookups
use walletpair.Common.{
  ℕ, String, Bool, true, false, ◌||◌, Option, none, some, List, [], ◌∷◌, ◌=s◌, ltb, if◌then◌else◌,
  length,
}

module _ {A : Type 0} where
  -- `map.get(key)`
  unfoldable pub find : String → List (String × A) → Option A
  find key [] = none
  find key ((k, v) ∷ rest) = if k =s key then some v else find key rest

  -- `map.set(key, value)`: a key that is there keeps its place.
  unfoldable pub put : String → A → List (String × A) → List (String × A)
  put key value [] = (key, value) ∷ []
  put key value ((k, v) ∷ rest) =
      if k =s key then (k, value) ∷ rest else (k, v) ∷ put key value rest

  -- `map.delete(key)`
  unfoldable pub remove : String → List (String × A) → List (String × A)
  remove key [] = []
  remove key ((k, v) ∷ rest) = if k =s key then rest else (k, v) ∷ remove key rest

  -- `map.has(key)`
  unfoldable pub has : String → List (String × A) → Bool
  has key [] = false
  has key ((k, v) ∷ rest) = k =s key || has key rest

  -- A loop that removes the oldest entry while there are more than the limit, and that ends where
  -- the oldest key is empty.
  unfoldable pub evict : ℕ → List (String × A) → List (String × A)
  evict limit [] = []
  evict limit ((k, v) ∷ rest) =
      let evicted = evict limit rest in
      if ltb limit (length ((k, v) ∷ rest))
      then (if k =s "" then (k, v) ∷ rest else evicted)
      else (k, v) ∷ rest
