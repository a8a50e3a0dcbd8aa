-- ===== src/Sdk/Maps/Sizes.antt =====
-- How large a map is after an operation, and which keys it has.
use walletpair.Common.{
  ℕ, suc, ◌≤◌, String, false, some, List, [], ◌∷◌, ◌≡◌, refl, arith, ◌=s◌, ltb, length, Bool-cases,
  inl, inr,
}
use walletpair.Sdk.Maps.{find, put, remove, has, evict}

module _ {A : Type 0} where
  pub length-put :
      (key : String) (value : A) (m : List (String × A)) → length (put key value m) ≤ suc (length m)
  unfolding put
  length-put key value [] = omega arith
  length-put key value ((k, v) ∷ rest) = elim (Bool-cases (k =s key)) [
    | inl e ↦ rw e (omega arith)
    | inr e ↦ rw e (omega (arith, length-put key value rest))
  ]

  pub length-remove : (key : String) (m : List (String × A)) → length (remove key m) ≤ length m
  unfolding remove
  length-remove key [] = omega arith
  length-remove key ((k, v) ∷ rest) = elim (Bool-cases (k =s key)) [
    | inl e ↦ rw e (omega arith)
    | inr e ↦ rw e (omega (arith, length-remove key rest))
  ]

  -- An entry that is moved to the end.
  pub length-remove-found :
      (key : String) (value : A) (m : List (String × A))
      → find key m ≡ some value
      → suc (length (remove key m)) ≡ length m
  unfolding find remove
  length-remove-found key value [] h = cc
  length-remove-found key value ((k, v) ∷ rest) h = elim (Bool-cases (k =s key)) [
    | inl e ↦ rw e refl
    | inr e ↦ let ih = length-remove-found key value rest in rw e (omega (arith, ih (rw e at h)))
  ]

  pub has-put :
      (x key : String) (value : A) (m : List (String × A))
      → (key =s x) ≡ false
      → has x m ≡ false
      → has x (put key value m) ≡ false
  unfolding has put
  has-put x key value [] d h = ground arith
  has-put x key value ((k, v) ∷ rest) d h = elim (Bool-cases (k =s key)) [
    | inl e ↦ rw e (ground arith)
    | inr e ↦ rw e (let ih = has-put x key value rest d in ground (arith, ih))
  ]

  pub has-remove :
      (x key : String) (m : List (String × A)) → has x m ≡ false → has x (remove key m) ≡ false
  unfolding has remove
  has-remove x key [] h = refl
  has-remove x key ((k, v) ∷ rest) h = elim (Bool-cases (k =s key)) [
    | inl e ↦ rw e (ground arith)
    | inr e ↦ rw e (let ih = has-remove x key rest in ground (arith, ih))
  ]

  -- With no empty key, the loop ends at the limit.
  pub length-evict :
      (limit : ℕ) (m : List (String × A)) → has "" m ≡ false → length (evict limit m) ≤ limit
  unfolding has evict
  length-evict limit [] h = omega arith
  length-evict limit ((k, v) ∷ rest) h = elim (Bool-cases (ltb limit (suc (length rest)))) [
    | inl e ↦ rw e (let ih = length-evict limit rest in ground (arith, ih))
    | inr e ↦ rw e (ground arith)
  ]

  pub has-evict :
      (limit : ℕ) (x : String) (m : List (String × A))
      → has x m ≡ false
      → has x (evict limit m) ≡ false
  unfolding has evict
  has-evict limit x [] h = refl
  has-evict limit x ((k, v) ∷ rest) h = elim (Bool-cases (ltb limit (suc (length rest)))) [
    | inl e ↦ rw e (let ih = has-evict limit x rest in ground (arith, ih))
    | inr e ↦ rw e h
  ]
