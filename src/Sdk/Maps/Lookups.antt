-- ===== src/Sdk/Maps/Lookups.antt =====
-- What is found in a map after an operation.
use walletpair.Common.{
  ℕ, suc, ◌≤◌, String, false, none, some, List, [], ◌∷◌, ◌≡◌, refl, arith, ◌=s◌, =s_iff, ltb,
  length, Bool-cases, Option-cases, inl, inr,
}
use walletpair.Sdk.Maps.{find, put, remove, has, evict}

module _ {A : Type 0} where
  pub find-put :
      (key : String) (value : A) (m : List (String × A)) → find key (put key value m) ≡ some value
  unfolding find put
  find-put key value [] = rw (((=s_iff key key).1) refl) refl
  find-put key value ((k, v) ∷ rest) = elim (Bool-cases (k =s key)) [
    | inl e ↦ rw (e, e) refl
    | inr e ↦ rw (e, e) (find-put key value rest)
  ]

  pub find-remove-put :
      (key : String) (value : A) (m : List (String × A))
      → find key (put key value (remove key m)) ≡ some value
  find-remove-put key value m = find-put key value (remove key m)

  -- An entry that is replaced keeps the map as large.
  length-put-found :
      (key : String) (value old : A) (m : List (String × A))
      → find key m ≡ some old
      → length (put key value m) ≡ length m
  unfolding find put
  length-put-found key value old [] h = cc
  length-put-found key value old ((k, v) ∷ rest) h = elim (Bool-cases (k =s key)) [
    | inl e ↦ rw e refl
    | inr e ↦ let ih = length-put-found key value old rest (rw e at h) in rw e (omega (arith, ih))
  ]

  evict-id : (limit : ℕ) (m : List (String × A)) → length m ≤ limit → evict limit m ≡ m
  unfolding evict
  evict-id limit [] h = refl
  evict-id limit ((k, v) ∷ rest) h = ground arith

  find-evict-new :
      (limit : ℕ) (key : String) (value : A) (m : List (String × A))
      → 1 ≤ limit
      → has "" m ≡ false
      → find key m ≡ none
      → find key (evict limit (put key value m)) ≡ some value
  unfolding find put has evict
  find-evict-new limit key value [] l h f =
      let within : ltb limit 1 ≡ false = ground arith in rw within (find-put key value [])
  find-evict-new limit key value ((k, v) ∷ rest) l h f = elim (Bool-cases (k =s key)) [
    | inl e ↦ absurd (let g = rw e at f in cc)
    | inr e ↦ elim (Bool-cases (ltb limit (suc (length (put key value rest))))) [
      | inl g ↦
          let named : ((k =s "") ≡ false) × (has "" rest ≡ false) = ground arith in
          rw (e, g, named.0) (find-evict-new limit key value rest l named.1 (rw e at f))
      | inr g ↦ rw (e, g, e) (find-put key value rest)
    ]
  ]

  -- What has just been set is not what the loop removes.
  pub find-evict-put :
      (limit : ℕ) (key : String) (value : A) (m : List (String × A))
      → 1 ≤ limit
      → length m ≤ limit
      → has "" m ≡ false
      → find key (evict limit (put key value m)) ≡ some value
  find-evict-put limit key value m l b h = elim (Option-cases (find key m)) [
    | inl f ↦ find-evict-new limit key value m l h f
    | inr (old, f) ↦
        rw (evict-id limit (put key value m) (omega (arith, b, length-put-found key value old m f)))
          (find-put key value m)
  ]
