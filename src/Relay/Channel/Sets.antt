-- ===== src/Relay/Channel/Sets.antt =====
-- The set of pending requests as a list without repetition.
use walletpair.Common.{
  ◌+◌, ◌≤◌, String, false, ◌||◌, List, [], ◌∷◌, ◌++◌, ◌≡◌, refl, sym, ◌∙◌, inl, inr, arith, length,
  length-append, append-nil, append_assoc, Bool-cases, ◌=s◌, =s_iff,
}
use walletpair.Relay.Channel.State.{has, add, delete, set_of}

abbrev pub Distinct : List String → Type 0
Distinct [] = Unit {0}
Distinct (x ∷ xs) = (has x xs ≡ false) × Distinct xs

has-append : (x : String) (xs ys : List String) → has x (xs ++ ys) ≡ (has x xs || has x ys)
unfolding has
has-append x [] ys = refl
has-append x (y ∷ xs) ys = ground (arith, has-append x xs ys)

has_sym : (x y : String) → (x =s y) ≡ (y =s x)
has_sym x y = ground (arith, =s_iff x y, =s_iff y x)

Distinct-snoc :
    (xs : List String) (x : String) → Distinct xs → has x xs ≡ false → Distinct (xs ++ x ∷ [])
unfolding has
Distinct-snoc [] x d h = ground arith
Distinct-snoc (y ∷ xs) x d h =
    (ground (arith, has-append y xs (x ∷ []), has_sym x y), Distinct-snoc xs x d.1 (ground arith))

pub add-Distinct : (xs : List String) (x : String) → Distinct xs → Distinct (add xs x)
unfolding add
add-Distinct xs x d = elim (Bool-cases (has x xs)) [
  | inl e ↦ rw e d
  | inr e ↦ rw e (Distinct-snoc xs x d e)
]

has-delete : (x y : String) (xs : List String) → has x xs ≡ false → has x (delete xs y) ≡ false
unfolding has delete
has-delete x y [] h = refl
has-delete x y (z ∷ xs) h = ground (arith, has-delete x y xs)

pub delete-Distinct : (xs : List String) (x : String) → Distinct xs → Distinct (delete xs x)
unfolding delete
delete-Distinct [] x d = d
delete-Distinct (y ∷ xs) x d = ground (arith, delete-Distinct xs x d.1, has-delete y x xs d.0)

pub length-add-le : (xs : List String) (x : String) → length (add xs x) ≤ length xs + 1
unfolding add
length-add-le xs x = ground (arith, length-append xs (x ∷ []))

pub length-delete-le : (xs : List String) (x : String) → length (delete xs x) ≤ length xs
unfolding delete
length-delete-le [] x = omega arith
length-delete-le (y ∷ xs) x = ground (arith, length-delete-le xs x)

-- Reading back a set that was written as an array gives the same set.
Distinct-middle :
    (xs : List String) (x : String) (ys : List String) → Distinct (xs ++ x ∷ ys) → has x xs ≡ false
unfolding has
Distinct-middle [] x ys d = refl
Distinct-middle (y ∷ xs) x ys d =
    ground (arith, has-append y xs (x ∷ ys), has_sym x y, Distinct-middle xs x ys d.1)

add_new : (xs : List String) (x : String) → has x xs ≡ false → add xs x ≡ xs ++ x ∷ []
unfolding add
add_new xs x h = rw h

set_of-append : (xs ys : List String) → Distinct (xs ++ ys) → set_of xs ys ≡ xs ++ ys
unfolding set_of
set_of-append xs [] d = sym (append-nil xs)
set_of-append xs (y ∷ ys) d =
    let fresh : add xs y ≡ xs ++ y ∷ [] = add_new xs y (Distinct-middle xs y ys d) in
    rw fresh (
      set_of-append (xs ++ y ∷ []) ys (rw (append_assoc xs (y ∷ []) ys) d)
      ∙ append_assoc xs (y ∷ []) ys)

pub set_of-Distinct : (xs : List String) → Distinct xs → set_of [] xs ≡ xs
set_of-Distinct xs d = set_of-append [] xs d
