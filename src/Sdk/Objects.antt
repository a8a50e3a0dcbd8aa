-- ===== src/Sdk/Objects.antt =====
-- Properties that are assigned.
use walletpair.Common.{
  String, true, false, some, ◌≡◌, refl, ap, ◌∙◌, ◌=s◌, =s_iff, if◌then◌else◌, Bool-cases, inl, inr,
}
use walletpair.Json.{Json, Fields, end, field, get}

-- `obj[key] = v`: a property of the name is replaced in its place.
unfoldable pub set_field : String → Json → Fields → Fields
set_field key v end = field key v end
set_field key v (field k w rest) =
    let later = set_field key v rest in if k =s key then field k v rest else field k w later

pub get-set_field : (key : String) (v : Json) (f : Fields) → get key (set_field key v f) ≡ some v
unfolding get set_field
get-set_field key v end = let same : (key =s key) ≡ true = (=s_iff key key).1 refl in rw same refl
get-set_field key v (field k w rest) = elim (Bool-cases (k =s key)) [
  | inl e ↦ rw (e, get, e) refl
  | inr e ↦ rw (e, get, e) (get-set_field key v rest)
]

pub get-set_field_other :
    (key other : String) (v : Json) (f : Fields)
    → (other =s key) ≡ false
    → get key (set_field other v f) ≡ get key f
unfolding get set_field
get-set_field_other key other v end e = rw e refl
get-set_field_other key other v (field k w rest) e = elim (Bool-cases (k =s other)) [
  | inl c ↦
      let same : k ≡ other = (=s_iff k other).0 c in
      let apart : (k =s key) ≡ false = ap (λ x. x =s key) same ∙ e in rw (c, get, apart) refl
  | inr c ↦ elim (Bool-cases (k =s key)) [
    | inl d ↦ rw (c, get, d) refl
    | inr d ↦ rw (c, get, d) (get-set_field_other key other v rest e)
  ]
]
