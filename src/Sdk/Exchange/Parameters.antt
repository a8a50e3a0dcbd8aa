-- ===== src/Sdk/Exchange/Parameters.antt =====
-- What the parameters of a request are on the other side.
use walletpair.Common.{
  String, Bool, true, false, not, ◌&&◌, Option, none, some, is_some, ◌≡◌, refl, subst, sym, ap, ◌∙◌,
  arith, ◌=s◌, =s_iff, Bool-cases, inl, inr,
}
use walletpair.Json.{Json, null, bool, num, str, arr, obj, Fields, end, field, get}
use walletpair.Sdk.Objects.{set_field, get-set_field, get-set_field_other}
use walletpair.Sdk.DApp.Requests.{spread, build_sealed_params}
use walletpair.Sdk.DApp.Messages.{without}
use walletpair.Sdk.Wallet.Requests.{params_of}
use walletpair.Sdk.Exchange.{IsReading, map_option}

-- No two properties have the same name.
abbrev pub distinct : Fields → Bool
distinct end = true
distinct (field k v rest) = not (is_some (get k rest)) && distinct rest

-- An object without properties of the names that a request is sealed under.
abbrev pub is_plain : Option Json → Bool
is_plain (some (obj f)) =
    distinct f && not (is_some (get "_method" f)) && not (is_some (get "_params" f))
is_plain (some _) = true
is_plain none = true

-- An object with the properties of another as they are read.
pub record HasProperties (read : Json → Json) (f : Fields) (got : Json) : Type 0 where
  pub fields : Fields
  pub is_obj : got ≡ obj fields
  pub same : (key : String) → get key fields ≡ map_option read (get key f)

-- What arrives of parameters: an object has the properties of the one that was sent, there is an
-- empty one if none was sent, and any other value is itself, as it is read.
abbrev pub Arrives : (Json → Json) → Option Json → Json → Type 0
Arrives read (some (obj f)) got = HasProperties read f got
Arrives read (some null) got = HasProperties read end got
Arrives read (some v) got = got ≡ read v
Arrives read none got = HasProperties read end got

abbrev or_get : Option Json → Option Json → Option Json
or_get none b = b
or_get (some a) b = some a

not_some : (o : Option Json) → not (is_some o) ≡ true → o ≡ none
not_some none e = refl
not_some (some a) e = absurd (cc)

get-spread :
    (key : String) (onto f : Fields)
    → distinct f ≡ true
    → get key (spread onto f) ≡ or_get (get key f) (get key onto)
unfolding spread get
get-spread key onto end d = refl
get-spread key onto (field k v rest) d =
    let later = get-spread key (set_field k v onto) rest (ground (arith, d)) in
    let apart : get k rest ≡ none = not_some (get k rest) (ground (arith, d)) in
    elim (Bool-cases (k =s key)) [
      | inl e ↦
          let same : k ≡ key = (=s_iff k key).0 e in
          let gone : get key rest ≡ none = ap (λ x. get x rest) (sym same) ∙ apart in
          let put : get key (set_field k v onto) ≡ some v =
            ap (λ x. get key (set_field x v onto)) same ∙ get-set_field key v onto in
          later ∙ (rw (gone, put, get, e) refl)
      | inr e ↦
          later
          ∙ ap (or_get (get key rest)) (get-set_field_other key k v onto e)
          ∙ (rw (get, e) refl)
    ]

get-without : (key : String) (f : Fields) → get key (without key f) ≡ none
unfolding without get
get-without key end = refl
get-without key (field k v rest) = elim (Bool-cases (k =s key)) [
  | inl e ↦ rw e (get-without key rest)
  | inr e ↦ rw (e, get, e) (get-without key rest)
]

get-without_other :
    (key gone : String) (f : Fields) → (gone =s key) ≡ false → get key (without gone f) ≡ get key f
unfolding without get
get-without_other key gone end e = refl
get-without_other key gone (field k v rest) e = elim (Bool-cases (k =s gone)) [
  | inl c ↦
      let same : k ≡ gone = (=s_iff k gone).0 c in
      let apart : (k =s key) ≡ false = ap (λ x. x =s key) same ∙ e in
      rw (c, get, apart) (get-without_other key gone rest e)
  | inr c ↦ elim (Bool-cases (k =s key)) [
    | inl d ↦ rw (c, get, d) refl
    | inr d ↦ rw (c, get, d) (get-without_other key gone rest e)
  ]
]

-- What is sealed for an object.
abbrev spread_in : String → Fields → Fields
spread_in method f = spread (field "_method" (str method) end) f

get-spread_in :
    (key method : String) (f : Fields)
    → distinct f ≡ true
    → ("_method" =s key) ≡ false
    → get key (spread_in method f) ≡ get key f
unfolding get
get-spread_in key method f d e =
    get-spread key (field "_method" (str method) end) f d
    ∙ ap (or_get (get key f)) (rw e refl)
    ∙ go (get key f)
  where
    go : (o : Option Json) → or_get o none ≡ o
    go none = refl
    go (some v) = refl

get-spread_method :
    (method : String) (f : Fields)
    → distinct f ≡ true
    → get "_method" f ≡ none
    → get "_method" (spread_in method f) ≡ some (str method)
unfolding get
get-spread_method method f d e =
    get-spread "_method" (field "_method" (str method) end) f d
    ∙ ap (λ o. or_get o (get "_method" (field "_method" (str method) end))) e

-- The value that is sealed is an object with the method.
pub sealed_method :
    (method : String) (params : Option Json)
    → is_plain params ≡ true
    → (f : Fields) × (build_sealed_params method params ≡ obj f)
      × (get "_method" f ≡ some (str method))
unfolding build_sealed_params get
sealed_method method none e = (_, refl, refl)
sealed_method method (some null) e = (_, refl, refl)
sealed_method method (some (bool b)) e = (_, refl, refl)
sealed_method method (some (num n)) e = (_, refl, refl)
sealed_method method (some (str s)) e = (_, refl, refl)
sealed_method method (some (arr items)) e = (_, refl, refl)
sealed_method method (some (obj f)) e = (
  spread_in method f,
  refl,
  get-spread_method method f (ground (arith, e)) (not_some (get "_method" f) (ground (arith, e))),
)

module _ (read : Json → Json) (reading : IsReading read) where
  -- A value beside the method.
  value_arrives :
      (method : String) (v : Json)
      → params_of (read (obj (field "_method" (str method) (field "_params" v end)))) ≡ read v
  unfolding params_of get
  value_arrives method v =
      let (g, r, h) = reading.read_obj (field "_method" (str method) (field "_params" v end)) in
      let p : get "_params" g ≡ some (read v) = h "_params" in rw (r, p) refl

  empty_arrives : (got : Json) → got ≡ read (obj end) → HasProperties read end got
  unfolding get
  empty_arrives got e =
      let (g, r, h) = reading.read_obj end in record { fields = g; is_obj = e ∙ r; same = h }

  kept :
      (method : String) (f g : Fields)
      → distinct f ≡ true
      → get "_method" f ≡ none
      → get "_params" f ≡ none
      → ((key : String) → get key g ≡ map_option read (get key (spread_in method f)))
      → (key : String)
      → get key (without "_params" (without "_method" g)) ≡ map_option read (get key f)
  kept method f g d m p h key = elim (Bool-cases ("_params" =s key)) [
    | inl e ↦
        let same : "_params" ≡ key = (=s_iff "_params" key).0 e in
        subst (λ x. get x (without "_params" (without "_method" g)) ≡ map_option read (get x f))
          same (get-without "_params" (without "_method" g) ∙ ap (map_option read) (sym p))
    | inr e ↦
        get-without_other key "_params" (without "_method" g) e
        ∙ elim (Bool-cases ("_method" =s key)) [
          | inl c ↦
              let same : "_method" ≡ key = (=s_iff "_method" key).0 c in
              subst (λ x. get x (without "_method" g) ≡ map_option read (get x f)) same
                (get-without "_method" g ∙ ap (map_option read) (sym m))
          | inr c ↦
              get-without_other key "_method" g c
              ∙ h key
              ∙ ap (map_option read) (get-spread_in key method f d c)
        ]
  ]

  object_arrives :
      (method : String) (f : Fields)
      → distinct f ≡ true
      → get "_method" f ≡ none
      → get "_params" f ≡ none
      → HasProperties read f (params_of (read (obj (spread_in method f))))
  unfolding params_of
  object_arrives method f d m p =
      let (g, r, h) = reading.read_obj (spread_in method f) in
      let absent : get "_params" g ≡ none =
        h "_params" ∙ ap (map_option read) (get-spread_in "_params" method f d refl ∙ p) in
      record {
        fields = without "_params" (without "_method" g);
        is_obj = rw (r, absent) refl;
        same = kept method f g d m p h;
      }

  pub params-Arrives :
      (method : String) (params : Option Json)
      → is_plain params ≡ true
      → Arrives read params (params_of (read (build_sealed_params method params)))
  unfolding build_sealed_params
  params-Arrives method none e = empty_arrives _ (value_arrives method (obj end))
  params-Arrives method (some null) e = empty_arrives _ (value_arrives method (obj end))
  params-Arrives method (some (bool b)) e = value_arrives method (bool b)
  params-Arrives method (some (num n)) e = value_arrives method (num n)
  params-Arrives method (some (str s)) e = value_arrives method (str s)
  params-Arrives method (some (arr items)) e = value_arrives method (arr items)
  params-Arrives method (some (obj f)) e =
      object_arrives method f (ground (arith, e)) (not_some (get "_method" f) (ground (arith, e)))
        (not_some (get "_params" f) (ground (arith, e)))
