-- ===== src/Sdk/Crypto/PairingUris/Parsing.antt =====
-- What a pairing URI that is parsed has.
use walletpair.Common.{
  ◌≤◌, ◌≡◌, refl, subst, arith, true, ◌&&◌, Option, none, some, List, [], ◌∷◌, length, codes,
  Bool-cases, inl, inr,
}
use walletpair.Sdk.Crypto.Encodings.{Text, b64url_decode}
use walletpair.Sdk.Crypto.PairingUris.{
  UriCodec, PairingParams, present, is_32_long, is_channel_id, starts_with, drop_prefix, list_of,
  check_params, parse_pairing_uri,
}

-- A channel id, a key of 32 bytes, an icon under https, and a relay, a name and a URL.
pub record IsPairing (q : PairingParams) : Type 0 where
  pub channel : is_channel_id q.ch ≡ true
  pub key : is_32_long (b64url_decode q.pubkey) ≡ true
  pub secure_icon : starts_with (codes "https:") q.icon ≡ true
  pub relayed : 1 ≤ length q.relay
  pub named : 1 ≤ length q.name
  pub located : 1 ≤ length q.url

present-nonempty : (t : Option Text) (s : Text) → present t ≡ some s → 1 ≤ length s
present-nonempty none s e = cc
present-nonempty (some []) s e = cc
present-nonempty (some (c ∷ cs)) s e = let f : c ∷ cs ≡ s = cc in rw⁻¹ f (omega arith)

check_params-IsPairing :
    (ch pubkey relay name url icon : Option Text) (methods chains : Option (List Text))
    (u : UriCodec) (q : PairingParams)
    → ((s : Text) → relay ≡ some s → 1 ≤ length s)
    → ((s : Text) → name ≡ some s → 1 ≤ length s)
    → ((s : Text) → url ≡ some s → 1 ≤ length s)
    → check_params u ch pubkey relay name url icon methods chains ≡ some q
    → IsPairing q
check_params-IsPairing (some ch) (some pubkey) (some relay) (some name) (some url) (some icon)
      methods chains u q r n l e =
    elim (Bool-cases (
      is_channel_id ch && is_32_long (b64url_decode pubkey) && starts_with (codes "https:") icon)) [
        | inr f ↦ absurd (let g = rw f at e in cc)
        | inl f ↦
            let p : PairingParams = record {
              ch = ch;
              pubkey = pubkey;
              relay = relay;
              name = name;
              url = url;
              icon = icon;
              methods = methods;
              chains = chains;
            } in
            let g : p ≡ q = let h = rw f at e in cc in
            subst IsPairing g (record {
              channel = ground arith;
              key = ground arith;
              secure_icon = ground arith;
              relayed = r relay refl;
              named = n name refl;
              located = l url refl;
            })
      ]
check_params-IsPairing none pubkey relay name url icon methods chains u q r n l e = cc
check_params-IsPairing (some ch) none relay name url icon methods chains u q r n l e = cc
check_params-IsPairing (some ch) (some pubkey) none name url icon methods chains u q r n l e = cc
check_params-IsPairing (some ch) (some pubkey) (some relay) none url icon methods chains u q r n l
      e =
    cc
check_params-IsPairing (some ch) (some pubkey) (some relay) (some name) none icon methods chains u q
      r n l e =
    cc
check_params-IsPairing (some ch) (some pubkey) (some relay) (some name) (some url) none methods
      chains u q r n l e =
    cc

-- For every reading of query parameters, a URI that is parsed gives a channel id of 64 lower case
-- hex digits, a key that decodes to 32 bytes, an icon that starts with `https:`, and a relay, a
-- name and a URL that are not empty.
pub parse_pairing_uri-IsPairing :
    (u : UriCodec) (uri : Text) (q : PairingParams) → parse_pairing_uri u uri ≡ some q → IsPairing q
unfolding parse_pairing_uri
parse_pairing_uri-IsPairing u uri q e =
    let qs = drop_prefix (codes "walletpair:?") uri in
    check_params-IsPairing (present (u.get qs (codes "ch"))) (present (u.get qs (codes "pubkey")))
      (present (u.get qs (codes "relay"))) (present (u.get qs (codes "name")))
      (present (u.get qs (codes "url"))) (present (u.get qs (codes "icon")))
      (list_of (present (u.get qs (codes "methods"))))
      (list_of (present (u.get qs (codes "chains")))) u q
      (present-nonempty (u.get qs (codes "relay"))) (present-nonempty (u.get qs (codes "name")))
      (present-nonempty (u.get qs (codes "url"))) e
