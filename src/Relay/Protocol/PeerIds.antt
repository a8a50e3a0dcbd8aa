-- ===== src/Relay/Protocol/PeerIds.antt =====
-- Which texts are peer ids.
use walletpair.Common.{
  ℕ, suc, ◌*◌, ◌/◌, ◌%◌, String, true, false, ◌&&◌, List, [], ◌∷◌, ◌++◌, map, none, some, ◌≡◌, ◌≢◌,
  ◌↔◌, ◌⊎◌, inl, inr, refl, ap, ◌∙◌, arith, All, every, length, codes, length-append, Bool-cases,
  ◌==◌, &&-eq-true, if◌then◌else◌, append_assoc, =s_iff, ◌=s◌, sym,
}
use walletpair.Base64.{sextet, pack, atob}
use walletpair.Base64.Decoding.{
  IsLetter, length-pack, sextets-All, atob_whole, atob_two, atob_one, atob_three,
}
use walletpair.Relay.Channel.State.{truthy}
use walletpair.Relay.Protocol.{
  is_b64url, to_b64, pad_loop, is_32_bytes, is_nonempty, validate_peer_id,
}

to_b64-IsLetter : (c : ℕ) → is_b64url c ≡ true → IsLetter (to_b64 c)
unfolding is_b64url to_b64 sextet
to_b64-IsLetter c h = ground arith

map-to_b64-IsLetter : (cs : List ℕ) → every is_b64url cs ≡ true → All IsLetter (map to_b64 cs)
map-to_b64-IsLetter [] h = tt
map-to_b64-IsLetter (c ∷ cs) h =
    let (p, q) = (&&-eq-true (is_b64url c) (every is_b64url cs)).0 h in
    (to_b64-IsLetter c p, map-to_b64-IsLetter cs q)

length-map : (f : ℕ → ℕ) (cs : List ℕ) → length (map f cs) ≡ length cs
length-map f [] = refl
length-map f (c ∷ cs) = ap suc (length-map f cs)

-- The loop adds what is missing to a multiple of four, and three rounds are enough.
pad_loop_whole : (cs : List ℕ) → length cs % 4 ≡ 0 → pad_loop 3 cs ≡ cs
unfolding pad_loop
pad_loop_whole cs h = ground arith

pad_loop_one : (cs : List ℕ) → length cs % 4 ≡ 3 → pad_loop 3 cs ≡ cs ++ b'=' ∷ []
unfolding pad_loop
pad_loop_one cs h = ground (arith, length-append cs (b'=' ∷ []))

pad_loop_two : (cs : List ℕ) → length cs % 4 ≡ 2 → pad_loop 3 cs ≡ cs ++ b'=' ∷ b'=' ∷ []
unfolding pad_loop
pad_loop_two cs h = ground (
  arith,
  length-append cs (b'=' ∷ []),
  length-append (cs ++ b'=' ∷ []) (b'=' ∷ []),
  append_assoc cs (b'=' ∷ []) (b'=' ∷ []),
)

pad_loop_three : (cs : List ℕ) → length cs % 4 ≡ 1 → pad_loop 3 cs ≡ cs ++ b'=' ∷ b'=' ∷ b'=' ∷ []
unfolding pad_loop
pad_loop_three cs h = ground (
  arith,
  length-append cs (b'=' ∷ []),
  length-append (cs ++ b'=' ∷ []) (b'=' ∷ []),
  append_assoc cs (b'=' ∷ []) (b'=' ∷ []),
  append_assoc cs (b'=' ∷ b'=' ∷ []) (b'=' ∷ []),
)

-- Letters decode to three bytes for every four, unless one letter is left over.
pub Decodes : List ℕ → Type 0
Decodes cs =
    ((length cs % 4 ≡ 1) × (atob (pad_loop 3 cs) ≡ none))
    ⊎ ((bs : List ℕ) × (length cs % 4 ≢ 1)
        × (atob (pad_loop 3 cs) ≡ some bs)
        × (length bs ≡ length cs * 3 / 4))

pub letters-Decodes : (cs : List ℕ) → All IsLetter cs → Decodes cs
unfolding Decodes
letters-Decodes cs h =
    let (ns, e, same) = sextets-All cs h in
    let size : length (pack ns) ≡ length cs * 3 / 4 =
      length-pack ns ∙ ap (λ (n : ℕ). n * 3 / 4) same in
    elim (Bool-cases (length cs % 4 == 0)) [
      | inl r ↦
          let r' : length cs % 4 ≡ 0 = ground arith in
          inr (pack ns, omega arith, rw (pad_loop_whole cs r') (atob_whole cs h ns r' e), size)
      | inr r0 ↦ elim (Bool-cases (length cs % 4 == 3)) [
        | inl r ↦
            let r' : length cs % 4 ≡ 3 = ground arith in
            inr (pack ns, omega arith, rw (pad_loop_one cs r') (atob_one cs h ns r' e), size)
        | inr r3 ↦ elim (Bool-cases (length cs % 4 == 2)) [
          | inl r ↦
              let r' : length cs % 4 ≡ 2 = ground arith in
              inr (pack ns, omega arith, rw (pad_loop_two cs r') (atob_two cs h ns r' e), size)
          | inr r2 ↦
              let r' : length cs % 4 ≡ 1 = ground arith in
              inl (r', rw (pad_loop_three cs r') (atob_three cs h r'))
        ]
      ]
    ]

is_32_bytes_iff :
    (cs : List ℕ) → All IsLetter cs → (is_32_bytes (atob (pad_loop 3 cs)) ≡ true) ↔ (length cs ≡ 43)
unfolding Decodes
is_32_bytes_iff cs h = elim (letters-Decodes cs h) [
  | inl (r, e) ↦ rw e ((λ f. cc), λ n. absurd (omega arith))
  | inr (bs, r, e, n) ↦ rw e (ground arith)
]

codes_valid_iff :
    (cs : List ℕ)
    → ((if is_nonempty cs && every is_b64url cs
          then is_32_bytes (atob (pad_loop 3 (map to_b64 cs)))
          else false)
        ≡ true)
      ↔ ((every is_b64url cs ≡ true) × (length cs ≡ 43))
codes_valid_iff [] = ground arith
codes_valid_iff (c ∷ cs) = elim (Bool-cases (every is_b64url (c ∷ cs))) [
  | inl e ↦
      let bytes = is_32_bytes_iff (map to_b64 (c ∷ cs)) (map-to_b64-IsLetter (c ∷ cs) e) in
      ground (arith, bytes, length-map to_b64 (c ∷ cs))
  | inr e ↦ ground arith
]

-- A text is a peer id exactly when it consists of 43 characters of the base64url alphabet: the
-- padding loop, the decoder and its exception come to that.
pub validate_peer_id_iff :
    (peer_id : String)
    → (validate_peer_id peer_id ≡ true)
      ↔ ((every is_b64url (codes peer_id) ≡ true) × (length (codes peer_id) ≡ 43))
unfolding validate_peer_id
validate_peer_id_iff peer_id = codes_valid_iff (codes peer_id)

-- No peer id is empty, so a stored one reads as true.
pub truthy_peer_id :
    (peer_id : String) → validate_peer_id peer_id ≡ true → truthy (some peer_id) ≡ true
truthy_peer_id peer_id h = elim (Bool-cases (peer_id =s "")) [
  | inl e ↦
      let empty : peer_id ≡ "" = (=s_iff peer_id "").0 e in
      let long = ((validate_peer_id_iff peer_id).0 h).1 in
      absurd (omega (arith, sym long ∙ ap (λ (s : String). length (codes s)) empty))
  | inr e ↦ rw e
]
