-- ===== src/Sdk/DisconnectLog/Last.antt =====
-- What the log has after any number of records.
use walletpair.Common.{
  suc, ◌-◌, ◌≤◌, ◌≡◌, refl, sym, ap, ◌∙◌, arith, List, [], ◌∷◌, ◌++◌, ltb, length, length-append,
  length-drop, drop-append, shift-drop, shift, drop, append_assoc, append-nil, Bool-cases, inl, inr,
}
use walletpair.Sdk.DisconnectLog.{DisconnectLogEntry, ring_size, record_disconnect}

abbrev pub last_entries : List DisconnectLogEntry → List DisconnectLogEntry
last_entries xs = drop (length xs - ring_size) xs

unfoldable pub record_each :
    List DisconnectLogEntry → List DisconnectLogEntry → List DisconnectLogEntry
unfolding record_disconnect
record_each [] ring = ring
record_each (x ∷ xs) ring = record_each xs (record_disconnect x ring)

record_disconnect-last :
    (xs : List DisconnectLogEntry) (x : DisconnectLogEntry)
    → record_disconnect x (last_entries xs) ≡ last_entries (xs ++ x ∷ [])
unfolding record_disconnect
record_disconnect-last xs x =
    let n = length xs in
    let l = length-drop (n - 50) xs in
    let m = length-append xs (x ∷ []) in
    let p = length-append (drop (n - 50) xs) (x ∷ []) in
    let pushed : drop (n - 50) (xs ++ x ∷ []) ≡ drop (n - 50) xs ++ x ∷ [] =
      drop-append (n - 50) xs (x ∷ []) (omega arith) in
    elim (Bool-cases (ltb 50 (length (drop (n - 50) xs ++ x ∷ [])))) [
      | inl e ↦
          let full : length (xs ++ x ∷ []) - 50 ≡ suc (n - 50) = ground (arith, l, m, p) in
          rw (e, full) (ap shift (sym pushed) ∙ shift-drop (n - 50) (xs ++ x ∷ []))
      | inr e ↦
          let short : length (xs ++ x ∷ []) - 50 ≡ 0 = ground (arith, l, m, p) in
          let none_yet : n - 50 ≡ 0 = ground (arith, l, p) in rw (e, short, none_yet) refl
    ]

record_each-last :
    (xs ys : List DisconnectLogEntry) → record_each xs (last_entries ys) ≡ last_entries (ys ++ xs)
unfolding record_each
record_each-last [] ys = ap last_entries (sym (append-nil ys))
record_each-last (x ∷ xs) ys =
    ap (record_each xs) (record_disconnect-last ys x)
    ∙ record_each-last xs (ys ++ x ∷ [])
    ∙ ap last_entries (append_assoc ys (x ∷ []) xs)

-- From an empty log, whatever entries are recorded: the log has the last 50 of them, oldest first,
-- and no more than 50.
pub record_each-last_entries :
    (xs : List DisconnectLogEntry)
    → (record_each xs [] ≡ last_entries xs) × (length (record_each xs []) ≤ ring_size)
record_each-last_entries xs =
    let e = record_each-last xs [] in
    (e, rw e (omega (arith, length-drop (length xs - ring_size) xs)))
