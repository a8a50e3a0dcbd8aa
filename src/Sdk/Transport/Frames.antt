-- ===== src/Sdk/Transport/Frames.antt =====
-- The frames that are sent before a socket is open.
use walletpair.Common.{
  ℕ, suc, ◌-◌, ◌≤◌, ◌≡◌, refl, sym, ap, ◌∙◌, arith, false, none, some, List, [], ◌∷◌, ◌++◌, leb,
  length, length-append, length-drop, drop-append, shift-drop, drop, append_assoc, append-nil,
  Bool-cases, inl, inr,
}
use walletpair.Json.{Json}
use walletpair.Sdk.Transport.{
  Transport, connected, disconnected, disconnect, max_outbound_queue, connect, queue, send,
  write_each, flush_outbound, on_open, has_socket,
}

-- The last frames of a list, up to the limit.
abbrev pub last_frames : List Json → List Json
last_frames xs = drop (length xs - max_outbound_queue) xs

unfoldable pub send_each : List Json → Transport → Transport
unfolding send
send_each [] t = t
send_each (x ∷ xs) t = send_each xs (send x t)

unfoldable queue_each : List Json → List Json → List Json
unfolding queue
queue_each [] q = q
queue_each (x ∷ xs) q = queue_each xs (queue x q)

-- A frame is put behind the last ones.
queue-last : (xs : List Json) (x : Json) → queue x (last_frames xs) ≡ last_frames (xs ++ x ∷ [])
unfolding queue
queue-last xs x =
    let n = length xs in
    let l = length-drop (n - 64) xs in
    let m = length-append xs (x ∷ []) in
    elim (Bool-cases (leb 64 (length (drop (n - 64) xs)))) [
      | inl e ↦
          let full : length (xs ++ x ∷ []) - 64 ≡ suc (n - 64) = ground (arith, l, m) in
          let within : suc (n - 64) ≤ n = ground (arith, l) in
          rw (e, shift-drop (n - 64) xs, full) (sym (drop-append (suc (n - 64)) xs (x ∷ []) within))
      | inr e ↦
          let short : length (xs ++ x ∷ []) - 64 ≡ 0 = ground (arith, l, m) in
          let none_yet : n - 64 ≡ 0 = ground (arith, l) in rw (e, short, none_yet) refl
    ]

-- What is sent while there is no socket is queued, and nothing else changes.
send_each-queued :
    (xs : List Json) (t : Transport)
    → t.ws ≡ none
    → send_each xs t ≡ record t { outbound = queue_each xs t.outbound }
unfolding send_each send queue_each
send_each-queued [] t e = refl
send_each-queued (x ∷ xs) t e =
    let one : send x t ≡ record t { outbound = queue x t.outbound } = simp e refl in
    ap (send_each xs) one ∙ send_each-queued xs (record t { outbound = queue x t.outbound }) e

queue_each-last : (xs ys : List Json) → queue_each xs (last_frames ys) ≡ last_frames (ys ++ xs)
unfolding queue_each
queue_each-last [] ys = ap last_frames (sym (append-nil ys))
queue_each-last (x ∷ xs) ys =
    ap (queue_each xs) (queue-last ys x)
    ∙ queue_each-last xs (ys ++ x ∷ [])
    ∙ ap last_frames (append_assoc ys (x ∷ []) xs)

-- Frames that are written to a socket one after the other.
abbrev pub onto : ℕ → List Json → List (ℕ × Json) → List (ℕ × Json)
onto n [] ws = ws
onto n (x ∷ xs) ws = onto n xs ((n, x) ∷ ws)

write_each-writes :
    (n : ℕ) (xs : List Json) (t : Transport)
    → ((write_each n xs t).writes ≡ onto n xs t.writes)
      × ((write_each n xs t).outbound ≡ t.outbound)
      × ((write_each n xs t).state ≡ t.state)
unfolding write_each
write_each-writes n [] t = (refl, refl, refl)
write_each-writes n (x ∷ xs) t = write_each-writes n xs (record t { writes = (n, x) ∷ t.writes })

-- On a transport with no socket, let `connect` start a socket that has not come to an end, and let
-- frames be sent before it opens. The last 64 of them wait in order, and when the socket opens
-- these are written to it in that order, none is left to wait, and the transport is connected.
pub flushed_in_order :
    (xs : List Json) (t : Transport)
    → t.ws ≡ none
    → has_socket t.next_socket t.settled ≡ false
    → let waiting = send_each xs (connect t).0 in
      let opened = on_open (connect t).1 waiting in
      (waiting.outbound ≡ last_frames xs)
      × (length waiting.outbound ≤ max_outbound_queue)
      × (opened.writes ≡ onto t.next_socket (last_frames xs) t.writes)
      × (opened.outbound ≡ [])
      × (opened.state ≡ connected)
unfolding connect on_open flush_outbound
flushed_in_order xs t e fresh =
    let t' : Transport = (connect t).0 in
    let n = t.next_socket in
    let q : queue_each xs [] ≡ last_frames xs = queue_each-last xs [] in
    let s : send_each xs t' ≡ record t' { outbound = last_frames xs } =
      send_each-queued xs t' e ∙ ap (λ x. record t' { outbound = x }) q in
    let w = write_each-writes n (last_frames xs) (record t' {
      settled = n ∷ t.settled;
      state = connected;
      ws = some n;
      last_errored = false;
      outbound = [];
    }) in
    rw (s, fresh)
      (refl, omega (arith, length-drop (length xs - max_outbound_queue) xs), w.0, w.1, w.2)

-- A transport that has no socket and is disconnected while `connect` is under way is connected again
-- once that socket opens, with nothing written to it.
pub disconnect_overtaken :
    (t : Transport)
    → t.ws ≡ none
    → has_socket t.next_socket t.settled ≡ false
    → let gone = disconnect (connect t).0 in
      (gone.state ≡ disconnected)
      × ((on_open (connect t).1 gone).state ≡ connected)
      × ((on_open (connect t).1 gone).writes ≡ t.writes)
unfolding connect disconnect on_open flush_outbound write_each
disconnect_overtaken t e fresh = rw (e, fresh) (refl, refl, refl)
