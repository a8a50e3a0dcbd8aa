-- ===== src/Relay/Channel/Delivery.antt =====
-- Who receives what of a message of data, and how requests are counted.
use walletpair.Common.{
  ℕ, ◌+◌, ◌<◌, String, Bool, true, false, Option, none, some, List, [], ◌∷◌, ◌++◌, ◌≡◌, ◌⊎◌, inl,
  inr, refl, ap, sym, ◌∙◌, arith, length, is_just, is_just_iff, Option-cases, Bool-cases, =s_iff,
  length-append,
}
use walletpair.Relay.Types.{Role, CloseReasonString, rate_limited, invalid_role}
use walletpair.Relay.Protocol.{terminate, state_allows_message}
use walletpair.Relay.Channel.State.{
  Socket, Frame, built, raw_text, sends, closes, Channel, has, add, delete, send, socket_at,
  send_then_close, close_ws, send_and_close, find_peer_ws, persist_state, pending_request_limit,
}
use walletpair.Relay.Channel.Quiet.{send-Quiet, forward-Quiet}
use walletpair.Relay.Channel.Traffic.{
  DataMessage, a_req, a_res, a_evt, a_ping, a_pong, track, handle_data, admit, forward, other_role,
  expected_peer_id, type_of, persist_if_tracked, data_refusal,
}

sent-persist : (c : Channel) → (persist_state c).sent ≡ c.sent
unfolding persist_state
sent-persist c = ground arith

socket_at-id : (id : ℕ) (ss : List Socket) (s : Socket) → socket_at id ss ≡ some s → s.id ≡ id
unfolding socket_at
socket_at-id id [] s e = cc
socket_at-id id (t ∷ ss) s e = ground (arith, socket_at-id id ss s)

-- Nothing was sent; or the message was refused, which its sender alone is told; or its text, and
-- nothing else, went to the first open socket of the other role, which is so only if the sender is
-- the stored peer of its role and the state allows the message.
pub data Sent (id : ℕ) (raw from : String) (m : DataMessage) (r : Role) (c c' : Channel)
    : Type 0 where
  silent : c'.sent ≡ c.sent → Sent id raw from m r c c'
  told :
      (reason : CloseReasonString) (ch : String)
      → c'.sent ≡ closes id "rejected" ∷ sends id (built (terminate ch reason)) ∷ c.sent
      → c'.pending_requests ≡ c.pending_requests
      → Sent id raw from m r c c'
  forwarded :
      (s : Socket)
      → find_peer_ws (other_role r) c.sockets ≡ some s
      → expected_peer_id r c ≡ some from
      → state_allows_message c.channel_state (type_of m) r ≡ true
      → track m c.pending_requests ≡ some c'.pending_requests
      → c'.sent ≡ sends s.id (raw_text raw) ∷ c.sent
      → Sent id raw from m r c c'

module _ (throws : Socket → Bool) where
  send-sent :
      (id : ℕ) (frame : Frame) (c c' : Channel)
      → send throws id frame c ≡ some c'
      → c'.sent ≡ sends id frame ∷ c.sent
  unfolding send
  send-sent id frame c c' e = elim (Option-cases (socket_at id c.sockets)) [
    | inl f ↦ ground arith
    | inr (s, f) ↦ ground (arith, socket_at-id id c.sockets s f)
  ]

  refusal-Sent :
      (id : ℕ) (raw from ch : String) (reason : CloseReasonString) (m : DataMessage) (r : Role)
      (c : Channel)
      → Sent id raw from m r c (send_and_close throws id (terminate ch reason) c)
  unfolding send_and_close send_then_close close_ws
  refusal-Sent id raw from ch reason m r c =
      elim (Option-cases (send throws id (built (terminate ch reason)) c)) [
        | inl e ↦ rw (e, send_then_close) (silent refl)
        | inr (c', e) ↦
            rw (e, send_then_close)
              (told reason ch
                (ap (◌∷◌ (closes id "rejected"))
                  (send-sent id (built (terminate ch reason)) c c' e))
                (send-Quiet throws id (built (terminate ch reason)) c c' e).pending)
      ]

  forward-sent :
      (r : Role) (raw : String) (c : Channel)
      → ((forward throws r raw c).sent ≡ c.sent)
        ⊎ ((s : Socket) × (find_peer_ws r c.sockets ≡ some s)
            × ((forward throws r raw c).sent ≡ sends s.id (raw_text raw) ∷ c.sent))
  unfolding forward
  forward-sent r raw c = elim (Option-cases (find_peer_ws r c.sockets)) [
    | inl e ↦ rw (e, forward) (inl refl)
    | inr (s, e) ↦ elim (Option-cases (send throws s.id (raw_text raw) c)) [
      | inl f ↦ rw (e, f, forward) (inl refl)
      | inr (c', f) ↦ rw (e, f, forward) (inr (s, refl, send-sent s.id (raw_text raw) c c' f))
    ]
  ]

  persist_if_tracked-same :
      (m : DataMessage) (c : Channel)
      → ((persist_if_tracked m c).sent ≡ c.sent)
        × ((persist_if_tracked m c).pending_requests ≡ c.pending_requests)
  unfolding persist_state
  persist_if_tracked-same (a_req n) c = ground arith
  persist_if_tracked-same (a_res n) c = ground arith
  persist_if_tracked-same (a_evt n) c = (refl, refl)
  persist_if_tracked-same a_ping c = (refl, refl)
  persist_if_tracked-same a_pong c = (refl, refl)

  admit-Sent :
      (id : ℕ) (raw from ch : String) (m : DataMessage) (r : Role) (o : Option (List String))
      (c : Channel)
      → expected_peer_id r c ≡ some from
      → state_allows_message c.channel_state (type_of m) r ≡ true
      → track m c.pending_requests ≡ o
      → Sent id raw from m r c (admit throws id raw ch m r o c)
  unfolding admit
  admit-Sent id raw from ch m r none c h k t = refusal-Sent id raw from ch rate_limited m r c
  admit-Sent id raw from ch m r (some qs) c h k t =
      let c' = record c { pending_requests = qs } in
      let c'' = forward throws (other_role r) raw c' in
      let (same, kept) = persist_if_tracked-same m c'' in
      elim (forward-sent (other_role r) raw c') [
        | inl e ↦ silent (same ∙ e)
        | inr (s, f, e) ↦
            forwarded s f h k
              (t ∙ ap some (sym (kept ∙ (forward-Quiet throws (other_role r) raw c').pending)))
              (same ∙ e)
      ]

  -- What a message of data puts out, on every branch of its handler: a client's text reaches at most
  -- one socket, an open one of the other role, and only from the stored peer and in a state that
  -- allows it; a message that is refused closes its sender's socket and leaves the pending set alone.
  pub handle_data-Sent :
      (id : ℕ) (raw ch from : String) (m : DataMessage) (r : Role) (c : Channel)
      → Sent id raw from m r c (handle_data throws id raw ch from m r c)
  unfolding handle_data
  handle_data-Sent id raw ch from m r c = elim (Bool-cases (is_just from (expected_peer_id r c))) [
    | inr e ↦ rw (e, handle_data) (refusal-Sent id raw from ch invalid_role m r c)
    | inl e ↦ elim (Bool-cases (state_allows_message c.channel_state (type_of m) r)) [
      | inr f ↦
          rw (e, f, handle_data)
            (refusal-Sent id raw from ch (data_refusal c.channel_state m) m r c)
      | inl f ↦
          rw (e, f, handle_data)
            (admit-Sent id raw from ch m r (track m c.pending_requests) c
              ((is_just_iff from (expected_peer_id r c)).0 e) f refl)
    ]
  ]

delete-append : (xs : List String) (x : String) → has x xs ≡ false → delete (xs ++ x ∷ []) x ≡ xs
unfolding has delete
delete-append [] x h = ground (arith, =s_iff x x)
delete-append (y ∷ xs) x h = ground (arith, delete-append xs x)

-- A request that is not pending takes one slot while there is one, and its response gives exactly
-- that slot back.
pub track_response :
    (id : String) (pending : List String)
    → has id pending ≡ false
    → length pending < pending_request_limit
    → (pending' : List String) × (track (a_req id) pending ≡ some pending')
      × (length pending' ≡ length pending + 1)
      × (track (a_res id) pending' ≡ some pending)
unfolding track add
track_response id pending h l = (
  pending ++ id ∷ [],
  ground arith,
  ground (arith, length-append pending (id ∷ [])),
  ap some (delete-append pending id h),
)
