-- ===== src/Relay/Channel/Edges.antt =====
-- Where the worker does less than its comments say: sockets that were replaced, and objects that
-- were evicted without an attachment.
use walletpair.Common.{
  ℕ, String, Bool, true, false, Option, none, some, List, [], ◌∷◌, ◌≡◌, ◌≢◌, refl, sym, ◌∙◌, ap,
  arith,
}
use walletpair.Relay.Types.{
  Role, dapp, wallet, waiting, closed, normal, WsAttachment, PersistedChannelState,
}
use walletpair.Relay.Protocol.{terminate, ready_waiting}
use walletpair.Relay.Channel.State.{
  Socket, Frame, built, sends, Channel, thrown, truthy, get_attachment, socket_at, update,
  find_peer_ws, attached_channel, persist_state, hibernate, ensure_initialized, send,
  send_then_close, close_ws, set_attachment, or_empty, closing,
}
use walletpair.Relay.Channel.Pairing.{
  handle_create, create_in, make_room, replace_peer, open_channel, cleared,
}
use walletpair.Relay.Channel.Traffic.{handle_disconnect, disconnect_in, dapp_gone}
use walletpair.Relay.Channel.Events.{alarm, expire, web_socket_close}
use walletpair.Relay.Channel.Recovery.{ensure_initialized_awake}

-- What comes back of an object that was evicted while no socket had an attachment.
pub record Nameless (c c' : Channel) : Type 0 where
  pub id : c'.channel_id ≡ none
  pub storage : c'.storage ≡ c.storage
  pub sent : c'.sent ≡ c.sent
  pub state : (p : PersistedChannelState) → c.storage ≡ some p → c'.channel_state ≡ p.state

hibernate-Nameless :
    (o : Option PersistedChannelState) (c : Channel)
    → c.storage ≡ o
    → attached_channel c.sockets ≡ none
    → Nameless c (ensure_initialized (hibernate c))
unfolding hibernate ensure_initialized
hibernate-Nameless none c e a =
    rw (e, a) (record { id = refl; storage = refl; sent = refl; state = λ p f. cc })
hibernate-Nameless (some q) c e a =
    rw (e, a) (record { id = refl; storage = refl; sent = refl; state = λ p f. ground arith })

module _ (throws : Socket → Bool) where
  dapp_gone_alone :
      (ch : String) (c : Channel)
      → truthy c.channel_id ≡ true
      → find_peer_ws wallet c.sockets ≡ none
      → ((dapp_gone throws ch c).channel_state ≡ closed)
        × ((dapp_gone throws ch c).sent ≡ c.sent)
        × ((dapp_gone throws ch c).sockets ≡ c.sockets)
        × ((dapp_gone throws ch c).alarm_at ≡ none)
  unfolding dapp_gone persist_state
  dapp_gone_alone ch c n w = rw (w, n) (refl, refl, refl, refl)

  -- While no wallet has an open socket, any socket that was once a dApp's closes a waiting channel
  -- when it goes, also one that another dApp has replaced: the socket of the dApp that waits stays as
  -- it is and is told nothing, and the alarm is deleted.
  pub stale_dapp_closes :
      (now id : ℕ) (c : Channel) (a : WsAttachment)
      → c.initialized ≡ true
      → truthy c.channel_id ≡ true
      → c.channel_state ≡ waiting
      → get_attachment id c.sockets ≡ some a
      → a.role ≡ dapp
      → find_peer_ws wallet c.sockets ≡ none
      → ((web_socket_close throws now id c).channel_state ≡ closed)
        × ((web_socket_close throws now id c).sent ≡ c.sent)
        × ((web_socket_close throws now id c).sockets ≡ c.sockets)
        × ((web_socket_close throws now id c).alarm_at ≡ none)
  unfolding web_socket_close handle_disconnect disconnect_in
  stale_dapp_closes now id c a i n s e r w =
      let gone = dapp_gone_alone (or_empty c.channel_id) c n w in
      rw (ensure_initialized_awake c i) (rw (e, handle_disconnect) (simp (n, s, r) gone))

  -- An object that is evicted while no socket has an attachment does not learn its id again: the
  -- alarm leaves it in the state that storage has, tells nobody and stores nothing.
  pub alarm_unattached :
      (c : Channel) (p : PersistedChannelState)
      → attached_channel c.sockets ≡ none
      → c.storage ≡ some p
      → ((alarm throws (hibernate c)).storage ≡ some p)
        × ((alarm throws (hibernate c)).sent ≡ c.sent)
        × ((alarm throws (hibernate c)).channel_state ≡ p.state)
  unfolding alarm expire
  alarm_unattached c p e f =
      let n = hibernate-Nameless c.storage c refl e in rw n.id (n.storage ∙ f, n.sent, n.state p f)

socket_at-update :
    (id : ℕ) (f : Socket → Socket) (ss : List Socket) (s : Socket)
    → ((t : Socket) → (f t).id ≡ t.id)
    → socket_at id ss ≡ some s
    → socket_at id (update id f ss) ≡ some (f s)
unfolding socket_at update
socket_at-update id f [] s k e = cc
socket_at-update id f (t ∷ ss) s k e = ground (arith, k t, socket_at-update id f ss s k)

closing-id : (s : Socket) → (closing s).id ≡ s.id
closing-id s = ground arith

find_peer_ws-open :
    (r : Role) (ss : List Socket) (s : Socket) → find_peer_ws r ss ≡ some s → s.ready_state ≡ 1
unfolding find_peer_ws
find_peer_ws-open r [] s e = cc
find_peer_ws-open r (t ∷ ss) s e = ground (arith, find_peer_ws-open r ss s)

module _ (throws : Socket → Bool) where
  send-open :
      (id : ℕ) (frame : Frame) (c : Channel) (s : Socket)
      → socket_at id c.sockets ≡ some s
      → throws s ≡ false
      → send throws id frame c ≡ some (record c { sent = sends s.id frame ∷ c.sent })
  unfolding send
  send-open id frame c s a t = rw (a, t)

  send-shut :
      (id : ℕ) (frame : Frame) (c : Channel) (s : Socket)
      → socket_at id c.sockets ≡ some s
      → throws s ≡ true
      → send throws id frame c ≡ none
  unfolding send
  send-shut id frame c s a t = rw (a, t)

  replaced_socket :
      (r : Role) (ch : String) (c : Channel) (s : Socket)
      → throws s ≡ false
      → find_peer_ws r c.sockets ≡ some s
      → socket_at s.id c.sockets ≡ some s
      → (socket_at s.id (replace_peer throws r ch c).sockets ≡ some (closing s))
        × ((replace_peer throws r ch c).storage ≡ c.storage)
  unfolding replace_peer send_then_close close_ws
  replaced_socket r ch c s t f a =
      rw (f, replace_peer)
        (rw (send-open s.id (built (terminate ch normal)) c s a t, send_then_close)
          (socket_at-update s.id closing c.sockets s closing-id a, refl))

  create_in-thrown :
      (now id : ℕ) (ch from : String) (c : Channel) (s : Socket)
      → ((t : Socket) → t.ready_state ≢ 1 → throws t ≡ true)
      → s.ready_state ≢ 1
      → socket_at id c.sockets ≡ some s
      → ((create_in throws now id ch from (cleared c)).1 ≡ thrown)
        × ((create_in throws now id ch from (cleared c)).0.storage ≡ c.storage)
  unfolding create_in open_channel set_attachment
  create_in-thrown now id ch from c s p h a =
      let as_dapp : Socket → Socket = λ t. record t {
        attachment = some (record { role = dapp; peer_id = from; channel_id = ch });
      } in
      let at = socket_at-update id as_dapp c.sockets s (λ t. refl) a in
      rw
        (
          send-shut id (built (ready_waiting ch dapp from false)) (open_channel id ch from c)
              (as_dapp s) at (p (as_dapp s) h),
          create_in,
        )
        (refl, refl)

  -- A dApp that creates its channel again on the socket that it waits on is cut off: the handler
  -- takes that socket for the one to replace, closes it, and then ends in an exception, since it
  -- cannot send `ready` on it. That holds where the platform throws on a socket that is not open.
  pub recreate_cut_off :
      (now : ℕ) (ch from : String) (c : Channel) (s : Socket)
      → ((t : Socket) → t.ready_state ≢ 1 → throws t ≡ true)
      → throws s ≡ false
      → c.channel_state ≡ waiting
      → find_peer_ws dapp c.sockets ≡ some s
      → socket_at s.id c.sockets ≡ some s
      → ((handle_create throws now s.id ch from c).1 ≡ thrown)
        × ((handle_create throws now s.id ch from c).0.storage ≡ c.storage)
        × (socket_at s.id (replace_peer throws dapp ch c).sockets
            ≡ some (record s { ready_state = 2 }))
  unfolding handle_create make_room
  recreate_cut_off now ch from c s p t w f a =
      let (at, same) = replaced_socket dapp ch c s t f a in
      let shut : closing s ≡ record s { ready_state = 2 } =
        ground (arith, find_peer_ws-open dapp c.sockets s f) in
      let (h, same') =
        create_in-thrown now s.id ch from (replace_peer throws dapp ch c) (closing s) p
          (λ n. omega (arith, sym n ∙ ap (λ (x : Socket). x.ready_state) shut)) at in
      (simp w h, simp w (same' ∙ same), at ∙ ap some shut)
