-- ===== src/Sdk/DApp/Edges.antt =====
-- What a session does after its end.
use walletpair.Common.{ℕ, String, true, false, Option, some, ◌≡◌, refl, Bool-cases, inl, inr, ◌=s◌}
use walletpair.Json.{whole, num}
use walletpair.Sdk.Types.{
  DAppPhase, idle, waiting, pending_accept, connected, disconnected, closed, Body, ProtocolMessage,
}
use walletpair.Sdk.DApp.State.{Crypto, Options, Session, clear_persistence, set_phase, same_phase}
use walletpair.Sdk.DApp.Closing.{reject_all_pending, end_session, stop_reconnect}
use walletpair.Sdk.DApp.Messages.{handle_message, handle_body, handle_close, handle_ready}

same_phase-closed : (p : DAppPhase) → same_phase p closed ≡ true → p ≡ closed
same_phase-closed idle e = cc
same_phase-closed waiting e = cc
same_phase-closed pending_accept e = cc
same_phase-closed connected e = cc
same_phase-closed disconnected e = cc
same_phase-closed closed e = refl

set_phase-closed : (s : Session) → (set_phase closed s).phase ≡ closed
unfolding set_phase
set_phase-closed s = elim (Bool-cases (same_phase s.phase closed)) [
  | inl e ↦ rw e (same_phase-closed s.phase e)
  | inr e ↦ rw e refl
]

same_phase-waiting : (p : DAppPhase) → same_phase p waiting ≡ true → p ≡ waiting
same_phase-waiting idle e = cc
same_phase-waiting waiting e = refl
same_phase-waiting pending_accept e = cc
same_phase-waiting connected e = cc
same_phase-waiting disconnected e = cc
same_phase-waiting closed e = cc

set_phase-waiting : (s : Session) → (set_phase waiting s).phase ≡ waiting
unfolding set_phase
set_phase-waiting s = elim (Bool-cases (same_phase s.phase waiting)) [
  | inl e ↦ rw e (same_phase-waiting s.phase e)
  | inr e ↦ rw e refl
]

abbrev pub message : String → Body → ProtocolMessage
message from body = record { v = some (num (whole 1)); from = from; body = body }

handle_message-close :
    (k : Crypto) (o : Options) (now : ℕ) (from : String) (s : Session)
    → (from =s "_adapter") ≡ false
    → same_phase s.phase disconnected ≡ false
    → handle_message k o now (message from Body.close) s
      ≡ end_session k o "Session closed by peer" s
unfolding handle_message handle_body handle_close
handle_message-close k o now from s a d = rw (a, d) refl

end_session-closed :
    (k : Crypto) (o : Options) (text : String) (s : Session)
    → ((end_session k o text s).phase ≡ closed)
      × ((end_session k o text s).intentional_close ≡ true)
unfolding end_session
end_session-closed k o text s =
    (set_phase-closed (clear_persistence o (reject_all_pending text s)), refl)

handle_message-waiting :
    (k : Crypto) (o : Options) (now : ℕ) (remote : Option String) (s : Session)
    → (handle_message k o now (message "_adapter" (Body.ready (some "waiting") remote)) s).phase
      ≡ waiting
unfolding handle_message handle_body handle_ready
handle_message-waiting k o now remote s = set_phase-waiting (stop_reconnect s)

-- The end that a peer announces does not last: a session that it has closed is open again, as
-- waiting, after a `ready` for that state, though it is marked as closed on purpose.
pub ended_session_reopens :
    (k : Crypto) (o : Options) (now later : ℕ) (from : String) (remote : Option String)
    (s : Session)
    → (from =s "_adapter") ≡ false
    → same_phase s.phase disconnected ≡ false
    → ((handle_message k o now (message from Body.close) s).phase ≡ closed)
      × ((handle_message k o now (message from Body.close) s).intentional_close ≡ true)
      × ((handle_message k o later
            (message "_adapter" (Body.ready (some "waiting") remote))
            (handle_message k o now (message from Body.close) s)).phase
          ≡ waiting)
ended_session_reopens k o now later from remote s a d =
    let ended = end_session-closed k o "Session closed by peer" s in
    rw (handle_message-close k o now from s a d)
      (ended.0, ended.1, handle_message-waiting k o later remote _)
