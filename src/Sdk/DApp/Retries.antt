-- ===== src/Sdk/DApp/Retries.antt =====
-- Streaks of reconnections that fail.
use walletpair.Common.{
  ℕ, suc, ◌+◌, ◌<◌, true, false, ◌&&◌, ◌||◌, none, List, [], ◌∷◌, ◌≡◌, refl, ◌∙◌, length, arith,
  leb, ltb, Bool-cases, inl, inr, if◌then◌else◌, ◌==◌,
}
use walletpair.Sdk.Types.{disconnected, closed}
use walletpair.Sdk.DApp.State.{
  Options, Session, logged, emit, set_phase, same_phase, stop_heartbeat,
}
use walletpair.Sdk.DApp.Closing.{stop_reconnect, can_reconnect, clear_pending_accept_timer}
use walletpair.Sdk.DApp.Reconnecting.{
  is_exhausted, give_up_reconnect, schedule_reconnect, attempt_failed, reconnect_timer_fires,
  begin_attempt, start_reconnect,
}

-- The session waits for its timer, after `i` attempts.
pub record Trying (i : ℕ) (s : Session) : Type 0 where
  pub willing : s.intentional_close ≡ false
  pub phase : s.phase ≡ disconnected
  pub attempts : s.reconnect_attempt ≡ i

-- The timer fires, and the attempt fails.
pub lost_round : Options → ℕ → Session → Session
lost_round o now s = attempt_failed o now (reconnect_timer_fires o s)

pub lost_rounds : Options → List ℕ → Session → Session
lost_rounds o [] s = s
lost_rounds o (now ∷ times) s = lost_rounds o times (lost_round o now s)

set_phase-closed : (s : Session) → same_phase (set_phase closed s).phase closed ≡ true
unfolding set_phase
set_phase-closed s = elim (Bool-cases (same_phase s.phase closed)) [
  | inl e ↦ rw e e
  | inr e ↦ rw e refl
]

module _ (o : Options) where
  is_exhausted-count :
      (now : ℕ) (s : Session)
      → o.max_reconnect_duration_ms ≡ 0
      → is_exhausted o now s
        ≡ (ltb 0 o.max_reconnect_attempts && leb o.max_reconnect_attempts s.reconnect_attempt)
  unfolding is_exhausted
  is_exhausted-count now s d = ground arith

  -- The session goes on while the count is below the limit.
  schedule_reconnect-Trying :
      (now i : ℕ) (s : Session)
      → o.max_reconnect_duration_ms ≡ 0
      → i < o.max_reconnect_attempts
      → Trying i s
      → Trying i (schedule_reconnect o now s)
  unfolding schedule_reconnect stop_reconnect
  schedule_reconnect-Trying now i s d l t =
      let s' : Session = record s {
        reconnect_started_at = if s.reconnect_started_at == 0 then now else s.reconnect_started_at;
      } in
      let f : is_exhausted o now s' ≡ false =
        is_exhausted-count now s' d ∙ ground (arith, l, t.attempts) in
      let g : (s.intentional_close || same_phase s.phase closed) ≡ false =
        simp (t.willing, t.phase) in
      rw (g, f) (record { willing = t.willing; phase = t.phase; attempts = t.attempts })

  -- And it ends where the count is at the limit.
  schedule_reconnect-gives_up :
      (now i : ℕ) (s : Session)
      → o.max_reconnect_duration_ms ≡ 0
      → 0 < i
      → i ≡ o.max_reconnect_attempts
      → Trying i s
      → (same_phase (schedule_reconnect o now s).phase closed ≡ true)
  unfolding schedule_reconnect give_up_reconnect
  schedule_reconnect-gives_up now i s d p l t =
      let s' : Session = record s {
        reconnect_started_at = if s.reconnect_started_at == 0 then now else s.reconnect_started_at;
      } in
      let f : is_exhausted o now s' ≡ true =
        is_exhausted-count now s' d ∙ ground (arith, l, t.attempts) in
      let g : (s.intentional_close || same_phase s.phase closed) ≡ false =
        simp (t.willing, t.phase) in
      rw (g, f) (set_phase-closed _)

  fired-Trying :
      (i : ℕ) (s : Session)
      → Trying i s
      → Trying (suc i) (
          emit
            (logged "reconnect_failed" none (can_reconnect (reconnect_timer_fires o s)))
            (reconnect_timer_fires o s))
  unfolding reconnect_timer_fires begin_attempt
  fired-Trying i s t =
      let g : (s.intentional_close || same_phase s.phase closed) ≡ false =
        simp (t.willing, t.phase) in
      rw g (record { willing = t.willing; phase = t.phase; attempts = omega (arith, t.attempts) })

  rounds_close :
      (i now : ℕ) (times : List ℕ) (s : Session)
      → o.max_reconnect_duration_ms ≡ 0
      → i + suc (length times) ≡ o.max_reconnect_attempts
      → Trying i s
      → same_phase (lost_rounds o (now ∷ times) s).phase closed ≡ true
  unfolding lost_rounds lost_round attempt_failed
  rounds_close i now [] s d l t =
      schedule_reconnect-gives_up now (suc i) _ d (omega arith) (omega (arith, l))
        (fired-Trying i s t)
  rounds_close i now (next ∷ times) s d l t =
      rounds_close (suc i) next times _ d (omega (arith, l))
        (schedule_reconnect-Trying now (suc i) _ d (omega (arith, l)) (fired-Trying i s t))

set_phase-disconnected :
    (s : Session)
    → s.intentional_close ≡ false
    → ((set_phase disconnected s).intentional_close ≡ false)
      × ((set_phase disconnected s).phase ≡ disconnected)
unfolding set_phase stop_heartbeat
set_phase-disconnected s w = ground arith

can_reconnect-willing : (s : Session) → can_reconnect s ≡ true → s.intentional_close ≡ false
unfolding can_reconnect
can_reconnect-willing s c = ground arith

start_reconnect-Trying :
    (o : Options) (start : ℕ) (s : Session)
    → o.max_reconnect_duration_ms ≡ 0
    → 0 < o.max_reconnect_attempts
    → can_reconnect s ≡ true
    → s.reconnecting ≡ false
    → Trying 0 (start_reconnect o start s)
unfolding start_reconnect clear_pending_accept_timer
start_reconnect-Trying o start s d l c r =
    let s' : Session =
      set_phase disconnected (clear_pending_accept_timer (record s { reconnecting = true })) in
    let (w, p) =
      set_phase-disconnected (clear_pending_accept_timer (record s { reconnecting = true }))
        (can_reconnect-willing s c) in
    rw r (
      schedule_reconnect-Trying o start 0
        (record s' { reconnect_attempt = 0; reconnect_started_at = 0 }) d l
        (record { willing = w; phase = p; attempts = refl }))

-- A streak of failed attempts ends: where only their count is limited, and not by 0, a session that
-- has just lost its transport is closed after as many lost attempts as the limit allows.
pub lost_rounds-close :
    (o : Options) (now start : ℕ) (times : List ℕ) (s : Session)
    → o.max_reconnect_duration_ms ≡ 0
    → suc (length times) ≡ o.max_reconnect_attempts
    → can_reconnect s ≡ true
    → s.reconnecting ≡ false
    → same_phase (lost_rounds o (now ∷ times) (start_reconnect o start s)).phase closed ≡ true
lost_rounds-close o now start times s d l c r =
    rounds_close o 0 now times (start_reconnect o start s) d (omega (arith, l))
      (start_reconnect-Trying o start s d (omega (arith, l)) c r)
