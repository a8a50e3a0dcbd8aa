-- ===== src/Sdk/DApp/Soundness/Joining.antt =====
-- Soundness and the join, with the acceptance of its wallet.
use walletpair.Common.{ℕ, String, Bool, true, ◌||◌, Option, none, some, refl, ◌=s◌}
use walletpair.Json.{Json}
use walletpair.Sdk.Types.{pending_accept}
use walletpair.Sdk.DApp.State.{
  given, Bytes, Crypto, Options, Session, error, emit, set_phase, wallet_joined,
}
use walletpair.Sdk.DApp.Joining.{
  Scope, scope, refusal, join_scope, do_accept, refuse, enter_scope, apply_scope, join_with,
  join_from, handle_join, missing, malformed, is_same_approved_wallet, wallet_key, session_context,
}
use walletpair.Sdk.DApp.Soundness.{
  Sound, emit-Sound, if-Sound, set_phase-Sound, send_raw-Sound, persist_snapshot-Sound,
}
use walletpair.Sdk.DApp.Soundness.Reconnecting.{Alike-Sound}

module _ {n : ℕ} {m : Option ℕ} where
  module _ (k : Crypto) (o : Options) where
    pub do_accept-Sound :
        (remote : Bytes) (s : Session) → Sound n m s → Sound n m (do_accept k o remote s)
    unfolding do_accept
    do_accept-Sound remote s h = send_raw-Sound k _ _ (
        persist_snapshot-Sound o _ (
          Alike-Sound {s = s}
            (record {
              sent = refl;
              received = refl;
              pending = refl;
              phase = refl;
              heartbeat = refl;
              liveness = refl;
            })
            h))

    refuse-Sound :
        (reason message : String) (s : Session)
        → Sound n m s
        → Sound n m (refuse k o reason message s)
    unfolding refuse
    refuse-Sound reason message s h = emit-Sound _ _ (send_raw-Sound k _ s h)

    enter_scope-Sound :
        (known : Bool) (remote : Bytes) (c w : Option Json) (s : Session)
        → Sound n m s
        → Sound n m (enter_scope k o known remote c w s)
    unfolding enter_scope
    enter_scope-Sound known remote c w s h =
        let s' : Session = set_phase pending_accept (emit (wallet_joined c w) s) in
        let h' : Sound n m s' =
          set_phase-Sound pending_accept _ (emit-Sound (wallet_joined c w) s h) in
        if-Sound (missing k o o.declared_methods "methods" (given c))
          (refuse-Sound "unsupported_capability" "Wallet missing required methods" s h)
          (if-Sound (missing k o o.declared_chains "chains" (given c))
            (refuse-Sound "unsupported_capability" "Wallet missing required chains" s h)
            (if-Sound (o.auto_accept || known) (do_accept-Sound remote s' h') (
              Alike-Sound {s = s'} {s' = record s' { pending_accept_timer = true }}
                (record {
                  sent = refl;
                  received = refl;
                  pending = refl;
                  phase = refl;
                  heartbeat = refl;
                  liveness = refl;
                })
                h')))

    apply_scope-Sound :
        (sc : Scope) (from : String) (remote root : Bytes) (s : Session)
        → Sound n m s
        → Sound n m (apply_scope k o sc from remote root s)
    unfolding apply_scope
    apply_scope-Sound (refusal reason message) from remote root s h =
        refuse-Sound reason message s h
    apply_scope-Sound (scope c w) from remote root s h =
        let keys = k.directional_keys root s.channel_id (session_context k o from c w s) in
        if-Sound (malformed k o (given c))
          (refuse-Sound "protocol_error" "Malformed wallet capabilities" s h)
          (enter_scope-Sound (is_same_approved_wallet k o from c w s) remote c w
            (record s {
              wallet_capabilities = c;
              wallet_meta = w;
              send_key = some keys.0;
              recv_key = some keys.1;
            })
            (Alike-Sound {s = s}
              (record {
                sent = refl;
                received = refl;
                pending = refl;
                phase = refl;
                heartbeat = refl;
                liveness = refl;
              })
              h))

    join_with-Sound :
        (root : Option Bytes) (sealed_join : Option Json) (from : String) (remote : Bytes)
        (s : Session)
        → Sound n m s
        → Sound n m (join_with k o root sealed_join from remote s)
    join_with-Sound none sealed_join from remote s h = h
    join_with-Sound (some root) sealed_join from remote s h =
        apply_scope-Sound (join_scope k o sealed_join root s) from remote root s h

    join_from-Sound :
        (key : Option Bytes) (sealed_join : Option Json) (from : String) (s : Session)
        → Sound n m s
        → Sound n m (join_from k o key sealed_join from s)
    join_from-Sound none sealed_join from s h =
        refuse-Sound "protocol_error" "Malformed wallet public key" s h
    join_from-Sound (some remote) sealed_join from s h =
        join_with-Sound (k.root_key s.priv_key remote s.channel_id) sealed_join from remote
          (record s { remote_pub_key = some remote })
          (Alike-Sound {s = s}
            (record {
              sent = refl;
              received = refl;
              pending = refl;
              phase = refl;
              heartbeat = refl;
              liveness = refl;
            })
            h)

    pub handle_join-Sound :
        (from : String) (sealed_join : Option Json) (s : Session)
        → Sound n m s
        → Sound n m (handle_join k o from sealed_join s)
    unfolding handle_join
    handle_join-Sound from sealed_join s h =
        if-Sound (from =s "") (emit-Sound (error "Malformed wallet join: missing from") s h)
          (join_from-Sound (wallet_key k o (k.b64url_decode from)) sealed_join from s h)
