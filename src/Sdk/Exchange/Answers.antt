-- ===== src/Sdk/Exchange/Answers.antt =====
-- A response of a wallet that reaches the dApp.
use walletpair.Common.{
  ℕ, String, true, false, Option, none, some, ◌≡◌, refl, subst, ap, ◌∙◌, ◌=s◌, =s_iff,
}
use walletpair.Json.{Json, bool, obj, Fields, field, get}
use walletpair.Sdk.DApp.State.{Bytes, AadHeader}
use walletpair.Sdk.DApp.State as DAppState
use walletpair.Sdk.Types as Types
use walletpair.Sdk.DApp.Requests.{find_pending, delete_pending}
use walletpair.Sdk.DApp.Messages.{handle_res, is_replay, answer, open_response, receive_response}
use walletpair.Sdk.Wallet.State as WalletState
use walletpair.Sdk.Wallet.Responses.{response_payload, response_message, result_field}
use walletpair.Sdk.Exchange.{IsReading, Opened, map_option}

-- A dApp's session that waits for the response to an id: connected to the wallet under the same key
-- and channel, the number not received before, and a request pending under the id.
pub record Waits (k : DAppState.Crypto) (seq : ℕ) (id from ch : String) (key : Bytes)
    (s : DAppState.Session) : Type 0 where
  pub connected : DAppState.same_phase s.phase Types.connected ≡ true
  pub remote : Bytes
  pub paired : s.remote_pub_key ≡ some remote
  pub known : k.b64url_encode remote ≡ from
  pub keyed : s.recv_key ≡ some key
  pub channel : s.channel_id ≡ ch
  pub later : is_replay seq s.recv_seq ≡ false
  pub identified : (id =s "") ≡ false
  pub request : DAppState.PendingRequest
  pub pending : find_pending id s.pending_requests ≡ some request

abbrev pub success_fields : Option Json → Fields
success_fields result = field "_ok" (bool true) (result_field result)

get-result : (result : Option Json) → get "_result" (success_fields result) ≡ result
unfolding get
get-result none = refl
get-result (some v) = refl

module _ (k : DAppState.Crypto) (o : DAppState.Options) where
  answered :
      (id : String) (value : Json) (g : Fields) (result : Option Json) (s : DAppState.Session)
      → value ≡ obj g
      → get "_ok" g ≡ some (bool true)
      → get "_result" g ≡ result
      → answer id value s ≡ DAppState.emit (DAppState.resolved id result) s
  unfolding answer
  answered id value g result s e ok r = rw (e, answer, ok, r) refl

  reach :
      (from id sealed ch : String) (seq : ℕ) (key : Bytes) (s : DAppState.Session)
      → Waits k seq id from ch key s
      → (sealed =s "") ≡ false
      → handle_res k o from (some id) (some sealed) s
        ≡ receive_response k o id
            (k.unseal_payload key s.channel_id sealed
              (record { kind = "res"; from = from; id = id }))
            (record s { pending_requests = delete_pending id s.pending_requests })
  unfolding handle_res open_response
  reach from id sealed ch seq key s c n =
      simp
        (
          c.connected,
          c.paired,
          c.known,
          (=s_iff from from).1 refl,
          c.identified,
          c.pending,
          n,
          c.keyed,
        )
        refl

  resolve :
      (from id sealed ch : String) (seq : ℕ) (value : Json) (g : Fields) (result : Option Json)
      (key : Bytes) (s : DAppState.Session)
      → Waits k seq id from ch key s
      → (sealed =s "") ≡ false
      → k.unseal_payload key ch sealed (record { kind = "res"; from = from; id = id })
        ≡ some (seq, value)
      → value ≡ obj g
      → get "_ok" g ≡ some (bool true)
      → get "_result" g ≡ result
      → handle_res k o from (some id) (some sealed) s
        ≡ DAppState.emit (DAppState.resolved id result) (
            DAppState.persist_snapshot o (record s {
              pending_requests = delete_pending id s.pending_requests;
              recv_seq = some seq;
            }))
  unfolding receive_response
  resolve from id sealed ch seq value g result key s c n opened e ok r =
      let s' : DAppState.Session = record s {
        pending_requests = delete_pending id s.pending_requests;
      } in
      reach from id sealed ch seq key s c n
      ∙ ap
          (λ x.
            receive_response k o id
              (k.unseal_payload key x sealed (record { kind = "res"; from = from; id = id })) s')
          c.channel
      ∙ ap (λ x. receive_response k o id x s') opened
      ∙ rw c.later (
          answered id value g result
            (DAppState.persist_snapshot o (record s' { recv_seq = some seq })) e ok r)

get-ok : (result : Option Json) → get "_ok" (success_fields result) ≡ some (bool true)
unfolding get
get-ok result = refl

module _ (k : DAppState.Crypto) (w : WalletState.Crypto) (od : DAppState.Options)
    (ow : WalletState.Options) where
  -- Let a wallet build the response of an approval, and let a dApp that waits for it open its value
  -- as it is read from its JSON. The request is then resolved with the result as it is read, it is no
  -- longer pending, and the number is received.
  pub response_resolved :
      (id : String) (result : Option Json) (seq : ℕ) (key : Bytes) (s : DAppState.Session)
      (t : WalletState.Session) (sealed : String) (read : Json → Json)
      → IsReading read
      → response_message w ow id true result seq key t ≡ WalletState.res id sealed
      → Opened
          (λ x.
            k.unseal_payload key t.channel_id x
              (record { kind = "res"; from = t.pub_key; id = id }))
          (w.seal_payload key t.channel_id seq
            (response_payload true result)
            (record { kind = "res"; from = t.pub_key; id = id }))
          (seq, read (response_payload true result))
      → Waits k seq id t.pub_key t.channel_id key s
      → handle_res k od t.pub_key (some id) (some sealed) s
        ≡ DAppState.emit (DAppState.resolved id (map_option read result)) (
            DAppState.persist_snapshot od (record s {
              pending_requests = delete_pending id s.pending_requests;
              recv_seq = some seq;
            }))
  unfolding response_payload
  response_resolved id result seq key s t sealed read reading built seal c =
      let v : Json = obj (success_fields result) in
      let h : AadHeader = record { kind = "res"; from = t.pub_key; id = id } in
      let text : w.seal_payload key t.channel_id seq v h ≡ sealed = cc in
      let o =
        subst (λ x. Opened (λ y. k.unseal_payload key t.channel_id y h) x (seq, read v)) text
          seal in
      let (g, e, same) = reading.read_obj (success_fields result) in
      resolve k od t.pub_key id sealed t.channel_id seq (read (obj (success_fields result))) g
        (map_option read result) key s c o.named o.opened e
        (same "_ok" ∙ ap (map_option read) (get-ok result) ∙ ap some (reading.read_bool true))
        (same "_result" ∙ ap (map_option read) (get-result result))
