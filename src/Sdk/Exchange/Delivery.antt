-- ===== src/Sdk/Exchange/Delivery.antt =====
-- A request of a dApp that reaches its wallet, and a response of the wallet that reaches the dApp.
use walletpair.Common.{
  ℕ, String, true, false, Option, none, some, ◌≡◌, refl, subst, ap, ◌∙◌, ◌=s◌, =s_iff, leb, length,
}
use walletpair.Json.{Json, str, obj, Fields, get, as_object}
use walletpair.Sdk.Types.{includes}
use walletpair.Sdk.Maps.{find, put}
use walletpair.Sdk.DApp.State.{Bytes, AadHeader}
use walletpair.Sdk.DApp.State as DAppState
use walletpair.Sdk.DApp.Requests.{build_sealed_params, build_request_message}
use walletpair.Sdk.DApp.Messages.{is_replay}
use walletpair.Sdk.Wallet.State as WalletState
use walletpair.Sdk.Wallet.Requests.{
  handle_req, receive_request, process_request, dispatch_request, open_request, method_of,
  params_of, max_pending_requests,
}
use walletpair.Sdk.Wallet.Answers.{maps, persist_snapshot-maps}
use walletpair.Sdk.Exchange.{IsReading, Opened, map_option}
use walletpair.Sdk.Exchange.Parameters.{is_plain, Arrives, sealed_method, params-Arrives}

-- A wallet's session that can take a request of the dApp's session: connected to it under the same
-- key and channel, the number not received before, nothing kept under the id, and room for it.
pub record CanTake (w : WalletState.Crypto) (seq : ℕ) (id : String) (key : Bytes)
    (s : DAppState.Session) (t : WalletState.Session) : Type 0 where
  pub connected : WalletState.same_phase t.phase WalletState.connected ≡ true
  pub remote : Bytes
  pub paired : t.remote_pub_key ≡ some remote
  pub known : w.b64url_encode remote ≡ s.pub_key
  pub keyed : t.recv_key ≡ some key
  pub channel : t.channel_id ≡ s.channel_id
  pub later : is_replay seq t.recv_seq ≡ false
  pub identified : (id =s "") ≡ false
  pub not_pending : find id t.pending_request_records ≡ none
  pub not_cached : find id t.idempotency_cache ≡ none
  pub not_broadcast : find id t.broadcast_response_cache ≡ none
  pub room : leb max_pending_requests (length t.pending_request_records) ≡ false

module _ (w : WalletState.Crypto) (o : WalletState.Options) where
  -- A request for a granted method under an id that is new.
  open_new :
      (id method hash : String) (params : Json) (t : WalletState.Session)
      → includes method o.methods ≡ true
      → find id t.broadcast_response_cache ≡ none
      → find id t.idempotency_cache ≡ none
      → find id t.pending_request_records ≡ none
      → leb max_pending_requests (length t.pending_request_records) ≡ false
      → dispatch_request w o id method params hash t
        ≡ WalletState.emit (WalletState.request id method params) (record t {
          pending_request_records =
              put id (record { params_hash = hash; method = method }) t.pending_request_records;
        })
  unfolding dispatch_request open_request
  open_new id method hash params t granted b c p room = simp (granted, b, c, p, room) refl

  receive_new :
      (id method : String) (seq : ℕ) (value : Json) (plaintext : Bytes) (t : WalletState.Session)
      → method_of value ≡ some method
      → includes method o.methods ≡ true
      → is_replay seq t.recv_seq ≡ false
      → find id t.broadcast_response_cache ≡ none
      → find id t.idempotency_cache ≡ none
      → find id t.pending_request_records ≡ none
      → leb max_pending_requests (length t.pending_request_records) ≡ false
      → receive_request w o id (some (seq, value, plaintext)) t
        ≡ WalletState.emit
            (WalletState.request id method (params_of value))
            (record (WalletState.persist_snapshot o (record t { recv_seq = some seq })) {
              pending_request_records =
                  put id
                    (record { params_hash = w.sha256_hex plaintext; method = method })
                    t.pending_request_records;
            })
  unfolding receive_request process_request
  receive_new id method seq value plaintext t m granted later b c p room =
      let t' : WalletState.Session =
        WalletState.persist_snapshot o (record t { recv_seq = some seq }) in
      let same : maps t' ≡ maps t = persist_snapshot-maps w o (record t { recv_seq = some seq }) in
      let r : WalletState.PendingRequestRecord = record {
        params_hash = w.sha256_hex plaintext;
        method = method;
      } in
      rw (later, m)
        (open_new id method (w.sha256_hex plaintext) (params_of value) t' granted
            (ap (λ x. find id x.broadcast) same ∙ b) (ap (λ x. find id x.cached) same ∙ c)
            (ap (λ x. find id x.pending) same ∙ p)
            (ap (λ x. leb max_pending_requests (length x.pending)) same ∙ room)
          ∙ ap
              (λ x.
                WalletState.emit (WalletState.request id method (params_of value))
                  (record t' { pending_request_records = put id r x.pending }))
              same)

  deliver :
      (from id sealed : String) (remote key : Bytes) (t : WalletState.Session)
      → WalletState.same_phase t.phase WalletState.connected ≡ true
      → t.remote_pub_key ≡ some remote
      → w.b64url_encode remote ≡ from
      → t.recv_key ≡ some key
      → (id =s "") ≡ false
      → (sealed =s "") ≡ false
      → handle_req w o from (some id) (some sealed) t
        ≡ receive_request w o id
            (w.unseal_payload key t.channel_id sealed
              (record { kind = "req"; from = from; id = id }))
            t
  unfolding handle_req
  deliver from id sealed remote key t c r e q i n =
      simp (c, r, e, (=s_iff from from).1 refl, q, i, n) refl

module _ (read : Json → Json) (reading : IsReading read) where
  method_kept :
      (v : Json) (f : Fields) (method : String)
      → v ≡ obj f
      → get "_method" f ≡ some (str method)
      → (method =s "") ≡ false
      → method_of (read v) ≡ some method
  unfolding method_of as_object
  method_kept v f method e m d =
      let (g, r, h) = reading.read_obj f in
      let i : get "_method" g ≡ some (str method) =
        h "_method" ∙ ap (map_option read) m ∙ ap some (reading.read_str method) in
      rw (e, r, i, d) refl

module _ (k : DAppState.Crypto) (w : WalletState.Crypto) (od : DAppState.Options)
    (ow : WalletState.Options) where
  delivered :
      (id method : String) (params : Option Json) (f : Fields) (seq : ℕ) (key plaintext : Bytes)
      (s : DAppState.Session) (t : WalletState.Session) (sealed : String) (read : Json → Json)
      → IsReading read
      → build_request_message k od id method params seq key s ≡ DAppState.req id sealed
      → build_sealed_params method params ≡ obj f
      → get "_method" f ≡ some (str method)
      → (method =s "") ≡ false
      → Opened
          (λ x.
            w.unseal_payload key s.channel_id x
              (record { kind = "req"; from = s.pub_key; id = id }))
          (k.seal_payload key s.channel_id seq
            (build_sealed_params method params)
            (record { kind = "req"; from = s.pub_key; id = id }))
          (seq, read (build_sealed_params method params), plaintext)
      → includes method ow.methods ≡ true
      → CanTake w seq id key s t
      → handle_req w ow s.pub_key (some id) (some sealed) t
        ≡ WalletState.emit
            (WalletState.request id method (params_of (read (build_sealed_params method params))))
            (record (WalletState.persist_snapshot ow (record t { recv_seq = some seq })) {
              pending_request_records =
                  put id
                    (record { params_hash = w.sha256_hex plaintext; method = method })
                    t.pending_request_records;
            })
  unfolding build_request_message
  delivered id method params f seq key plaintext s t sealed read reading built e m d seal granted
        c =
      let v = build_sealed_params method params in
      let h : AadHeader = record { kind = "req"; from = s.pub_key; id = id } in
      let text : k.seal_payload key s.channel_id seq v h ≡ sealed = cc in
      let o =
        subst (λ x. Opened (λ y. w.unseal_payload key s.channel_id y h) x (seq, read v, plaintext))
          text seal in
      deliver w ow s.pub_key id sealed c.remote key t c.connected c.paired c.known c.keyed
        c.identified o.named
      ∙ ap
          (λ x.
            receive_request w ow id
              (w.unseal_payload key x sealed (record { kind = "req"; from = s.pub_key; id = id }))
              t)
          c.channel
      ∙ ap (λ x. receive_request w ow id x t) o.opened
      ∙ receive_new w ow id method seq (read v) plaintext t
          (method_kept read reading v f method e m d) granted c.later c.not_broadcast c.not_cached
          c.not_pending c.room

  -- Let a dApp build the message of a request, whose method is not empty and whose parameters are no
  -- object with properties `_method` or `_params` or with two of one name. Let a wallet that can take
  -- it and grants the method open what was sealed, as it is read from its JSON. The wallet then gives
  -- its application the id, the method and the parameters that the dApp gave: an object with the same
  -- properties as they are read, an empty object if there were none, any other value as it is read.
  -- The request is pending under the hash of its plaintext, and the number is received.
  pub request_delivered :
      (id method : String) (params : Option Json) (seq : ℕ) (key plaintext : Bytes)
      (s : DAppState.Session) (t : WalletState.Session) (sealed : String) (read : Json → Json)
      → IsReading read
      → is_plain params ≡ true
      → build_request_message k od id method params seq key s ≡ DAppState.req id sealed
      → (method =s "") ≡ false
      → Opened
          (λ x.
            w.unseal_payload key s.channel_id x
              (record { kind = "req"; from = s.pub_key; id = id }))
          (k.seal_payload key s.channel_id seq
            (build_sealed_params method params)
            (record { kind = "req"; from = s.pub_key; id = id }))
          (seq, read (build_sealed_params method params), plaintext)
      → includes method ow.methods ≡ true
      → CanTake w seq id key s t
      → (got : Json) × (handle_req w ow s.pub_key (some id) (some sealed) t
          ≡ WalletState.emit
              (WalletState.request id method got)
              (record (WalletState.persist_snapshot ow (record t { recv_seq = some seq })) {
                pending_request_records =
                    put id
                      (record { params_hash = w.sha256_hex plaintext; method = method })
                      t.pending_request_records;
              }))
        × Arrives read params got
  request_delivered id method params seq key plaintext s t sealed read reading plain built d seal
        granted c =
      let (f, e, m) = sealed_method method params plain in
      (
        params_of (read (build_sealed_params method params)),
        delivered id method params f seq key plaintext s t sealed read reading built e m d seal
            granted c,
        params-Arrives read reading method params plain,
      )
