-- ===== src/Sdk/DApp/Snapshots.antt =====
-- Snapshots that are written and read back.
use walletpair.Common.{refl, none, Option, String, some, ◌≡◌, ap, ◌∙◌, arith}
use walletpair.Json.{Json, null, bool, num, str, arr, obj}
use walletpair.Sdk.Types.{connected}
use walletpair.Sdk.DApp.State.{Crypto, Options, Session, Snapshot, serialize, given, set_phase}
use walletpair.Sdk.DApp.Lifecycle.{load, restore_snapshot}

serialize-set_phase : (s : Session) → serialize (set_phase connected s) ≡ serialize s
unfolding serialize set_phase
serialize-set_phase s = ground arith

given-given : (v : Option Json) → given (given v) ≡ given v
given-given none = refl
given-given (some null) = refl
given-given (some (bool b)) = refl
given-given (some (num n)) = refl
given-given (some (str s)) = refl
given-given (some (arr items)) = refl
given-given (some (obj fields)) = refl

serialize-load :
    (k : Crypto) (o : Options) (s fresh : Session) (w : String)
    → s.approved_wallet_pub_key ≡ some w
    → serialize (load k o (serialize s) fresh) ≡ serialize s
unfolding serialize load
serialize-load k o s fresh w e =
    simp (e, given-given s.approved_capabilities, given-given s.approved_wallet_meta)

-- A session that is restored from the snapshot of another, which had accepted its wallet, writes
-- the same snapshot again, and has the keys, the numbers and the approved scope of the other: no
-- number is used again after a restore.
pub serialize-restore :
    (k : Crypto) (o : Options) (s fresh : Session) (w : String)
    → s.approved_wallet_pub_key ≡ some w
    → (serialize (restore_snapshot k o (serialize s) fresh) ≡ serialize s)
      × ((restore_snapshot k o (serialize s) fresh).send_seq ≡ s.send_seq)
      × ((restore_snapshot k o (serialize s) fresh).recv_seq ≡ s.recv_seq)
      × ((restore_snapshot k o (serialize s) fresh).send_key ≡ s.send_key)
unfolding restore_snapshot serialize
serialize-restore k o s fresh w e =
    let same : serialize (restore_snapshot k o (serialize s) fresh) ≡ serialize s =
      serialize-set_phase (load k o (serialize s) fresh) ∙ serialize-load k o s fresh w e in
    (
      same,
      ap (λ (d : Snapshot). d.send_seq) same,
      ap (λ (d : Snapshot). d.recv_seq) same,
      ap (λ (d : Snapshot). d.send_key) same,
    )
