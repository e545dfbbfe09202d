-- ===== src/Staking/Outcomes.antt =====
-- What the stake calls of internal/consensus/commit.go leave behind, applied or refused.
use blue_pods.Prelude.{
  ◌⊎◌, ℕ, ◌+◌, ◌<◌, ◌≡◌, refl, subst, List, Option, some, Bool, true, false, arith, Option-cases,
  inl, inr,
}
use blue_pods.Types.{Hash, Tx, contains}
use blue_pods.Validators.{ValidatorInfo, update}
use blue_pods.Validators.Index.{view}
use blue_pods.Coins.{State}
use blue_pods.Coins.Backing.{IsBacked}
use blue_pods.Staking.{
  Dag, StakeCall, first_mutable_ref_id, decode_stake_amount, stake_call, parse_stake_tx, settle,
}
use blue_pods.Staking.Values.{stake_of, sum_stakes-update, worth, IsSound}

-- The coin that a call names is one of the coins.
abbrev pub NamesCoin : List Hash → Tx → Type 0
NamesCoin coins tx = (k : Hash) → first_mutable_ref_id tx ≡ some k → contains k coins ≡ true

-- What a parsed call says of its transaction.
stake_call_lem :
    (s : State) (tx : Tx) (call : StakeCall)
    → stake_call s tx ≡ some call
    → (call.store ≡ s)
      × (call.sender ≡ tx.sender)
      × (first_mutable_ref_id tx ≡ some call.coin_id)
      × (decode_stake_amount tx.args ≡ some call.amount)
      × (0 < call.amount)
unfolding stake_call
stake_call_lem s tx call e = ground arith

pub parse_stake_tx_lem :
    (d : Dag) (tx : Tx) (fn : List ℕ) (call : StakeCall)
    → parse_stake_tx d tx fn ≡ some call
    → (d.coin_store ≡ some call.store)
      × (call.sender ≡ tx.sender)
      × (first_mutable_ref_id tx ≡ some call.coin_id)
      × (decode_stake_amount tx.args ≡ some call.amount)
      × (0 < call.amount)
unfolding parse_stake_tx
parse_stake_tx_lem d tx fn call e = elim (Option-cases d.coin_store) [
  | inl nil ↦ absurd (ground arith)
  | inr (s, there) ↦
      let (a, b, c, e', f) = stake_call_lem s tx call (ground arith) in (ground arith, b, c, e', f)
]

-- A DAG whose store and one validator's stake are replaced.
module _ (coins : List Hash) (d : Dag) (w : IsSound coins d) (s s' : State) (k : Hash)
    (info : ValidatorInfo) (there : d.coin_store ≡ some s)
    (member : view d.validators k ≡ some info) (backed : IsBacked coins s')
    (f : ValidatorInfo → ValidatorInfo) (keep : (x : ValidatorInfo) → (f x).pubkey ≡ x.pubkey)
    (level : s'.counters.coins_total + stake_of (f info)
      ≡ s.counters.coins_total + stake_of info) where
  pub settle_lem :
      (r : Dag) × (settle d (some s') (update f k d.validators) ≡ some (r, true))
      × IsSound coins r
      × (worth r ≡ worth d)
      × (r.coin_store ≡ some s')
      × (view r.validators k ≡ some (f info))
  unfolding settle
  settle_lem =
      let (vs, done, i, own, sum) = sum_stakes-update f k d.validators info w.indexed member keep in
      let r : Dag = record d { coin_store = some s'; validators = vs } in
      let same : worth r ≡ worth d = ground (arith, sum) in
      (
        r,
        ground (arith, done),
        record {
          indexed = i;
          backed = λ x e. subst (IsBacked coins) (ground arith) backed;
          room = ground (arith, same, w.room);
        },
        same,
        refl,
        own,
      )

-- A call is refused with nothing changed, or it leaves a sound DAG of the same worth that satisfies
-- `Done`.
abbrev pub Settles : List Hash → Dag → (Dag → Type 0) → Option (Dag × Bool) → Type 0
Settles coins d Done result =
    (result ≡ some (d, false))
    ⊎ ((r : Dag) × (result ≡ some (r, true)) × IsSound coins r × (worth r ≡ worth d) × Done r)

-- The same, with what a refusal says.
abbrev pub Decides : List Hash → Dag → Type 0 → (Dag → Type 0) → Option (Dag × Bool) → Type 0
Decides coins d Refusal Done result =
    ((result ≡ some (d, false)) × Refusal)
    ⊎ ((r : Dag) × (result ≡ some (r, true)) × IsSound coins r × (worth r ≡ worth d) × Done r)
