-- ===== src/Distribution/Credits.antt =====
-- Each credit of an epoch (internal/consensus/epoch.go) adds what it reports to the coins and the
-- stakes, and no more.
use blue_pods.Prelude.{
  ℕ, ◌+◌, ◌-◌, ◌/◌, ◌≤◌, ◌≡◌, ◌⊎◌, refl, subst, ◌∙◌, List, some, true, false, ltb, if◌then◌else◌,
  arith, bytes_eq, Option-cases, Bool-cases, inl, inr,
}
use blue_pods.Prelude.Arith.{div-le_of_le_mul, mul_mono}
use blue_pods.Types.{Hash, contains}
use blue_pods.Word.{u64_max, safe_mul, safe_add, sub64, safe_mul-eq-min, safe_add-eq-min}
use blue_pods.Validators.{ValidatorInfo, set_self_stake, zero_hash}
use blue_pods.Validators.Index.{view}
use blue_pods.Coins.{State, credit_coin}
use blue_pods.Coins.Backing.{IsBacked}
use blue_pods.Staking.{Dag}
use blue_pods.Staking.Values.{sum_stakes-update, credit_coin-IsBacked, worth, IsSound, stake-le_sum}
use blue_pods.Rewards.{mille_max}
use blue_pods.Distribution.{with_validators, credit_liquid, credit_validator_reward}

-- A sound DAG whose worth is that of the first one and `n` more.
abbrev pub Grows : List Hash → Dag → ℕ → Dag → Type 0
Grows coins d n r = IsSound coins r × (worth r ≡ worth d + n)

module _ (coins : List Hash) (d : Dag) (w : IsSound coins d) where
  -- A validator's self-stake grows by what is restaked.
  restake_lem :
      (k : Hash) (info : ValidatorInfo) (n : ℕ)
      → view d.validators k ≡ some info
      → worth d + n ≤ u64_max
      → (r : Dag) × (with_validators d (set_self_stake k (safe_add info.self_stake n) d.validators)
          ≡ some r)
        × Grows coins d n r
        × (r.coin_store ≡ d.coin_store)
  unfolding with_validators set_self_stake
  restake_lem k info n member room =
      let stake = safe_add info.self_stake n in
      let (vs, done, i, _, sum) =
        sum_stakes-update (λ v. record v { self_stake = stake }) k d.validators info w.indexed
          member (λ x. refl) in
      let most = stake-le_sum d.validators k info member in
      let exact : stake ≡ info.self_stake + n = omega (
        arith,
        safe_add-eq-min info.self_stake n (omega (arith, most, room)) (omega (arith, room)),
        most,
        room,
      ) in
      let r = record d { validators = vs } in
      let grown : worth r ≡ worth d + n = omega (arith, sum, exact) in
      (
        r,
        ground (arith, done),
        (
          record { indexed = i; backed = λ s e. w.backed s e; room = omega (arith, grown, room) },
          grown,
        ),
        refl,
      )

  -- A coin grows by what is credited to it.
  credited_lem :
      (k : Hash) (s s' : State) (n : ℕ)
      → contains k coins ≡ true
      → d.coin_store ≡ some s
      → credit_coin k n s ≡ some s'
      → worth d + n ≤ u64_max
      → Grows coins d n (record d { coin_store = some s' })
  credited_lem k s s' n known there done room =
      let (backed, gained) =
        credit_coin-IsBacked coins s (w.backed s there) k known n s' (ground (arith, room)) done in
      let r = record d { coin_store = some s' } in
      let grown : worth r ≡ worth d + n = ground (arith, gained) in
      (
        record {
          indexed = w.indexed;
          backed = λ x e. subst (IsBacked coins) (ground arith) backed;
          room = omega (arith, grown, room);
        },
        grown,
      )

pub restake_le : (amount mille : ℕ) → mille ≤ mille_max → safe_mul amount mille / mille_max ≤ amount
restake_le amount mille h =
    div-le_of_le_mul (safe_mul amount mille) amount mille_max (omega arith) (
      omega (
        arith,
        safe_mul-eq-min amount mille,
        mul_mono amount mille amount mille_max (omega arith) h,
      ))

module _ (coins : List Hash) (v : ValidatorInfo) (known : contains v.reward_coin coins ≡ true) where
  -- The liquid part: credited, or left out when the coin refuses it.
  liquid_lem :
      (d : Dag) (s : State) (restake liquid : ℕ)
      → IsSound coins d
      → d.coin_store ≡ some s
      → worth d + liquid ≤ u64_max
      → restake + liquid ≤ u64_max
      → (r : Dag) × (moved : ℕ) × (credit_liquid v restake liquid (some d)
          ≡ some (r, restake + moved))
        × Grows coins d moved r
        × (moved ≡ liquid ⊎ moved ≡ 0)
  unfolding credit_liquid
  liquid_lem d s restake liquid w there room word =
      elim (Option-cases (credit_coin v.reward_coin liquid s)) [
        | inl refused ↦ (d, 0, ground (arith, there, refused), (w, omega arith), inr refl)
        | inr (s', done) ↦ (
          record d { coin_store = some s' },
          liquid,
          ground (arith, there, done),
          credited_lem coins d w v.reward_coin s s' liquid known there done room,
          inl refl,
        )
      ]

module _ (coins : List Hash) (d : Dag) (w : IsSound coins d) (s : State)
    (there : d.coin_store ≡ some s) (v info : ValidatorInfo)
    (member : view d.validators v.pubkey ≡ some info) (fresh : info.self_stake ≡ v.self_stake)
    (mille amount : ℕ) (fraction : mille ≤ mille_max) (room : worth d + amount ≤ u64_max) where
  restaked : ℕ
  restaked = safe_mul amount mille / mille_max

  coinless :
      bytes_eq v.reward_coin zero_hash ≡ true
      → (r : Dag) × (credit_validator_reward mille v amount d ≡ some (r, amount))
        × Grows coins d amount r
  unfolding credit_validator_reward
  coinless none_named =
      let (r, done, grown, _) = restake_lem coins d w v.pubkey info amount member room in
      let same =
        subst
          (λ n.
            with_validators d (set_self_stake v.pubkey (safe_add n amount) d.validators) ≡ some r)
          fresh done in
      (r, ground (arith, none_named, same), grown)

  base_lem :
      (r : Dag) × ((if ltb 0 restaked
          then with_validators d
              (set_self_stake v.pubkey (safe_add v.self_stake restaked) d.validators)
          else some d)
        ≡ some r)
      × Grows coins d restaked r
      × (r.coin_store ≡ some s)
  unfolding restaked
  base_lem =
      let less = restake_le amount mille fraction in
      elim (Bool-cases (ltb 0 restaked)) [
        | inl positive ↦
            let (r, done, grown, same) =
              restake_lem coins d w v.pubkey info restaked member (omega (arith, less, room)) in
            let fed =
              subst
                (λ n.
                  with_validators d (set_self_stake v.pubkey (safe_add n restaked) d.validators)
                  ≡ some r)
                fresh done in
            (r, ground (arith, positive, fed), grown, same ∙ there)
        | inr zero_part ↦ (d, ground (arith, zero_part), (w, ground (arith, zero_part)), there)
      ]

  with_coin :
      bytes_eq v.reward_coin zero_hash ≡ false
      → contains v.reward_coin coins ≡ true
      → (r : Dag) × (moved : ℕ) × (credit_validator_reward mille v amount d ≡ some (r, moved))
        × Grows coins d moved r
        × (moved ≡ amount ⊎ moved ≡ restaked)
  unfolding credit_validator_reward restaked
  with_coin named known =
      let less = restake_le amount mille fraction in
      let (d', base, (sound, grown), kept) = base_lem in
      let liquid : sub64 amount restaked ≡ amount - restaked = omega (arith, less, room) in
      let (r, moved, done, (after, more), which) =
        liquid_lem coins v known d' s restaked (amount - restaked) sound kept
          (omega (arith, grown, less, room)) (omega (arith, less, room)) in
      (
        r,
        restaked + moved,
        ground (arith, named, base, liquid, done),
        (after, omega (arith, more, grown)),
        ground (arith, which, less),
      )

-- The credit of a validator's own part never panics: what it reports is what the coins and the
-- stakes gain, and that is the whole amount, or the restaked part alone when the reward coin
-- refuses the rest; a validator without a reward coin has the whole amount restaked. The state must
-- be sound, the given info hold the member's current self-stake, its reward coin be one of the
-- coins, the restaked fraction be at most one, and the value after the credit fit uint64.
pub credit_validator_reward_lem :
    (coins : List Hash) (d : Dag) (s : State) (v info : ValidatorInfo) (mille amount : ℕ)
    → IsSound coins d
    → d.coin_store ≡ some s
    → view d.validators v.pubkey ≡ some info
    → info.self_stake ≡ v.self_stake
    → (bytes_eq v.reward_coin zero_hash ≡ true) ⊎ (contains v.reward_coin coins ≡ true)
    → mille ≤ mille_max
    → worth d + amount ≤ u64_max
    → (r : Dag) × (moved : ℕ) × (credit_validator_reward mille v amount d ≡ some (r, moved))
      × Grows coins d moved r
      × (moved ≡ amount
          ⊎ (bytes_eq v.reward_coin zero_hash ≡ false)
            × (moved ≡ safe_mul amount mille / mille_max))
unfolding restaked
credit_validator_reward_lem coins d s v info mille amount w there member fresh known fraction room =
    elim (Bool-cases (bytes_eq v.reward_coin zero_hash)) [
      | inl none_named ↦
          let (r, done, grown) =
            coinless coins d w s there v info member fresh mille amount fraction room none_named in
          (r, amount, done, grown, inl refl)
      | inr named ↦
          let (r, moved, done, grown, which) =
            with_coin coins d w s there v info member fresh mille amount fraction room named
              (ground (arith, known)) in
          (r, moved, done, grown, ground (arith, which, named))
    ]
