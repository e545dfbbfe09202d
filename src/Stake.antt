-- ===== src/Stake.antt =====
-- Voting weights and the quorum test of internal/consensus/stake.go. A set is the list of infos
-- that `All` returns, and `producers` the map[Hash]bool of a tally.
pub mod Weights
pub mod Quorum
pub mod Tests
use blue_pods.Prelude.{
  ℕ, ◌*◌, ◌/◌, ◌≤◌, Bool, true, false, ◌||◌, List, [], ◌∷◌, Option, none, some, ltb, leb, ◌==◌,
  if◌then◌else◌, length, not,
}
use blue_pods.Types.{Hash}
use blue_pods.Word.{safe_mul, safe_add}
use blue_pods.Validators.{ValidatorInfo}

unfoldable pub effective_stake : Option ValidatorInfo → ℕ
effective_stake none = 0
effective_stake (some v) = if v.jailed then 0 else safe_add v.self_stake v.delegated_total

-- totalBonded, and the raw total of cappedStakeOf.
unfoldable pub total_loop : ℕ → List ValidatorInfo → ℕ
total_loop total [] = total
total_loop total (v ∷ vs) = total_loop (safe_add total (effective_stake (some v))) vs

unfoldable pub total_bonded : List ValidatorInfo → ℕ
total_bonded all = total_loop 0 all

unfoldable pub capped_weight : ℕ → ℕ → ℕ → ℕ → ℕ
capped_weight effective total cap_mille set_size =
    if set_size == 0 || total == 0
    then effective
    else let by_cap = safe_mul total cap_mille / 1000 in
      let equal = total / set_size in
      let ceiling = if ltb by_cap equal then equal else by_cap in
      if ltb ceiling effective then ceiling else effective

unfoldable pub quorum_reached : ℕ → ℕ → Bool
quorum_reached capped_sum total =
    if total == 0 then false else leb (safe_mul 2 total) (safe_mul 3 capped_sum)

module _ (producers : Hash → Bool) (raw_total cap_mille set_size : ℕ) where
  unfoldable pub capped_loop : ℕ → ℕ → List ValidatorInfo → ℕ × ℕ
  capped_loop capped_sum capped_total [] = (capped_sum, capped_total)
  capped_loop capped_sum capped_total (v ∷ vs) =
      let weight = capped_weight (effective_stake (some v)) raw_total cap_mille set_size in
      capped_loop (if producers v.pubkey then safe_add capped_sum weight else capped_sum)
        (safe_add capped_total weight) vs

unfoldable pub capped_stake_of : ℕ → List ValidatorInfo → (Hash → Bool) → ℕ × ℕ
capped_stake_of cap_mille all producers =
    let raw_total = total_loop 0 all in
    capped_loop producers raw_total cap_mille (length all) 0 0 all

-- `reachesStrictQuorum` of internal/consensus/anchor_decision.go.
unfoldable pub reaches_strict_quorum : ℕ → List ValidatorInfo → (Hash → Bool) → Bool
reaches_strict_quorum cap_mille all producers =
    let (sum, total) = capped_stake_of cap_mille all producers in quorum_reached sum total
