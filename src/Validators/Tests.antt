-- ===== src/Validators/Tests.antt =====
-- Runs of the validator set, and each theorem at a set of two validators.
use mathlib.Core.Option
use blue_pods.Prelude.{
  ℕ, ◌+◌, ◌≤◌, ◌≡◌, refl, Bool, not, ◌&&◌, List, [], ◌∷◌, Option, none, some, bytes_eq,
  bytes_eq_iff, if◌then◌else◌, arith, zero, suc, ◌^◌, ◌-◌,
}
use blue_pods.Types.{Hash}
use blue_pods.Validators.{
  ValidatorSet, Added, new_validator_set, fresh_info, zero_bls, add, remove, has, fill_addresses,
}
use blue_pods.Validators.Index.{IsIndexed, view, keys, Agrees}
use blue_pods.Validators.Changes.{add_lem, remove_lem}

abbrev alice : Hash
alice = 1 ∷ []

abbrev bob : Hash
bob = 2 ∷ []

pair : ValidatorSet
unfolding new_validator_set
pair = new_validator_set (alice ∷ bob ∷ [])

pair-Agrees : Agrees pair.index (keys pair)
unfolding pair bytes_eq
pair-Agrees k zero = ground (arith, bytes_eq_iff alice k, bytes_eq_iff bob k)
pair-Agrees k (suc zero) = ground (arith, bytes_eq_iff alice k, bytes_eq_iff bob k)
pair-Agrees k (suc (suc i)) = ground (arith, bytes_eq_iff alice k, bytes_eq_iff bob k)

pair-IsIndexed : IsIndexed pair
pair-IsIndexed = record { at = pair-Agrees }

abbrev seven : List ℕ
seven = 7 ∷ []

-- A third validator joins; then the first one leaves, and the third takes its slot.
abbrev trio : Option Added
trio = add (3 ∷ []) seven zero_bls pair

add_lem_example :
    (r : Added) × (trio ≡ some r)
    × IsIndexed r.after
    × (r.is_new ≡ not (has (3 ∷ []) pair))
    × ((j : Hash)
        → view r.after j ≡ (
            if bytes_eq (3 ∷ []) j
            then (if has (3 ∷ []) pair
                then Option.map (fill_addresses seven zero_bls) (view pair (3 ∷ []))
                else some (fresh_info (3 ∷ []) seven zero_bls))
            else view pair j))
    × (r.notified ≡ (
        if not (has (3 ∷ []) pair) && pair.has_callback
        then some (fresh_info (3 ∷ []) seven zero_bls)
        else none))
add_lem_example = add_lem (3 ∷ []) seven zero_bls pair pair-IsIndexed

remove_lem_example :
    (r : ValidatorSet × Bool) × (remove alice pair ≡ some r)
    × IsIndexed r.0
    × (r.1 ≡ has alice pair)
    × ((j : Hash) → view r.0 j ≡ (if bytes_eq alice j then none else view pair j))
remove_lem_example = remove_lem alice pair pair-IsIndexed

bob_member : view pair bob ≡ some (fresh_info bob [] zero_bls)
unfolding pair bytes_eq fresh_info
bob_member = refl

bob_room : (fresh_info bob [] zero_bls).delegated_total + 50 ≤ 2 ^ 64 - 1
unfolding fresh_info
bob_room = omega arith
