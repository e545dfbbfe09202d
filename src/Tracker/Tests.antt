-- ===== src/Tracker/Tests.antt =====
-- A root object and an object below it; the theorems on entries, edges and walks at them.
use blue_pods.Prelude.{
  ◌^◌, ◌+◌, ◌%◌, ◌⊎◌, [], ◌∷◌, ◌≡◌, refl, none, some, true, false, if◌then◌else◌, arith, replicate,
  bytes_eq,
}
use blue_pods.Types.{Hash, Tx}
use blue_pods.Bytes.{le_bytes, le_num}
use blue_pods.Tracker.{
  get_fees, get_version, check_refs, check_and_update, Tracker, encode_value, version_of, fees_of,
  parent_of, get_parent, set_parent, controller_loop, controller_of, cycle_loop, would_cycle,
}
use blue_pods.Tracker.Values.{IsEntry}
use blue_pods.Tracker.Versions.{occurrences, check_and_update_lem}
use blue_pods.Tracker.Walks.{would_cycle_lem}

abbrev pub owner : Hash
owner = replicate 32 9

abbrev pub root : Hash
root = replicate 32 5

abbrev leaf : Hash
leaf = replicate 32 6

abbrev pub tracker : Tracker
tracker = record {
  entries = λ k. if bytes_eq root k then some (encode_value 3 0 500 0 owner 0) else none;
  committed = λ k. false;
}

root-IsEntry : IsEntry 3 0 500 0 owner 0
root-IsEntry = record {
  word = omega arith;
  holders = omega arith;
  deposit = omega arith;
  key = refl;
  children = omega arith;
}

leaf_passes : would_cycle leaf 1 root tracker ≡ false
unfolding would_cycle cycle_loop get_parent parent_of encode_value le_bytes le_num bytes_eq
leaf_passes = refl

-- An object is not attached under itself.
root_refused : would_cycle root 1 root tracker ≡ true
unfolding would_cycle cycle_loop bytes_eq
root_refused = refl

would_cycle_lem_example :
    (c : Hash) × (controller_loop 256 root tracker ≡ some c)
    × (controller_loop 257 leaf (set_parent leaf 1 root tracker) ≡ some c)
    × (controller_of leaf (set_parent leaf 1 root tracker) ≡ controller_loop 255 root tracker)
would_cycle_lem_example = would_cycle_lem leaf 1 root tracker refl refl leaf_passes

abbrev spend : Tx
spend = record {
  sender = owner;
  pod = [];
  function_name = [];
  args = [];
  read_refs = [];
  mutable_refs = record { id = root; version = 3; domain = [] } ∷ [];
}

named_once : occurrences root spend.mutable_refs ≡ 1
unfolding bytes_eq
named_once = refl

root_version : get_version root tracker ≡ 3
unfolding get_version version_of encode_value le_bytes le_num bytes_eq
root_version = refl

check_and_update_lem_example :
    (check_and_update spend tracker ≡ (tracker, false))
    ⊎ ((t : Tracker) × (check_and_update spend tracker ≡ (t, true))
        × (get_version root t
            ≡ (get_version root tracker + occurrences root spend.mutable_refs) % 2 ^ 64)
        × (check_and_update spend t ≡ (t, false)))
check_and_update_lem_example =
    check_and_update_lem spend tracker root (omega (arith, named_once)) (omega (arith, named_once))
      (omega (arith, root_version))

-- The references of the run are current.
spend_is_current : check_refs spend.mutable_refs tracker ≡ true
unfolding check_refs get_version version_of encode_value le_bytes le_num bytes_eq
spend_is_current = refl

pub root_deposit : get_fees root tracker ≡ 500
unfolding get_fees fees_of encode_value le_bytes le_num bytes_eq
root_deposit = refl
