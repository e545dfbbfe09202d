-- ===== src/Supply/Tests.antt =====
-- The theorems on the counters at a state with a supply of 1000.
use blue_pods.Prelude.{◌≡◌, refl, List, [], ◌∷◌, some, arith}
use blue_pods.Bytes.{be_bytes}
use blue_pods.Supply.{Counters, reopen}
use blue_pods.Supply.Laws.{IsPersisted, Op, add_to_supply, sub_from_coins, run, reopen-run}

abbrev thousand : Counters
thousand = record {
  total_supply = 1000;
  coins_total = 600;
  db = some (record { supply = some (be_bytes 8 1000); coins = some (be_bytes 8 600) });
}

abbrev thousand-IsPersisted : IsPersisted thousand
thousand-IsPersisted = record { word_supply = omega arith; word_coins = omega arith; stored = refl }

abbrev script : List Op
script = add_to_supply 50 ∷ sub_from_coins 20 ∷ []

reopen-run_example :
    ((reopen (run script thousand)).total_supply ≡ (run script thousand).total_supply)
    × ((reopen (run script thousand)).coins_total ≡ (run script thousand).coins_total)
reopen-run_example = reopen-run script thousand (omega arith) thousand-IsPersisted
