-- ===== src/Supply/Laws.antt =====
-- The counters saturate at both ends, and survive a restart.
use blue_pods.Prelude.{ℕ, ◌+◌, ◌-◌, ◌≤◌, ◌≡◌, ap, List, [], ◌∷◌, some, min, arith, All, take-append}
use mathlib.Core.List.{append-nil}
use blue_pods.Word.{u64_max}
use blue_pods.Bytes.{be_bytes, be_num, length-be_bytes, be_num-be_bytes}
use blue_pods.Supply.{
  Counters, read_counter, set_total_supply, add_supply, sub_supply, set_coins_total, add_coins,
  sub_coins, reopen,
}

-- What storage holds is what a restart needs: each counter's bytes, and both are 64-bit values.
pub record IsPersisted (c : Counters) : Type 0 where
  pub word_supply : c.total_supply ≤ u64_max
  pub word_coins : c.coins_total ≤ u64_max
  pub stored :
      c.db
      ≡ some (record {
        supply = some (be_bytes 8 c.total_supply);
        coins = some (be_bytes 8 c.coins_total);
      })

-- The operations on the counters, as one type.
pub data Op : Type 0 where
  set_supply_to add_to_supply sub_from_supply : ℕ → Op
  set_coins_to add_to_coins sub_from_coins : ℕ → Op

abbrev amount_of : Op → ℕ
amount_of (set_supply_to n) = n
amount_of (add_to_supply n) = n
amount_of (sub_from_supply n) = n
amount_of (set_coins_to n) = n
amount_of (add_to_coins n) = n
amount_of (sub_from_coins n) = n

abbrev apply : Op → Counters → Counters
apply (set_supply_to n) = set_total_supply n
apply (add_to_supply n) = add_supply n
apply (sub_from_supply n) = sub_supply n
apply (set_coins_to n) = set_coins_total n
apply (add_to_coins n) = add_coins n
apply (sub_from_coins n) = sub_coins n

-- The pair of counters as plain numbers: saturating sums and truncated differences.
abbrev expected : Op → ℕ × ℕ → ℕ × ℕ
expected (set_supply_to n) (s, c) = (n, c)
expected (add_to_supply n) (s, c) = (min (s + n) u64_max, c)
expected (sub_from_supply n) (s, c) = (s - n, c)
expected (set_coins_to n) (s, c) = (s, n)
expected (add_to_coins n) (s, c) = (s, min (c + n) u64_max)
expected (sub_from_coins n) (s, c) = (s, c - n)

-- Every operation changes its own counter alone, saturating at the ends of uint64, and leaves
-- storage holding both counters as they are now.
apply_lem :
    (op : Op) (c : Counters)
    → amount_of op ≤ u64_max
    → IsPersisted c
    → ((apply op c).total_supply ≡ (expected op (c.total_supply, c.coins_total)).0)
      × ((apply op c).coins_total ≡ (expected op (c.total_supply, c.coins_total)).1)
      × IsPersisted (apply op c)
unfolding set_total_supply add_supply sub_supply set_coins_total add_coins sub_coins
apply_lem (set_supply_to n) c h v = ground arith
apply_lem (add_to_supply n) c h v = ground arith
apply_lem (sub_from_supply n) c h v = ground arith
apply_lem (set_coins_to n) c h v = ground arith
apply_lem (add_to_coins n) c h v = ground arith
apply_lem (sub_from_coins n) c h v = ground arith

read_back : (x old : ℕ) → x ≤ u64_max → read_counter (some (be_bytes 8 x)) old ≡ x
unfolding read_counter
read_back x old h =
    let whole = rw append-nil at (take-append (be_bytes 8 x) [] 8 (length-be_bytes 8 x)) in
    ground (arith, length-be_bytes 8 x, ap be_num whole, be_num-be_bytes 8 x (omega arith))

-- A restart reads both counters back.
reopen_lem :
    (c : Counters)
    → IsPersisted c
    → ((reopen c).total_supply ≡ c.total_supply) × ((reopen c).coins_total ≡ c.coins_total)
unfolding reopen
reopen_lem c v = ground (
  arith,
  read_back c.total_supply 0 v.word_supply,
  read_back c.coins_total 0 v.word_coins,
  v.stored,
)

abbrev pub run : List Op → Counters → Counters
run [] c = c
run (op ∷ ops) c = run ops (apply op c)

run-IsPersisted :
    (ops : List Op) (c : Counters)
    → All (λ op. amount_of op ≤ u64_max) ops
    → IsPersisted c
    → IsPersisted (run ops c)
run-IsPersisted [] c h v = v
run-IsPersisted (op ∷ ops) c h v = run-IsPersisted ops (apply op c) h.1 (apply_lem op c h.0 v).2

-- When both counters are stored at the start, a restart after any operations with 64-bit amounts reads
-- back the counters that they left.
pub reopen-run :
    (ops : List Op) (c : Counters)
    → All (λ op. amount_of op ≤ u64_max) ops
    → IsPersisted c
    → ((reopen (run ops c)).total_supply ≡ (run ops c).total_supply)
      × ((reopen (run ops c)).coins_total ≡ (run ops c).coins_total)
reopen-run ops c h v = reopen_lem (run ops c) (run-IsPersisted ops c h v)

pub coins_total-add_coins :
    (n : ℕ) (c : Counters)
    → c.coins_total + n ≤ u64_max
    → (add_coins n c).coins_total ≡ c.coins_total + n
unfolding add_coins
coins_total-add_coins n c h = ground arith

pub coins_total-sub_coins :
    (n : ℕ) (c : Counters) → n ≤ c.coins_total → (sub_coins n c).coins_total + n ≡ c.coins_total
unfolding sub_coins
coins_total-sub_coins n c h = ground arith

pub total_supply-add_supply :
    (n : ℕ) (c : Counters)
    → c.total_supply + n ≤ u64_max
    → ((add_supply n c).total_supply ≡ c.total_supply + n)
      × ((add_supply n c).coins_total ≡ c.coins_total)
unfolding add_supply
total_supply-add_supply n c h = ground arith

pub total_supply-sub_supply :
    (n : ℕ) (c : Counters)
    → n ≤ c.total_supply
    → ((sub_supply n c).total_supply + n ≡ c.total_supply)
      × ((sub_supply n c).coins_total ≡ c.coins_total)
unfolding sub_supply
total_supply-sub_supply n c h = ground arith
