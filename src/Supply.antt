-- ===== src/Supply.antt =====
-- The supply counters of internal/state/supply.go, with the copy of each that storage keeps. A
-- state with no database (`db` is nil) keeps them in memory only. Each operation runs under the
-- counter's mutex, so it is one step.
pub mod Laws
pub mod Tests
use blue_pods.Prelude.{
  ℕ, ◌+◌, ◌-◌, List, [], ◌∷◌, Option, none, some, Bool, true, false, ltb, if◌then◌else◌, length,
  take,
}
use blue_pods.Word.{u64_max}
use blue_pods.Bytes.{be_bytes, be_num}

-- The values under the keys m:supply and m:coins_total.
pub record Meta : Type 0 where
  pub supply : Option (List ℕ)
  pub coins : Option (List ℕ)

pub record Counters : Type 0 where
  pub total_supply : ℕ
  pub coins_total : ℕ
  pub db : Option Meta

-- A value that is missing or shorter than eight bytes leaves the counter as it was.
read_counter : Option (List ℕ) → ℕ → ℕ
read_counter none old = old
read_counter (some bytes) old = if ltb (length bytes) 8 then old else be_num (take 8 bytes)

load_supply : Counters → Counters
unfolding read_counter
load_supply c = elim c.db [
  | none ↦ c
  | some m ↦ record c { total_supply = read_counter m.supply c.total_supply }
]

load_coins_total : Counters → Counters
unfolding read_counter
load_coins_total c = elim c.db [
  | none ↦ c
  | some m ↦ record c { coins_total = read_counter m.coins c.coins_total }
]

persist_supply : Counters → Counters
persist_supply c = elim c.db [
  | none ↦ c
  | some m ↦ record c { db = some (record m { supply = some (be_bytes 8 c.total_supply) }) }
]

persist_coins_total : Counters → Counters
persist_coins_total c = elim c.db [
  | none ↦ c
  | some m ↦ record c { db = some (record m { coins = some (be_bytes 8 c.coins_total) }) }
]

unfoldable set_total_supply : ℕ → Counters → Counters
unfolding persist_supply
set_total_supply supply c = persist_supply (record c { total_supply = supply })

unfoldable pub add_supply : ℕ → Counters → Counters
unfolding persist_supply
add_supply amount c = persist_supply (record c {
  total_supply = if ltb (u64_max - amount) c.total_supply then u64_max else c.total_supply + amount;
})

unfoldable pub sub_supply : ℕ → Counters → Counters
unfolding persist_supply
sub_supply amount c =
    persist_supply
      (record c { total_supply = if ltb c.total_supply amount then 0 else c.total_supply - amount })

unfoldable set_coins_total : ℕ → Counters → Counters
unfolding persist_coins_total
set_coins_total total c = persist_coins_total (record c { coins_total = total })

unfoldable pub add_coins : ℕ → Counters → Counters
unfolding persist_coins_total
add_coins amount c = persist_coins_total (record c {
  coins_total = if ltb (u64_max - amount) c.coins_total then u64_max else c.coins_total + amount;
})

unfoldable pub sub_coins : ℕ → Counters → Counters
unfolding persist_coins_total
sub_coins amount c =
    persist_coins_total
      (record c { coins_total = if ltb c.coins_total amount then 0 else c.coins_total - amount })

-- New over an existing database: both counters start at 0 and are loaded.
pub reopen : Counters → Counters
unfolding load_supply load_coins_total
reopen c = load_coins_total (load_supply (record c { total_supply = 0; coins_total = 0 }))
