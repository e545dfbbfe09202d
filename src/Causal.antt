-- ===== src/Causal.antt =====
-- The causal batch of an anchor: the walk over parent links of internal/consensus/anchor.go, over the
-- vertex store. The walk's fuel counts the queue's heads that are taken.
pub mod Ending
pub mod Members
pub mod Walks
pub mod Closure
pub mod Order
pub mod Tests
use blue_pods.Prelude.{
  ℕ, zero, suc, ◌+◌, List, [], ◌∷◌, ◌++◌, Option, none, some, Bool, true, false, ◌&&◌, ◌||◌, ltb,
  leb, ◌==◌, if◌then◌else◌, length, map,
}
use blue_pods.Types.{Hash, contains}
use blue_pods.Dict.{bytes_less}
use blue_pods.Anchor.{Vertex, Store}

pub record CausalEntry : Type 0 where
  pub hash : Hash
  pub round : ℕ

pub data Walk : Type 0 where
  out_of_fuel : Walk
  missing : Walk
  collected : List CausalEntry → Walk

unfoldable pub below_commit_floor : ℕ → Store → Bool
below_commit_floor round s = s.commit_floor_set && leb round s.commit_floor

unfoldable pub collect_causal : ℕ → Store → List Hash → List Hash → List CausalEntry → Walk
collect_causal fuel s [] seen entries = collected entries
collect_causal zero s (hash ∷ queue) seen entries = out_of_fuel
collect_causal (suc fuel) s (hash ∷ queue) seen entries =
    elim (contains hash seen || s.committed hash) [
      | true ↦ collect_causal fuel s queue seen entries
      | false ↦ elim (s.vertices hash) [
        | none ↦ missing
        | some vertex ↦ elim (below_commit_floor vertex.round s) [
          | true ↦ collect_causal fuel s queue (hash ∷ seen) entries
          | false ↦
              collect_causal fuel s (queue ++ vertex.parents) (hash ∷ seen)
                (entries ++ record { hash = hash; round = vertex.round } ∷ [])
        ]
      ]
    ]

-- By round, then by hash.
unfoldable pub entry_less : CausalEntry → CausalEntry → Bool
entry_less a b = if a.round == b.round then bytes_less a.hash b.hash else ltb a.round b.round

unfoldable pub insert_entry : CausalEntry → List CausalEntry → List CausalEntry
insert_entry e [] = e ∷ []
insert_entry e (x ∷ xs) = if entry_less e x then e ∷ x ∷ xs else x ∷ insert_entry e xs

unfoldable pub sort_entries : List CausalEntry → List CausalEntry
sort_entries [] = []
sort_entries (x ∷ xs) = insert_entry x (sort_entries xs)

abbrev parent_count : Hash → Store → ℕ
parent_count hash s = elim (s.vertices hash) [ none ↦ 0 | some vertex ↦ length vertex.parents ]

abbrev total_parents : List Hash → Store → ℕ
total_parents [] s = 0
total_parents (hash ∷ hashes) s = parent_count hash s + total_parents hashes s

-- The fuel of a walk from one hash.
abbrev walk_fuel : Store → ℕ
walk_fuel s = suc (total_parents s.stored s)

-- `none` when a vertex is absent.
unfoldable pub causal_batch : Hash → Store → Option (List Hash)
causal_batch anchor s = elim (collect_causal (walk_fuel s) s (anchor ∷ []) [] []) [
  | out_of_fuel ↦ none
  | missing ↦ none
  | collected entries ↦ some (map (λ (e : CausalEntry). e.hash) (sort_entries entries))
]
