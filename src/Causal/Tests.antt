-- ===== src/Causal/Tests.antt =====
-- The batch of an anchor over a committed vertex, and each theorem there.
use blue_pods.Prelude.{
  ℕ, ◌≡◌, ◌<◌, ◌≢◌, ◌↔◌, refl, [], ◌∷◌, Option, none, some, true, if◌then◌else◌, bytes_eq,
  replicate, arith,
}
use blue_pods.Types.{Hash, contains}
use blue_pods.Dict.{bytes_less}
use blue_pods.Anchor.{Vertex, Store}
use blue_pods.Causal.{
  out_of_fuel, below_commit_floor, collect_causal, walk_fuel, entry_less, insert_entry,
  sort_entries, causal_batch,
}
use blue_pods.Causal.Members.{Ancestor}
use blue_pods.Causal.Ending.{IsIndexed, collect_causal_lem}
use blue_pods.Causal.Order.{causal_batch_order}
use blue_pods.Causal.Closure.{causal_batch_lem}

abbrev key : ℕ → Hash
key k = replicate 32 k

abbrev genesis : Vertex
genesis = record { round = 6; producer = key 1; parents = [] }

abbrev older : Vertex
older = record { round = 7; producer = key 1; parents = key 40 ∷ [] }

abbrev anchor_vertex : Vertex
anchor_vertex = record { round = 8; producer = key 2; parents = key 60 ∷ key 50 ∷ [] }

-- The anchor 61 cites 60 and 50 of round 7, which both cite the committed 40.
abbrev vertex_of : Hash → Option Vertex
vertex_of h =
    if bytes_eq h (key 40)
    then some genesis
    else if bytes_eq h (key 50)
    then some older
    else if bytes_eq h (key 60)
    then some older
    else if bytes_eq h (key 61)
    then some anchor_vertex
    else none

abbrev pub dag : Store
dag = record {
  stored = key 40 ∷ key 50 ∷ key 60 ∷ key 61 ∷ [];
  by_round = λ r. [];
  latest_round = 8;
  vertices = vertex_of;
  round_producers = λ r h. none;
  committed = bytes_eq (key 40);
  commit_floor = 2;
  commit_floor_set = true;
}

dag-IsIndexed : IsIndexed dag
unfolding contains
dag-IsIndexed h x there = ground (arith, there)

batch_run : causal_batch (key 61) dag ≡ some (key 50 ∷ key 60 ∷ key 61 ∷ [])
unfolding causal_batch collect_causal below_commit_floor contains bytes_eq entry_less insert_entry
    sort_entries bytes_less
batch_run = refl

collect_causal_lem_example : collect_causal (walk_fuel dag) dag (key 61 ∷ []) [] [] ≢ out_of_fuel
collect_causal_lem_example = collect_causal_lem dag dag-IsIndexed (key 61)

causal_batch_lem_example :
    (contains (key 50) (key 50 ∷ key 60 ∷ key 61 ∷ []) ≡ true) ↔ Ancestor dag (key 61) (key 50)
causal_batch_lem_example =
    causal_batch_lem dag (key 61) (key 50 ∷ key 60 ∷ key 61 ∷ []) (key 50) batch_run

rounds_fall :
    (q : Hash) (y : Vertex)
    → dag.vertices q ≡ some y
    → contains q anchor_vertex.parents ≡ true
    → y.round < 8
unfolding contains
rounds_fall q y there cited = ground (arith, there, cited)

causal_batch_order_example : 0 < 2
unfolding contains bytes_eq
causal_batch_order_example =
    causal_batch_order dag (key 61) (key 50 ∷ key 60 ∷ key 61 ∷ []) (key 61) (key 50) anchor_vertex
      0 2 rounds_fall batch_run refl refl refl refl
