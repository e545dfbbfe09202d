-- ===== src/Tracker/Walks.antt =====
-- Reparenting keeps the hierarchy free of cycles (internal/consensus/walk.go).
use blue_pods.Prelude.{
  ℕ, zero, suc, ◌≤◌, ◌≡◌, refl, ◌∙◌, some, false, ◌==◌, arith, length, bytes_eq, bytes_eq_iff,
  bytes_eq_refl, Option-cases, Bool-cases, inl, inr,
}
use blue_pods.Types.{Hash}
use blue_pods.Tracker.{
  Tracker, get_parent, set_parent, controller_loop, controller_of, cycle_loop, would_cycle,
}
use blue_pods.Tracker.Parents.{get_parent-set_parent}

module _ (id : Hash) (t t' : Tracker)
    (agree : (k : Hash) → bytes_eq k id ≡ false → get_parent k t' ≡ get_parent k t) where
  -- A walk that the cycle test passed ends at a key, and does not meet the object.
  cycle_loop_ends :
      (n : ℕ) (current : Hash)
      → cycle_loop n id current t ≡ false
      → (c : Hash) × (controller_loop n current t ≡ some c)
        × (controller_loop n current t' ≡ some c)
  unfolding cycle_loop controller_loop
  cycle_loop_ends zero current e = absurd (ground arith)
  cycle_loop_ends (suc n) current e = elim (Bool-cases (bytes_eq current id)) [
    | inl here ↦ absurd (ground (arith, here))
    | inr away ↦
        let same = agree current away in
        elim (Option-cases (get_parent current t)) [
          | inl missing ↦ absurd (ground (arith, away, missing))
          | inr ((kind, parent), edge) ↦ elim (Bool-cases (kind == 0)) [
            | inl root ↦ (parent, ground (arith, edge, root), ground (arith, edge, root, same))
            | inr inner ↦
                let (c, before, after) =
                  cycle_loop_ends n parent (ground (arith, away, edge, inner)) in
                (c, ground (arith, edge, inner, before), ground (arith, edge, inner, same, after))
          ]
        ]
  ]

  -- A shorter walk on the same path does not meet the object either.
  cycle_loop_agrees :
      (n : ℕ) (current : Hash) (m : ℕ)
      → m ≤ n
      → cycle_loop n id current t ≡ false
      → controller_loop m current t' ≡ controller_loop m current t
  unfolding cycle_loop controller_loop
  cycle_loop_agrees n current zero h e = refl
  cycle_loop_agrees zero current (suc m) h e = absurd (omega arith)
  cycle_loop_agrees (suc n) current (suc m) h e = elim (Bool-cases (bytes_eq current id)) [
    | inl here ↦ absurd (ground (arith, here))
    | inr away ↦
        let same = agree current away in
        elim (Option-cases (get_parent current t)) [
          | inl missing ↦ ground (arith, same, missing)
          | inr ((kind, parent), edge) ↦ elim (Bool-cases (kind == 0)) [
            | inl root ↦ ground (arith, edge, root, same)
            | inr inner ↦
                let rest =
                  cycle_loop_agrees n parent m (omega arith) (ground (arith, away, edge, inner)) in
                ground (arith, edge, inner, same, rest)
          ]
        ]
  ]

controller_loop-child :
    (n : ℕ) (id : Hash) (kind : ℕ) (parent : Hash) (t : Tracker)
    → get_parent id t ≡ some (kind, parent)
    → (kind == 0) ≡ false
    → controller_loop (suc n) id t ≡ controller_loop n parent t
unfolding controller_loop
controller_loop-child n id kind parent t edge inner = ground (arith, edge, inner)

-- An object attached under another one that `wouldCycle` lets pass is controlled, one edge further
-- away, by the key that controls its new parent. `controllerOf` finds that key if the parent's own
-- walk ends within 255 lookups: at a parent that is 256 lookups from its key, which the test
-- accepts, the attached object has no controller. The parent must be 32 bytes and no key.
pub would_cycle_lem :
    (id : Hash) (kind : ℕ) (parent : Hash) (t : Tracker)
    → length parent ≡ 32
    → (kind == 0) ≡ false
    → would_cycle id kind parent t ≡ false
    → (c : Hash) × (controller_loop 256 parent t ≡ some c)
      × (controller_loop 257 id (set_parent id kind parent t) ≡ some c)
      × (controller_of id (set_parent id kind parent t) ≡ controller_loop 255 parent t)
unfolding would_cycle controller_of
would_cycle_lem id kind parent t wide inner passed =
    let t' = set_parent id kind parent t in
    let edge : get_parent id t' ≡ some (kind, parent) =
      ground (arith, get_parent-set_parent id kind parent t id wide, bytes_eq_refl id) in
    let agree : (k : Hash) → bytes_eq k id ≡ false → get_parent k t' ≡ get_parent k t = λ k away.
      ground (
        arith,
        get_parent-set_parent id kind parent t k wide,
        bytes_eq_iff id k,
        bytes_eq_iff k id,
      ) in
    let safe : cycle_loop 256 id parent t ≡ false = ground (arith, inner, passed) in
    let (c, before, after) = cycle_loop_ends id t t' agree 256 parent safe in
    (
      c,
      before,
      controller_loop-child 256 id kind parent t' edge inner ∙ after,
      controller_loop-child 255 id kind parent t' edge inner
          ∙ cycle_loop_agrees id t t' agree 256 parent 255 (omega arith) safe,
    )
