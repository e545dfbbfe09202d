-- ===== src/Smt/Paths.antt =====
-- The fold of `foldPath`, which climbs from the deepest sibling, read from the root down.
use mathlib.Core.List.{reverse, reverse-cons}
use blue_pods.Prelude.{
  ℕ, suc, ◌+◌, ◌≡◌, refl, ◌∙◌, ap, ◌==◌, if◌then◌else◌, List, [], ◌∷◌, ◌++◌, arith, length,
  length-append,
}
use blue_pods.Types.{Hash}
use blue_pods.Smt.{bit, internal_hash}
use blue_pods.Smt.Proofs.{fold_path}

module _ (blake3 : List ℕ → Hash) (key_hash : Hash) where
  unfoldable pub join : ℕ → Hash → Hash → Hash
  join depth cur sibling =
      if bit key_hash depth == 0
      then internal_hash blake3 cur sibling
      else internal_hash blake3 sibling cur

  -- The fold of a path whose top lies at a depth.
  climb : ℕ → Hash → List Hash → Hash
  unfolding join
  climb depth cur [] = cur
  climb depth cur (s ∷ ss) = climb depth (join (length ss + depth) cur s) ss

  unfoldable pub descend : ℕ → List Hash → Hash → Hash
  unfolding join
  descend depth [] target = target
  descend depth (s ∷ ss) target = join depth (descend (suc depth) ss target) s

  fold_path-climb :
      (cur : Hash) (ss : List Hash) → fold_path blake3 cur key_hash ss ≡ climb 0 cur ss
  unfolding fold_path climb join
  fold_path-climb cur [] = refl
  fold_path-climb cur (s ∷ ss) =
      let at_top : length ss + 0 ≡ length ss = omega arith in
      rw at_top (fold_path-climb (join (length ss) cur s) ss)

  climb-append :
      (depth : ℕ) (cur : Hash) (xs : List Hash) (s : Hash)
      → climb depth cur (xs ++ (s ∷ [])) ≡ join depth (climb (suc depth) cur xs) s
  unfolding climb
  climb-append depth cur [] s =
      let top : 0 + depth ≡ depth = omega arith in ap (λ (d : ℕ). join d cur s) top
  climb-append depth cur (x ∷ xs) s =
      let below : length (xs ++ (s ∷ [])) + depth ≡ length xs + suc depth =
        omega (arith, length-append xs (s ∷ [])) in
      rw (climb, below) (climb-append depth (join (length xs + suc depth) cur x) xs s)

  climb-reverse :
      (depth : ℕ) (cur : Hash) (ss : List Hash)
      → climb depth cur (reverse ss) ≡ descend depth ss cur
  unfolding descend climb
  climb-reverse depth cur [] = refl
  climb-reverse depth cur (s ∷ ss) =
      ap (climb depth cur) (reverse-cons s ss)
      ∙ climb-append depth cur (reverse ss) s
      ∙ ap (λ (h : Hash). join depth h s) (climb-reverse (suc depth) cur ss)

  pub fold_path-reverse :
      (cur : Hash) (ss : List Hash) → fold_path blake3 cur key_hash (reverse ss) ≡ descend 0 ss cur
  fold_path-reverse cur ss = fold_path-climb cur (reverse ss) ∙ climb-reverse 0 cur ss
