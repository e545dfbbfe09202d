-- ===== src/Smt/Splitting.antt =====
-- The split of two leaves (splitLeaves and branch): it ends at the first bit at which their keys
-- differ.
use blue_pods.Prelude.{
  ℕ, zero, suc, ◌+◌, ◌-◌, ◌≤◌, ◌<◌, ◌≡◌, ◌≢◌, refl, sym, subst, some, false, ◌==◌, if◌then◌else◌,
  bytes_eq, bytes_eq_iff, Bool-cases, Option-cases, inl, inr, List, arith,
}
use blue_pods.Types.{Hash}
use blue_pods.Smt.{Node, Leaf, empty, leaf, bit, split_leaves, branch}
use blue_pods.Smt.Bits.{Agree, Agree-all, bit-lt}
use blue_pods.Smt.Shape.{Every, count, lookup, Side, IsTree}

pub Agree-suc : (d : ℕ) (k j : Hash) → Agree d k j → bit k d ≡ bit j d → Agree (suc d) k j
Agree-suc d k j h here i l = elim (Bool-cases (i == d)) [
  | inl at ↦ let same : i ≡ d = ground arith in subst (λ (x : ℕ). bit k x ≡ bit j x) (sym same) here
  | inr before ↦ h i (ground arith)
]

-- What becomes of a tree when the value hash of a key is written: the key is there, the others are
-- as they were.
abbrev pub Written : Hash → Hash → ℕ → Node → Node → Type 0
Written key_hash value_hash depth n n' =
    (k : Hash)
    → lookup n' depth k ≡ (if bytes_eq key_hash k then some value_hash else lookup n depth k)

branch-Every :
    (P : Hash → Type 0) (first second : Node) (b : ℕ)
    → Every P first
    → Every P second
    → Every P (branch first second b)
unfolding branch
branch-Every P first second b h g = elim (Bool-cases (b == 0)) [
  | inl zero_bit ↦ rw zero_bit (h, g)
  | inr one_bit ↦ rw one_bit (g, h)
]

pub split_leaves-Every :
    (P : Hash → Type 0) (levels : ℕ) (a b : Leaf) (depth : ℕ) {n : Node}
    → split_leaves levels a b depth ≡ some n
    → P a.leaf_key
    → P b.leaf_key
    → Every P n
unfolding split_leaves
split_leaves-Every P zero a b depth e ha hb = absurd (ground (arith, e))
split_leaves-Every P (suc levels) a b depth {n} e ha hb =
    elim (Bool-cases (bit a.leaf_key depth == bit b.leaf_key depth)) [
      | inl shared ↦ elim (Option-cases (split_leaves levels a b (suc depth))) [
        | inl missing ↦ absurd (ground (arith, e, shared, missing))
        | inr (inner, split) ↦
            let same : branch inner empty (bit a.leaf_key depth) ≡ n =
              ground (arith, e, shared, split) in
            subst (Every P) same (
              branch-Every P inner empty (bit a.leaf_key depth)
                (split_leaves-Every P levels a b (suc depth) split ha hb) tt)
      ]
      | inr apart ↦
          let same : branch (leaf a) (leaf b) (bit a.leaf_key depth) ≡ n =
            ground (arith, e, apart) in
          subst (Every P) same (branch-Every P (leaf a) (leaf b) (bit a.leaf_key depth) ha hb)
    ]

lookup-branch :
    (first second : Node) (depth b : ℕ)
    → b < 2
    → (k : Hash)
    → lookup (branch first second b) depth k
      ≡ (if bit k depth == b then lookup first (suc depth) k else lookup second (suc depth) k)
unfolding branch lookup
lookup-branch first second depth b h k = elim (Bool-cases (b == 0)) [
  | inl zero_bit ↦ ground (arith, zero_bit, bit-lt k depth)
  | inr one_bit ↦ ground (arith, one_bit, bit-lt k depth)
]

count-branch :
    (first second : Node) (b : ℕ) → count (branch first second b) ≡ count first + count second
unfolding branch count
count-branch first second b = elim (Bool-cases (b == 0)) [
  | inl zero_bit ↦ ground (arith, zero_bit)
  | inr one_bit ↦ ground (arith, one_bit)
]

module _ (blake3 : List ℕ → Hash) where
  branch-IsTree :
      (first second : Node) (depth b c : ℕ)
      → depth < 256
      → b + c ≡ 1
      → IsTree blake3 (suc depth) first
      → IsTree blake3 (suc depth) second
      → Side b depth first
      → Side c depth second
      → 2 ≤ count first + count second
      → IsTree blake3 depth (branch first second b)
  unfolding branch
  branch-IsTree first second depth zero c d total tf ts sf ss size =
      let one : c ≡ 1 = omega arith in
      (d, ((tf, ts), ((sf, subst (λ (x : ℕ). Side x depth second) one ss), (size, inl refl))))
  branch-IsTree first second depth (suc b) c d total tf ts sf ss size =
      let none_left : c ≡ 0 = omega arith in
      let one : suc b ≡ 1 = omega arith in
      let odd : (suc b == 0) ≡ false = ground arith in
      rw odd (
        d,
        (
          (ts, tf),
          (
            (
              subst (λ (x : ℕ). Side x depth second) none_left ss,
              subst (λ (x : ℕ). Side x depth first) one sf,
            ),
            (omega arith, inl refl),
          ),
        ),
      )

  -- `splitLeaves` ends: two leaves of 32-byte keys that differ and agree on the bits before a depth
  -- part at one of the bits from there to the last. The tree it returns has the right shape and
  -- holds both.
  pub split_leaves_lem :
      (levels : ℕ) (a b : Leaf) (depth : ℕ)
      → levels + depth ≡ 256
      → IsTree blake3 depth (leaf a)
      → IsTree blake3 depth (leaf b)
      → Agree depth a.leaf_key b.leaf_key
      → a.leaf_key ≢ b.leaf_key
      → (n : Node) × (split_leaves levels a b depth ≡ some n)
        × IsTree blake3 depth n
        × (count n ≡ 2)
        × Written b.leaf_key b.leaf_value depth (leaf a) n
  unfolding split_leaves count lookup
  split_leaves_lem zero a b depth total ha hb same differ = absurd (
      differ (
        Agree-all a.leaf_key b.leaf_key ha.0 hb.0
          (subst (λ (d : ℕ). Agree d a.leaf_key b.leaf_key) (omega arith) same)))
  split_leaves_lem (suc levels) a b depth total ha hb same differ =
      let bit_a = bit a.leaf_key depth in
      elim (Bool-cases (bit a.leaf_key depth == bit b.leaf_key depth)) [
        | inl shared ↦
            let (n, split, tree, size, written) =
              split_leaves_lem levels a b (suc depth) (omega arith) ha hb
                (Agree-suc depth a.leaf_key b.leaf_key same (ground arith)) differ in
            (
              branch n empty bit_a,
              ground (arith, shared, split),
              branch-IsTree n empty depth bit_a (1 - bit_a) (omega arith)
                  (omega (arith, bit-lt a.leaf_key depth)) tree tt
                  (split_leaves-Every (λ k. bit k depth ≡ bit_a) levels a b (suc depth) split refl
                    (ground arith))
                  tt (omega arith),
              omega (arith, count-branch n empty bit_a),
              λ k. ground (
                arith,
                lookup-branch n empty depth bit_a (bit-lt a.leaf_key depth) k,
                written k,
                bytes_eq_iff a.leaf_key k,
                bytes_eq_iff b.leaf_key k,
              ),
            )
        | inr apart ↦ (
          branch (leaf a) (leaf b) bit_a,
          ground (arith, apart),
          branch-IsTree (leaf a) (leaf b) depth bit_a (bit b.leaf_key depth) (omega arith)
              (ground (arith, bit-lt a.leaf_key depth, bit-lt b.leaf_key depth)) ha hb refl refl
              (omega arith),
          count-branch (leaf a) (leaf b) bit_a,
          λ k. ground (
            arith,
            lookup-branch (leaf a) (leaf b) depth bit_a (bit-lt a.leaf_key depth) k,
            bytes_eq_iff a.leaf_key k,
            bytes_eq_iff b.leaf_key k,
          ),
        )
      ]
