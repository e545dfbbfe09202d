-- ===== src/Smt/Wire.antt =====
-- The wire format of a proof: decoding returns what was encoded, and only encodings decode.
use mathlib.Core.List.{append_assoc}
use blue_pods.Prelude.{
  ℕ, zero, suc, ◌%◌, ◌^◌, ◌≤◌, ◌<◌, ◌≡◌, refl, sym, ◌∙◌, ap, false, ◌==◌, ltb, List, [], ◌∷◌, ◌++◌,
  arith, length, length-append, length-take, length-drop, Bool-cases, Option-cases, inl, inr, some,
  take-drop, take, drop, take-append, drop-append, subst,
}
use blue_pods.Types.{Hash}
use blue_pods.Bytes.{be_bytes, be_num, be_num-be_bytes, length-be_bytes, be_bytes-be_num}
use blue_pods.Coins.Store.{AreBytes, take-AreBytes, drop-AreBytes}
use blue_pods.Smt.Descending.{AreWide}
use blue_pods.Smt.Proofs.{
  Proof, serialize, deserialize_proof, concat_hashes, read_hashes, read_siblings, read_leaf,
}

read_hashes-concat_hashes :
    (ss : List Hash) (rest : List ℕ)
    → AreWide ss
    → read_hashes (length ss) (concat_hashes ss ++ rest) ≡ some (ss, rest)
unfolding read_hashes concat_hashes
read_hashes-concat_hashes [] rest wide = refl
read_hashes-concat_hashes (s ∷ ss) rest wide =
    let tail = concat_hashes ss ++ rest in
    let whole : (s ++ concat_hashes ss) ++ rest ≡ s ++ tail =
      append_assoc s (concat_hashes ss) rest in
    let long : ltb (length (s ++ tail)) 32 ≡ false = ground (arith, length-append s tail, wide.0) in
    rw
      (
        whole,
        long,
        take-append s tail 32 wide.0,
        drop-append s tail 32 wide.0,
        read_hashes-concat_hashes ss rest wide.1,
      )
      refl

module _ (count : ℕ) (tail : List ℕ) (small : count < 2 ^ 32) where
  abbrev field : List ℕ
  field = be_bytes 4 count ++ tail

  field_size : ltb (length field) 4 ≡ false
  field_size = ground (arith, length-append (be_bytes 4 count) tail, length-be_bytes 4 count)

  field_value : be_num (take 4 field) ≡ count
  field_value =
      ap be_num (take-append (be_bytes 4 count) tail 4 (length-be_bytes 4 count))
      ∙ be_num-be_bytes 4 count small

  field_tail : drop 4 field ≡ tail
  field_tail = drop-append (be_bytes 4 count) tail 4 (length-be_bytes 4 count)

read_leaf_field :
    (bytes : List ℕ)
    → length bytes < 2 ^ 32
    → read_leaf (be_bytes 4 (length bytes) ++ bytes) ≡ some bytes
unfolding read_leaf
read_leaf_field bytes small =
    rw
      (
        field_size (length bytes) bytes small,
        field_tail (length bytes) bytes small,
        field_value (length bytes) bytes small,
      )
      (ground arith)

read_siblings_field :
    (ss : List Hash) (rest : List ℕ)
    → AreWide ss
    → length ss ≤ 256
    → read_siblings (be_bytes 4 (length ss) ++ (concat_hashes ss ++ rest)) ≡ some (ss, rest)
unfolding read_siblings
read_siblings_field ss rest wide few =
    let tail = concat_hashes ss ++ rest in
    let small : length ss < 2 ^ 32 = omega arith in
    let allowed : ltb 256 (length ss) ≡ false = ground arith in
    rw
      (
        field_size (length ss) tail small,
        field_tail (length ss) tail small,
        field_value (length ss) tail small,
        allowed,
      )
      (read_hashes-concat_hashes ss rest wide)

-- A proof of at most 256 siblings of 32 bytes and an occupant of less than 2^32 bytes is decoded
-- from its encoding.
deserialize_proof-serialize :
    (p : Proof)
    → AreWide p.siblings
    → length p.siblings ≤ 256
    → length p.occupant < 2 ^ 32
    → deserialize_proof (serialize p) ≡ some p
unfolding deserialize_proof serialize
deserialize_proof-serialize p wide few small =
    let few_mod : length p.siblings % 2 ^ 32 ≡ length p.siblings = omega arith in
    let small_mod : length p.occupant % 2 ^ 32 ≡ length p.occupant = omega arith in
    rw
      (
        few_mod,
        small_mod,
        read_siblings_field p.siblings (be_bytes 4 (length p.occupant) ++ p.occupant) wide few,
        read_leaf_field p.occupant small,
      )
      refl

read_hashes_whole :
    (n : ℕ) (bytes : List ℕ) (ss : List Hash) (rest : List ℕ)
    → read_hashes n bytes ≡ some (ss, rest)
    → (concat_hashes ss ++ rest ≡ bytes) × (length ss ≡ n) × (AreBytes bytes → AreBytes rest)
unfolding read_hashes concat_hashes
read_hashes_whole zero bytes ss rest e =
    let none_read : [] ≡ ss = cc in
    let all_left : bytes ≡ rest = cc in
    (
      subst (λ (x : List Hash). concat_hashes x ++ rest ≡ bytes) none_read (sym all_left),
      ap length (sym none_read),
      subst AreBytes all_left,
    )
read_hashes_whole (suc n) bytes ss rest e = elim (Bool-cases (ltb (length bytes) 32)) [
  | inl short ↦ absurd (ground (arith, e, short))
  | inr long ↦ elim (Option-cases (read_hashes n (drop 32 bytes))) [
    | inl failed ↦ absurd (ground (arith, e, long, failed))
    | inr ((ss', rest'), step) ↦
        let (whole, size, kept) = read_hashes_whole n (drop 32 bytes) ss' rest' step in
        let first : take 32 bytes ∷ ss' ≡ ss = ground (arith, e, long, step) in
        let left : rest' ≡ rest = ground (arith, e, long, step) in
        let parts : (take 32 bytes ++ concat_hashes ss') ++ rest' ≡ bytes =
          append_assoc (take 32 bytes) (concat_hashes ss') rest'
          ∙ ap (λ (x : List ℕ). take 32 bytes ++ x) whole
          ∙ take-drop 32 bytes in
        (
          subst (λ (x : List Hash). concat_hashes x ++ rest ≡ bytes) first
              (subst (λ (x : List ℕ). concat_hashes (take 32 bytes ∷ ss') ++ x ≡ bytes) left parts),
          ap length (sym first) ∙ ap suc size,
          λ h. subst AreBytes left (kept (drop-AreBytes 32 bytes h)),
        )
  ]
]

field_whole :
    (bytes : List ℕ)
    → AreBytes bytes
    → ltb (length bytes) 4 ≡ false
    → be_bytes 4 (be_num (take 4 bytes)) ++ drop 4 bytes ≡ bytes
field_whole bytes h long =
    let size : length (take 4 bytes) ≡ 4 = length-take 4 bytes (ground arith) in
    let back = be_bytes-be_num (take 4 bytes) (take-AreBytes 4 bytes h) in
    ap (λ (n : ℕ). be_bytes n (be_num (take 4 bytes)) ++ drop 4 bytes) (sym size)
    ∙ ap (λ (x : List ℕ). x ++ drop 4 bytes) back
    ∙ take-drop 4 bytes

read_siblings_whole :
    (bytes : List ℕ) (ss : List Hash) (rest : List ℕ)
    → AreBytes bytes
    → read_siblings bytes ≡ some (ss, rest)
    → (be_bytes 4 (length ss % 2 ^ 32) ++ (concat_hashes ss ++ rest) ≡ bytes) × AreBytes rest
unfolding read_siblings
read_siblings_whole bytes ss rest h e = elim (Bool-cases (ltb (length bytes) 4)) [
  | inl short ↦ absurd (ground (arith, e, short))
  | inr long ↦ elim (Bool-cases (ltb 256 (be_num (take 4 bytes)))) [
    | inl many ↦ absurd (ground (arith, e, long, many))
    | inr few ↦
        let step : read_hashes (be_num (take 4 bytes)) (drop 4 bytes) ≡ some (ss, rest) =
          ground (arith, e, long, few) in
        let (whole, size, kept) =
          read_hashes_whole (be_num (take 4 bytes)) (drop 4 bytes) ss rest step in
        let count : length ss % 2 ^ 32 ≡ be_num (take 4 bytes) = ground (arith, size, few) in
        (rw (count, whole) (field_whole bytes h long), kept (drop-AreBytes 4 bytes h))
  ]
]

no_elements : (xs : List ℕ) → length xs ≡ 0 → xs ≡ []
no_elements [] e = refl
no_elements (x ∷ xs) e = absurd (omega (arith, e))

-- Below 2^32 bytes, the length field tells the length.
read_leaf_all :
    (bytes occupant : List ℕ)
    → length bytes < 2 ^ 32
    → read_leaf bytes ≡ some occupant
    → (ltb (length bytes) 4 ≡ false)
      × (drop 4 bytes ≡ occupant)
      × (length (drop 4 bytes) % 2 ^ 32 ≡ be_num (take 4 bytes))
unfolding read_leaf
read_leaf_all bytes occupant small e = elim (Bool-cases (ltb (length bytes) 4)) [
  | inl short ↦ absurd (ground (arith, e, short))
  | inr long ↦ elim (Bool-cases (length (drop 4 bytes) % 2 ^ 32 == be_num (take 4 bytes))) [
    | inr differ ↦ absurd (ground (arith, e, long, differ))
    | inl same ↦
        let count : length (drop 4 bytes) % 2 ^ 32 ≡ be_num (take 4 bytes) = ground (arith, same) in
        elim (Bool-cases (be_num (take 4 bytes) == 0)) [
          | inr some_bytes ↦ (long, ground (arith, e, long, same, some_bytes), count)
          | inl no_bytes ↦
              let size = length-drop 4 bytes in
              let gone =
                no_elements (drop 4 bytes) (ground (arith, count, no_bytes, size, small)) in
              let empty : [] ≡ occupant = ground (arith, e, long, same, no_bytes) in
              (long, gone ∙ empty, count)
        ]
  ]
]

read_leaf_whole :
    (bytes occupant : List ℕ)
    → AreBytes bytes
    → length bytes < 2 ^ 32
    → read_leaf bytes ≡ some occupant
    → be_bytes 4 (length occupant % 2 ^ 32) ++ occupant ≡ bytes
read_leaf_whole bytes occupant h small e =
    let (long, all, count) = read_leaf_all bytes occupant small e in
    subst (λ (x : List ℕ). be_bytes 4 (length x % 2 ^ 32) ++ x ≡ bytes) all
      (rw count (field_whole bytes h long))

-- Of an input below 2^32 bytes, what decodes is an encoding: the bytes that `DeserializeProof` accepts
-- are those that `Serialize` makes of the proof it returns, so that a proof has one such encoding.
pub serialize-deserialize_proof :
    (bytes : List ℕ) (p : Proof)
    → AreBytes bytes
    → length bytes < 2 ^ 32
    → deserialize_proof bytes ≡ some p
    → serialize p ≡ bytes
unfolding deserialize_proof serialize
serialize-deserialize_proof bytes p h small e = elim (Option-cases (read_siblings bytes)) [
  | inl failed ↦ absurd (ground (arith, e, failed))
  | inr ((ss, rest), step) ↦
      let (whole, rest_bytes) = read_siblings_whole bytes ss rest h step in
      let rest_small : length rest < 2 ^ 32 = omega (
        arith,
        small,
        ap length whole,
        length-append (be_bytes 4 (length ss % 2 ^ 32)) (concat_hashes ss ++ rest),
        length-append (concat_hashes ss) rest,
      ) in
      elim (Option-cases (read_leaf rest)) [
        | inl failed ↦ absurd (ground (arith, e, step, failed))
        | inr (occupant, last) ↦
            let made : record { siblings = ss; occupant = occupant } ≡ p =
              ground (arith, e, step, last) in
            subst (λ (x : Proof). serialize x ≡ bytes) made
              (ap (λ (x : List ℕ). be_bytes 4 (length ss % 2 ^ 32) ++ (concat_hashes ss ++ x))
                  (read_leaf_whole rest occupant rest_bytes rest_small last)
                ∙ whole)
      ]
]
