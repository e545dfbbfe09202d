-- ===== src/Registry/Leaves.antt =====
-- Stored leaves read back: a registry is a finite map from names to leaves.
use blue_pods.Prelude.{
  ◌^◌, ◌<◌, ◌≡◌, refl, ap, sym, ◌∙◌, ◌++◌, none, some, if◌then◌else◌, length, drop, bytes_eq,
  bytes_eq_iff, arith, length-append, take-append, drop-append, drop-drop, Bool-cases, inl, inr,
  subst,
}
use blue_pods.Bytes.{be_bytes, be_num-be_bytes, length-be_bytes}
use blue_pods.Registry.{
  Name, Registry, DomainEntry, DomainLeafView, encode_domain_value, decode_domain_value, get, set,
  delete, domain_leaf, set_domain_leaf,
}

-- What a leaf of fixed-width fields is.
pub record IsLeaf (leaf : DomainLeafView) : Type 0 where
  pub object_wide : length leaf.object_id ≡ 32
  pub owner_wide : length leaf.owner ≡ 32
  pub in_range : leaf.expiry < 2 ^ 64

abbrev pub IsRegistry : Registry → Type 0
IsRegistry r = (k : Name) (leaf : DomainLeafView) → domain_leaf k r ≡ some leaf → IsLeaf leaf

-- A stored leaf is decoded to what was encoded.
pub decode_domain_value-encode_domain_value :
    (entry : DomainEntry)
    → length entry.object_id ≡ 32
    → length entry.owner ≡ 32
    → entry.expiry_epoch < 2 ^ 64
    → decode_domain_value entry.name (encode_domain_value entry) ≡ some entry
unfolding decode_domain_value encode_domain_value
decode_domain_value-encode_domain_value entry ho hw hx =
    let last = be_bytes 8 entry.expiry_epoch in
    let rest = entry.owner ++ last in
    let size : length (entry.object_id ++ rest) ≡ 72 = omega (
      arith,
      length-append entry.object_id rest,
      length-append entry.owner last,
      length-be_bytes 8 entry.expiry_epoch,
    ) in
    let deep : drop 64 (entry.object_id ++ rest) ≡ last =
      sym (drop-drop 32 32 (entry.object_id ++ rest))
      ∙ ap (drop 32) (drop-append entry.object_id rest 32 ho)
      ∙ drop-append entry.owner last 32 hw in
    rw
      (
        size,
        take-append entry.object_id rest 32 ho,
        drop-append entry.object_id rest 32 ho,
        take-append entry.owner last 32 hw,
        deep,
        be_num-be_bytes 8 entry.expiry_epoch hx,
      )
      refl

pub domain_leaf-set_domain_leaf :
    (name : Name) (leaf : DomainLeafView) (r : Registry)
    → IsLeaf leaf
    → (k : Name)
    → domain_leaf k (set_domain_leaf name leaf r)
      ≡ (if bytes_eq name k then some leaf else domain_leaf k r)
unfolding domain_leaf set_domain_leaf set get
domain_leaf-set_domain_leaf name leaf r h k =
    let entry : DomainEntry = record {
      name = name;
      object_id = leaf.object_id;
      owner = leaf.owner;
      expiry_epoch = leaf.expiry;
    } in
    let read =
      decode_domain_value-encode_domain_value entry h.object_wide h.owner_wide h.in_range in
    elim (Bool-cases (bytes_eq name k)) [
      | inl same ↦
          let here : name ≡ k = (bytes_eq_iff name k).0 same in rw (same, sym here, read) refl
      | inr other ↦ rw other refl
    ]

pub domain_leaf-delete :
    (name : Name) (r : Registry) (k : Name)
    → domain_leaf k (delete name r) ≡ (if bytes_eq name k then none else domain_leaf k r)
unfolding domain_leaf delete get
domain_leaf-delete name r k = ground arith

pub set_domain_leaf-IsRegistry :
    (name : Name) (leaf : DomainLeafView) (r : Registry)
    → IsLeaf leaf
    → IsRegistry r
    → IsRegistry (set_domain_leaf name leaf r)
set_domain_leaf-IsRegistry name leaf r h wf k found e = elim (Bool-cases (bytes_eq name k)) [
  | inl same ↦
      let here : leaf ≡ found =
        ground (arith, e, same, domain_leaf-set_domain_leaf name leaf r h k) in
      subst IsLeaf here h
  | inr other ↦ wf k found (ground (arith, e, other, domain_leaf-set_domain_leaf name leaf r h k))
]

pub delete-IsRegistry : (name : Name) (r : Registry) → IsRegistry r → IsRegistry (delete name r)
delete-IsRegistry name r wf k found e = elim (Bool-cases (bytes_eq name k)) [
  | inl same ↦ absurd (ground (arith, e, same, domain_leaf-delete name r k))
  | inr other ↦ wf k found (ground (arith, e, other, domain_leaf-delete name r k))
]
