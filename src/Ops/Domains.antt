-- ===== src/Ops/Domains.antt =====
-- Domain operations: each accepted one writes or removes the leaf of its name, which is free or the
-- sender's, and its application writes the same leaf.
use blue_pods.Prelude.{
  ℕ, ◌≡◌, refl, ◌∙◌, ap, List, none, some, true, ◌==◌, if◌then◌else◌, bytes_eq, bytes_eq_iff, arith,
  Bool-cases, Option-cases, inl, inr, ◌⊎◌, length, subst,
}
use blue_pods.Types.{
  Hash, DeclaredOp, domain_register_op, domain_renew_op, domain_update_op, domain_transfer_op,
  domain_delete_op,
}
use blue_pods.Registry.{
  Name, Registry, DomainLeafView, domain_leaf, domain_expiry, valid_domain_name,
}
use blue_pods.Registry.Leaves.{IsLeaf, IsRegistry}
use blue_pods.Registry.Leases.{domain_expiry-lt}
use blue_pods.Staged.{
  StagedView, staged_domain, stage_domain, owned_domain, controlled_object, staged_controls, hash32,
  zero_leaf, validate_domain_register, validate_domain_renew, validate_domain_update,
  validate_domain_transfer, validate_domain_delete, validate_domain_op,
}
use blue_pods.Ops.{
  OpsState, write_domain_leaf, apply_domain_register, apply_domain_renew, apply_domain_update,
  apply_domain_transfer, apply_domain_delete, apply_domain_op,
}
use blue_pods.Ops.Edges.{hash32_lem, to_hash-wide}

-- The name is free, or the sender owns it.
abbrev pub HasRight : Registry → Hash → Name → StagedView → Type 0
HasRight ds sender name s =
    (staged_domain ds name s ≡ none)
    ⊎ ((old : DomainLeafView) × (staged_domain ds name s ≡ some old) × (old.owner ≡ sender))

owned_domain_lem :
    (ds : Registry) (sender : Hash) (name : Name) (s : StagedView) {leaf : DomainLeafView}
    → owned_domain ds sender name s ≡ some leaf
    → (staged_domain ds name s ≡ some leaf) × (leaf.owner ≡ sender)
unfolding owned_domain
owned_domain_lem ds sender name s {leaf} e = elim (Option-cases (staged_domain ds name s)) [
  | inl free ↦ absurd (ground (arith, e, free))
  | inr (old, found) ↦
      let same : old ≡ leaf = ground (arith, e, found) in
      let mine : old.owner ≡ sender = ground (arith, e, found, bytes_eq_iff old.owner sender) in
      (found ∙ ap some same, subst (λ (l : DomainLeafView). l.owner ≡ sender) same mine)
]

controlled_object_lem :
    (sender : Hash) (object_id : List ℕ) (s : StagedView) {id : Hash}
    → controlled_object sender object_id s ≡ some id
    → (object_id ≡ id) × (length object_id ≡ 32) × (staged_controls sender id s ≡ true)
unfolding controlled_object
controlled_object_lem sender object_id s {id} e = elim (Option-cases (hash32 object_id)) [
  | inl short ↦ absurd (ground (arith, e, short))
  | inr (h, wide) ↦
      let (is, size) = hash32_lem object_id wide in
      let same : h ≡ id = ground (arith, e, wide) in
      let held : staged_controls sender h s ≡ true = ground (arith, e, wide) in
      (is ∙ same, size, subst (λ (x : Hash). staged_controls sender x s ≡ true) same held)
]

-- An operation that writes a leaf, with what its application does on a registry.
pub record Written (sender : Hash) (op : DeclaredOp) (ds : Registry) (s s' : StagedView)
    (effect : Registry → OpsState → OpsState) : Type 0 where
  pub leaf : DomainLeafView
  pub right : HasRight ds sender op.name s
  pub staged : stage_domain op.name leaf s ≡ s'
  pub fits :
      (r : Registry)
      → IsRegistry r
      → domain_leaf op.name r ≡ staged_domain ds op.name s
      → length sender ≡ 32
      → IsLeaf leaf
  pub applied :
      (r : Registry) (st : OpsState)
      → domain_leaf op.name r ≡ staged_domain ds op.name s
      → effect r st ≡ write_domain_leaf op.name leaf r st

module _ (ds : Registry) (sender : Hash) (op : DeclaredOp) (s s' : StagedView) where
  register_lem :
      validate_domain_register ds sender op s ≡ some s'
      → Written sender op ds s s' (apply_domain_register sender s.epoch s.max_term op)
        × (valid_domain_name op.name ≡ true)
  unfolding validate_domain_register apply_domain_register
  register_lem e = elim (Option-cases (staged_domain ds op.name s)) [
    | inr (old, taken) ↦ absurd (ground (arith, e, taken))
    | inl free ↦ elim (Option-cases (controlled_object sender op.object_id s)) [
      | inl refused ↦ absurd (ground (arith, e, free, refused))
      | inr (id, held) ↦ elim (Option-cases (domain_expiry 0 s.epoch op.term_epochs s.max_term)) [
        | inl long ↦ absurd (ground (arith, e, free, held, long))
        | inr (expiry, term) ↦
            let (is, size, control) = controlled_object_lem sender op.object_id s held in
            let made : stage_domain op.name
                  (record { object_id = id; owner = sender; expiry = expiry }) s
                ≡ s' =
              ground (arith, e, free, held, term) in
            (
              record {
                leaf = record { object_id = id; owner = sender; expiry = expiry };
                right = inl free;
                staged = made;
                fits = λ r wf same wide. record {
                  object_wide = subst (λ (x : Hash). length x ≡ 32) is size;
                  owner_wide = wide;
                  in_range = domain_expiry-lt 0 s.epoch op.term_epochs s.max_term term;
                };
                applied = λ r st same.
                    rw (apply_domain_register, term, to_hash-wide op.object_id size, is) refl;
              },
              ground (arith, e),
            )
      ]
    ]
  ]

  renew_lem :
      validate_domain_renew ds sender op s ≡ some s'
      → Written sender op ds s s' (apply_domain_renew s.epoch s.max_term op)
  unfolding validate_domain_renew apply_domain_renew
  renew_lem e = elim (Option-cases (owned_domain ds sender op.name s)) [
    | inl refused ↦ absurd (ground (arith, e, refused))
    | inr (old, owned) ↦
        elim (Option-cases (domain_expiry old.expiry s.epoch op.term_epochs s.max_term)) [
          | inl long ↦ absurd (ground (arith, e, owned, long))
          | inr (expiry, term) ↦
              let (found, mine) = owned_domain_lem ds sender op.name s owned in
              record {
                leaf = record old { expiry = expiry };
                right = inr (old, found, mine);
                staged = ground (arith, e, owned, term);
                fits = λ r wf same wide.
                    let h = wf op.name old (same ∙ found) in
                    record {
                      object_wide = h.object_wide;
                      owner_wide = h.owner_wide;
                      in_range = domain_expiry-lt old.expiry s.epoch op.term_epochs s.max_term term;
                    };
                applied = λ r st same.
                    let there = same ∙ found in rw (apply_domain_renew, there, term) refl;
              }
        ]
  ]

  update_lem :
      validate_domain_update ds sender op s ≡ some s'
      → Written sender op ds s s' (apply_domain_update op)
  unfolding validate_domain_update apply_domain_update
  update_lem e = elim (Option-cases (owned_domain ds sender op.name s)) [
    | inl refused ↦ absurd (ground (arith, e, refused))
    | inr (old, owned) ↦ elim (Option-cases (controlled_object sender op.object_id s)) [
      | inl short ↦ absurd (ground (arith, e, owned, short))
      | inr (id, held) ↦
          let (found, mine) = owned_domain_lem ds sender op.name s owned in
          let (is, size, control) = controlled_object_lem sender op.object_id s held in
          record {
            leaf = record old { object_id = id };
            right = inr (old, found, mine);
            staged = ground (arith, e, owned, held);
            fits = λ r wf same wide.
                let h = wf op.name old (same ∙ found) in
                record {
                  object_wide = subst (λ (x : Hash). length x ≡ 32) is size;
                  owner_wide = h.owner_wide;
                  in_range = h.in_range;
                };
            applied = λ r st same.
                let there = same ∙ found in
                rw (apply_domain_update, there, to_hash-wide op.object_id size, is) refl;
          }
    ]
  ]

  transfer_lem :
      validate_domain_transfer ds sender op s ≡ some s'
      → Written sender op ds s s' (apply_domain_transfer op)
  unfolding validate_domain_transfer apply_domain_transfer
  transfer_lem e = elim (Option-cases (owned_domain ds sender op.name s)) [
    | inl refused ↦ absurd (ground (arith, e, refused))
    | inr (old, owned) ↦ elim (Option-cases (hash32 op.target)) [
      | inl short ↦ absurd (ground (arith, e, owned, short))
      | inr (owner, wide_target) ↦
          let (found, mine) = owned_domain_lem ds sender op.name s owned in
          let (is, size) = hash32_lem op.target wide_target in
          record {
            leaf = record old { owner = owner };
            right = inr (old, found, mine);
            staged = ground (arith, e, owned, wide_target);
            fits = λ r wf same wide.
                let h = wf op.name old (same ∙ found) in
                record {
                  object_wide = h.object_wide;
                  owner_wide = subst (λ (x : Hash). length x ≡ 32) is size;
                  in_range = h.in_range;
                };
            applied = λ r st same.
                let there = same ∙ found in
                rw (apply_domain_transfer, there, to_hash-wide op.target size, is) refl;
          }
    ]
  ]

  -- An operation that removes a leaf.
  abbrev pub removed_view : StagedView
  removed_view = record s {
    domains = λ k. if bytes_eq op.name k then some zero_leaf else s.domains k;
    domain_removed = λ k. if bytes_eq op.name k then true else s.domain_removed k;
  }

  delete_lem :
      validate_domain_delete ds sender op s ≡ some s'
      → HasRight ds sender op.name s × (removed_view ≡ s')
  unfolding validate_domain_delete
  delete_lem e = elim (Option-cases (owned_domain ds sender op.name s)) [
    | inl refused ↦ absurd (ground (arith, e, refused))
    | inr (old, owned) ↦
        let (found, mine) = owned_domain_lem ds sender op.name s owned in
        (inr (old, found, mine), ground (arith, e, owned))
  ]

-- An accepted domain operation: the registry is wired, and one leaf is written or removed.
abbrev pub DomainStep : Hash → DeclaredOp → StagedView → StagedView → Type 0
DomainStep sender op s s' =
    (ds : Registry) × (s.ds ≡ some ds)
    × ((effect : Registry → OpsState → OpsState) × ((r : Registry) (st : OpsState)
          → st.domains ≡ some r
          → apply_domain_op sender s.epoch s.max_term op st ≡ some (effect r st))
        × (Written sender op ds s s' effect
            ⊎ (HasRight ds sender op.name s
                × ((removed_view ds sender op s s' ≡ s') × (effect ≡ apply_domain_delete op)))))

pub validate_domain_op_lem :
    (sender : Hash) (op : DeclaredOp) (s s' : StagedView)
    → validate_domain_op sender op s ≡ some s'
    → DomainStep sender op s s'
unfolding validate_domain_op apply_domain_op
validate_domain_op_lem sender op s s' e = elim (Option-cases s.ds) [
  | inl off ↦ absurd (ground (arith, e, off))
  | inr (ds, on) ↦ elim (Bool-cases (op.kind == domain_register_op)) [
    | inl k2 ↦ (
      ds,
      on,
      (
        apply_domain_register sender s.epoch s.max_term op,
        λ r st w. ground (arith, k2, w),
        inl (register_lem ds sender op s s' (ground (arith, e, on, k2))).0,
      ),
    )
    | inr n2 ↦ elim (Bool-cases (op.kind == domain_renew_op)) [
      | inl k3 ↦ (
        ds,
        on,
        (
          apply_domain_renew s.epoch s.max_term op,
          λ r st w. ground (arith, k3, w),
          inl (renew_lem ds sender op s s' (ground (arith, e, on, k3))),
        ),
      )
      | inr n3 ↦ elim (Bool-cases (op.kind == domain_update_op)) [
        | inl k4 ↦ (
          ds,
          on,
          (
            apply_domain_update op,
            λ r st w. ground (arith, k4, w),
            inl (update_lem ds sender op s s' (ground (arith, e, on, k4))),
          ),
        )
        | inr n4 ↦ elim (Bool-cases (op.kind == domain_transfer_op)) [
          | inl k5 ↦ (
            ds,
            on,
            (
              apply_domain_transfer op,
              λ r st w. ground (arith, k5, w),
              inl (transfer_lem ds sender op s s' (ground (arith, e, on, k5))),
            ),
          )
          | inr n5 ↦ elim (Bool-cases (op.kind == domain_delete_op)) [
            | inl k6 ↦
                let (right, made) = delete_lem ds sender op s s' (ground (arith, e, on, k6)) in
                (
                  ds,
                  on,
                  (
                    apply_domain_delete op,
                    λ r st w. ground (arith, k6, w),
                    inr (right, (made, refl)),
                  ),
                )
            | inr n6 ↦ absurd (ground (arith, e, on, n2, n3, n4, n5, n6))
          ]
        ]
      ]
    ]
  ]
]
