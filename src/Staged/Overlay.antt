-- ===== src/Staged/Overlay.antt =====
-- What staging does to the two overlays: the parent edges and the leaves of names.
use blue_pods.Prelude.{
  ℕ, ◌≡◌, refl, ◌∙◌, ap, none, some, true, false, ◌==◌, if◌then◌else◌, bytes_eq, bytes_eq_iff,
  arith, Bool-cases, Option-cases, inl, inr,
}
use blue_pods.Types.{Hash}
use blue_pods.Tracker.{object_parent_kind, minus_one, plus_one}
use blue_pods.Registry.{Name, Registry, DomainLeafView}
use blue_pods.Staged.{
  StagedView, staged_parent, release_parent, stage_reparent, stage_delete, staged_domain,
  stage_domain, add_delta,
}

release_parent_lem :
    (id : Hash) (s : StagedView)
    → (f : Hash → ℕ) × (release_parent id s ≡ record s { child_delta = f })
unfolding release_parent
release_parent_lem id s = elim (Option-cases (staged_parent id s)) [
  | inl absent ↦ (s.child_delta, rw (release_parent, absent) refl)
  | inr ((kind, parent), edge) ↦ elim (Bool-cases (kind == object_parent_kind)) [
    | inl inner ↦
        ((add_delta parent minus_one s).child_delta, rw (release_parent, edge, inner) refl)
    | inr root ↦ (s.child_delta, rw (release_parent, edge, root) refl)
  ]
]

-- Staging an edge writes one edge of the overlay; beside it only child counts change.
pub stage_reparent_lem :
    (id : Hash) (kind : ℕ) (parent : Hash) (s : StagedView)
    → (f : Hash → ℕ) × (stage_reparent id kind parent s ≡ record s {
      parents = λ k. if bytes_eq id k then some (kind, parent) else s.parents k;
      child_delta = f;
    })
unfolding stage_reparent
stage_reparent_lem id kind parent s =
    let (f, released) = release_parent_lem id s in
    let moved : StagedView = record s {
      parents = λ k. if bytes_eq id k then some (kind, parent) else s.parents k;
      child_delta = f;
    } in
    elim (Bool-cases (kind == object_parent_kind)) [
      | inl inner ↦
          ((add_delta parent plus_one moved).child_delta, rw (stage_reparent, released, inner) refl)
      | inr root ↦ (f, rw (stage_reparent, released, root) refl)
    ]

pub stage_delete_lem :
    (id : Hash) (s : StagedView)
    → (f : Hash → ℕ) × (stage_delete id s
        ≡ record s { deleted = λ k. if bytes_eq id k then true else s.deleted k; child_delta = f })
unfolding stage_delete
stage_delete_lem id s =
    let (f, released) = release_parent_lem id s in (f, rw (stage_delete, released) refl)

-- An object that has an edge gets the new one, and the others keep theirs.
pub staged_parent-stage_reparent :
    (id : Hash) (kind : ℕ) (parent : Hash) (s : StagedView)
    → s.deleted id ≡ false
    → (k : Hash)
    → staged_parent k (stage_reparent id kind parent s)
      ≡ (if bytes_eq id k then some (kind, parent) else staged_parent k s)
unfolding staged_parent
staged_parent-stage_reparent id kind parent s alive k =
    let (f, staged) = stage_reparent_lem id kind parent s in
    ap (staged_parent k) staged ∙ ground (arith, alive, bytes_eq_iff id k)

pub staged_parent-stage_delete :
    (id : Hash) (s : StagedView) (k : Hash)
    → staged_parent k (stage_delete id s) ≡ (if bytes_eq id k then none else staged_parent k s)
unfolding staged_parent
staged_parent-stage_delete id s k =
    let (f, staged) = stage_delete_lem id s in ap (staged_parent k) staged ∙ ground arith

pub staged_domain-stage_domain :
    (ds : Registry) (name : Name) (leaf : DomainLeafView) (s : StagedView) (k : Name)
    → staged_domain ds k (stage_domain name leaf s)
      ≡ (if bytes_eq name k then some leaf else staged_domain ds k s)
unfolding staged_domain stage_domain
staged_domain-stage_domain ds name leaf s k = ground arith
