-- ===== src/Validators/Index.antt =====
-- The slice and the index of a validator set agree, and no operation panics.
use blue_pods.Prelude.{
  ℕ, ◌-◌, ◌≡◌, Bool, true, false, List, [], ◌∷◌, ◌++◌, Option, none, some, arith, if◌then◌else◌,
  length, get_elem?, set, take, bytes_eq, bytes_eq_iff, get_elem?-lt, get_elem?-set, get_elem?-take,
  get_elem?-snoc, get_elem?-none, Option-cases, inl, inr, map, map-set, get_elem?-map,
  get_elem?-map_inv, set_self, ◌↔◌, ◌≢◌, ◌∙◌, ap,
}
use mathlib.Core.Option
use blue_pods.Types.{Hash}
use blue_pods.Validators.{
  ValidatorInfo, ValidatorSet, put_index, delete_index, modify_at, update, get, has,
}

abbrev pub keys : ValidatorSet → List Hash
keys vs = map (λ v. v.pubkey) vs.validators

-- The index holds exactly the positions of the slice's keys.
abbrev pub Agrees : (Hash → Option ℕ) → List Hash → Type 0
Agrees index ks = (k : Hash) (i : ℕ) → (index k ≡ some i) ↔ (get_elem? ks i ≡ some k)

pub record IsIndexed (vs : ValidatorSet) : Type 0 where
  pub at : Agrees vs.index (keys vs)

pub Agrees-snoc :
    (index : Hash → Option ℕ) (ks : List Hash) (a : Hash)
    → Agrees index ks
    → index a ≡ none
    → Agrees (put_index a (length ks) index) (ks ++ a ∷ [])
Agrees-snoc index ks a v fresh k i =
    ground (arith, bytes_eq_iff a k, get_elem?-snoc ks a i, v k i, v a i, get_elem?-none ks i)

-- The index after the swap and the deletion that Remove makes.
pub Agrees-remove :
    (index : Hash → Option ℕ) (ks : List Hash) (a moved : Hash) (idx last : ℕ)
    → Agrees index ks
    → last ≡ length ks - 1
    → index a ≡ some idx
    → get_elem? ks last ≡ some moved
    → idx ≢ last
    → Agrees (delete_index a (put_index moved idx index)) (take last (set ks idx moved))
Agrees-remove index ks a moved idx last v el ea em ne k i = ground (
  arith,
  bytes_eq_iff a k,
  bytes_eq_iff moved k,
  get_elem?-take last (set ks idx moved) i,
  get_elem?-set ks idx i moved,
  v k i,
  v k idx,
  v a idx,
  v a i,
  v moved i,
  v moved last,
  v k last,
  v a last,
  get_elem?-lt ks i {a = k},
  get_elem?-lt ks idx {a = a},
)

pub Agrees-remove_last :
    (index : Hash → Option ℕ) (ks : List Hash) (a : Hash)
    → Agrees index ks
    → index a ≡ some (length ks - 1)
    → Agrees (delete_index a index) (take (length ks - 1) ks)
Agrees-remove_last index ks a v ea k i = ground (
  arith,
  bytes_eq_iff a k,
  get_elem?-take (length ks - 1) ks i,
  v k i,
  v a i,
  v a (length ks - 1),
  v k (length ks - 1),
  get_elem?-lt ks i {a = k},
)

-- What a key stands for, read through the index; it is what `Get` returns.
abbrev pub view : ValidatorSet → Hash → Option ValidatorInfo
view vs k = elim (vs.index k) [ none ↦ none | some i ↦ get_elem? vs.validators i ]

module _ (vs : ValidatorSet) (v : IsIndexed vs) where
  pub info_at :
      (k : Hash) (i : ℕ)
      → vs.index k ≡ some i
      → (info : ValidatorInfo) × (get_elem? vs.validators i ≡ some info) × (info.pubkey ≡ k)
  info_at k i e =
      get_elem?-map_inv (λ (x : ValidatorInfo). x.pubkey) vs.validators i ((v.at k i).0 e)

  -- Get never panics: it returns the info of a member and nil for any other key.
  pub get-eq-view : (k : Hash) → get k vs ≡ some (view vs k)
  unfolding get
  get-eq-view k = elim (Option-cases (vs.index k)) [
    | inl e ↦ ground arith
    | inr (i, e) ↦ let (info, h, _) = info_at k i e in ground (arith, h)
  ]

  modify_keys :
      (f : ValidatorInfo → ValidatorInfo) (idx : ℕ) (info : ValidatorInfo)
      → get_elem? vs.validators idx ≡ some info
      → (f info).pubkey ≡ info.pubkey
      → map (λ (x : ValidatorInfo). x.pubkey) (set vs.validators idx (f info)) ≡ keys vs
  modify_keys f idx info h e =
      map-set (λ (x : ValidatorInfo). x.pubkey) vs.validators idx (f info)
      ∙ ap (set (keys vs) idx) e
      ∙ set_self (keys vs) idx info.pubkey
          (get_elem?-map (λ (x : ValidatorInfo). x.pubkey) vs.validators idx h)

  pub modify_at_lem :
      (f : ValidatorInfo → ValidatorInfo) (k : Hash) (i : ℕ)
      → vs.index k ≡ some i
      → ((x : ValidatorInfo) → (f x).pubkey ≡ x.pubkey)
      → (r : ValidatorSet) × (modify_at f i vs ≡ some r)
        × IsIndexed r
        × ((j : Hash) → view r j ≡ (if bytes_eq k j then Option.map f (view vs k) else view vs j))
  unfolding modify_at
  modify_at_lem f k i e keep =
      let (info, h, own) = info_at k i e in
      (
        record vs { validators = set vs.validators i (f info) },
        ground (arith, h),
        record { at = rw (modify_keys f i info h (keep info)) v.at },
        λ j. elim (Option-cases (vs.index j)) [
          | inl ej ↦ ground (arith, bytes_eq_iff k j)
          | inr (m, ej) ↦ ground (
            arith,
            bytes_eq_iff k j,
            get_elem?-set vs.validators i m (f info),
            get_elem?-lt vs.validators i h,
            v.at j m,
            v.at k m,
            v.at k i,
          )
        ],
      )

  -- A setter writes the field of the key that it names, if it is a member, and nothing else.
  pub update_lem :
      (f : ValidatorInfo → ValidatorInfo) (k : Hash)
      → ((x : ValidatorInfo) → (f x).pubkey ≡ x.pubkey)
      → (r : ValidatorSet × Bool) × (update f k vs ≡ some r)
        × IsIndexed r.0
        × (r.1 ≡ has k vs)
        × ((j : Hash) → view r.0 j ≡ (if bytes_eq k j then Option.map f (view vs k) else view vs j))
  unfolding update has
  update_lem f k keep = elim (Option-cases (vs.index k)) [
    | inl e ↦ ((vs, false), ground arith, v, ground arith, λ j. ground (arith, bytes_eq_iff k j))
    | inr (i, e) ↦
        let (r, done, w, change) = modify_at_lem f k i e keep in
        ((r, true), ground (arith, done), w, ground arith, change)
  ]
