-- ===== src/Validators/Changes.antt =====
-- What the operations that change a validator set do, as changes of the finite map from public
-- keys to infos that `view` reads.
use mathlib.Core.Option
use blue_pods.Prelude.{
  ℕ, ◌-◌, ◌≡◌, refl, Bool, true, false, List, none, some, arith, not, ◌&&◌, ◌==◌, if◌then◌else◌,
  length, get_elem?, set, take, bytes_eq, bytes_eq_iff, get_elem?-lt, ◌≢◌, inl, inr,
  get_elem?-of_lt, get_elem?-set, get_elem?-take, get_elem?-snoc, Option-cases, Bool-cases, map-set,
  map-take, map-snoc, get_elem?-map, length-map,
}
use blue_pods.Types.{Hash}
use blue_pods.Validators.{
  ValidatorInfo, ValidatorSet, Added, put_index, delete_index, append_info, fresh_info,
  fill_addresses, add, swap_last, remove, has,
}
use blue_pods.Validators.Index.{
  keys, IsIndexed, Agrees-snoc, Agrees-remove, Agrees-remove_last, view, info_at, modify_at_lem,
}

abbrev pubkey_of : ValidatorInfo → Hash
pubkey_of x = x.pubkey

pub append_info_lem :
    (info : ValidatorInfo) (vs : ValidatorSet)
    → IsIndexed vs
    → vs.index info.pubkey ≡ none
    → IsIndexed (append_info info vs)
      × ((j : Hash)
          → view (append_info info vs) j
            ≡ (if bytes_eq info.pubkey j then some info else view vs j))
unfolding append_info
append_info_lem info vs v fresh =
    let n = length-map pubkey_of vs.validators in
    (
      record {
        at =
            rw (map-snoc pubkey_of vs.validators info, ← n)
              (Agrees-snoc vs.index (keys vs) info.pubkey v.at fresh);
      },
      λ j. elim (Option-cases (vs.index j)) [
        | inl ej ↦ ground (
          arith,
          bytes_eq_iff info.pubkey j,
          get_elem?-snoc vs.validators info (length vs.validators),
        )
        | inr (m, ej) ↦
            let (x, h, own) = info_at vs v j m ej in
            ground (
              arith,
              bytes_eq_iff info.pubkey j,
              get_elem?-snoc vs.validators info m,
              get_elem?-lt vs.validators m h,
            )
      ],
    )

-- Add never panics. A new key is bound to a fresh info, and the callback, if there is one, gets
-- that info; a known key keeps its stake and only has an empty address or key filled in.
pub add_lem :
    (k : Hash) (quic_addr bls_pubkey : List ℕ) (vs : ValidatorSet)
    → IsIndexed vs
    → (r : Added) × (add k quic_addr bls_pubkey vs ≡ some r)
      × IsIndexed r.after
      × (r.is_new ≡ not (has k vs))
      × ((j : Hash)
          → view r.after j ≡ (
              if bytes_eq k j
              then (if has k vs
                  then Option.map (fill_addresses quic_addr bls_pubkey) (view vs k)
                  else some (fresh_info k quic_addr bls_pubkey))
              else view vs j))
      × (r.notified ≡ (
          if not (has k vs) && vs.has_callback
          then some (fresh_info k quic_addr bls_pubkey)
          else none))
unfolding add has fresh_info fill_addresses
add_lem k quic_addr bls_pubkey vs v = elim (Option-cases (vs.index k)) [
  | inl e ↦
      let (w, change) = append_info_lem (fresh_info k quic_addr bls_pubkey) vs v e in
      (
        record {
          after = append_info (fresh_info k quic_addr bls_pubkey) vs;
          is_new = true;
          notified = if vs.has_callback then some (fresh_info k quic_addr bls_pubkey) else none;
        },
        ground arith,
        w,
        ground arith,
        λ j. ground (arith, change j),
        ground arith,
      )
  | inr (i, e) ↦
      let (r, done, w, change) =
        modify_at_lem vs v (fill_addresses quic_addr bls_pubkey) k i e (λ x. refl) in
      (
        record { after = r; is_new = false; notified = none },
        ground (arith, done),
        w,
        ground arith,
        λ j. ground (arith, change j),
        ground arith,
      )
]

-- The two ways in which Remove shortens the slice.
module _ (k : Hash) (vs : ValidatorSet) (v : IsIndexed vs) (i : ℕ) (e : vs.index k ≡ some i) where
  abbrev last : ℕ
  last = length vs.validators - 1

  abbrev cut : ValidatorSet
  cut = record vs { validators = take last vs.validators; index = delete_index k vs.index }

  cut_lem :
      i ≡ last
      → IsIndexed cut × ((j : Hash) → view cut j ≡ (if bytes_eq k j then none else view vs j))
  cut_lem l =
      let n = length-map pubkey_of vs.validators in
      (
        record {
          at =
              rw (map-take pubkey_of last vs.validators, ← n)
                (Agrees-remove_last vs.index (keys vs) k v.at (rw (n, ← l) e));
        },
        λ j. elim (Option-cases (vs.index j)) [
          | inl ej ↦ ground (arith, bytes_eq_iff k j)
          | inr (m, ej) ↦
              let (x, h, own) = info_at vs v j m ej in
              ground (
                arith,
                bytes_eq_iff k j,
                get_elem?-take last vs.validators m,
                get_elem?-lt vs.validators m h,
                v.at j m,
                v.at k m,
              )
        ],
      )

  abbrev filled : ValidatorInfo → ValidatorSet
  filled moved = record vs {
    validators = take last (set vs.validators i moved);
    index = delete_index k (put_index moved.pubkey i vs.index);
  }

  filled_lem :
      (moved : ValidatorInfo)
      → i ≢ last
      → get_elem? vs.validators last ≡ some moved
      → IsIndexed (filled moved)
        × ((j : Hash) → view (filled moved) j ≡ (if bytes_eq k j then none else view vs j))
  filled_lem moved ne em =
      let n = length-map pubkey_of vs.validators in
      let keyed = get_elem?-map pubkey_of vs.validators last em in
      (
        record {
          at =
              rw
                (
                  map-take pubkey_of last (set vs.validators i moved),
                  map-set pubkey_of vs.validators i moved,
                )
                (Agrees-remove vs.index (keys vs) k moved.pubkey i last v.at (omega (arith, n)) e
                  keyed ne);
        },
        λ j. elim (Option-cases (vs.index j)) [
          | inl ej ↦
              ground (arith, bytes_eq_iff k j, bytes_eq_iff moved.pubkey j, v.at j last, keyed)
          | inr (m, ej) ↦
              let (x, h, own) = info_at vs v j m ej in
              let (y, hk, ownk) = info_at vs v k i e in
              ground (
                arith,
                bytes_eq_iff k j,
                bytes_eq_iff moved.pubkey j,
                get_elem?-take last (set vs.validators i moved) m,
                get_elem?-take last (set vs.validators i moved) i,
                get_elem?-set vs.validators i m moved,
                get_elem?-set vs.validators i i moved,
                get_elem?-lt vs.validators m h,
                get_elem?-lt vs.validators i hk,
                em,
                keyed,
                v.at j m,
                v.at j last,
                v.at k m,
              )
        ],
      )

-- Remove never panics. The removed key is bound to nothing, and every other key, the one whose
-- info moved into the gap included, to what it was.
pub remove_lem :
    (k : Hash) (vs : ValidatorSet)
    → IsIndexed vs
    → (r : ValidatorSet × Bool) × (remove k vs ≡ some r)
      × IsIndexed r.0
      × (r.1 ≡ has k vs)
      × ((j : Hash) → view r.0 j ≡ (if bytes_eq k j then none else view vs j))
unfolding remove swap_last has
remove_lem k vs v = elim (Option-cases (vs.index k)) [
  | inl e ↦ ((vs, false), ground arith, v, ground arith, λ j. ground (arith, bytes_eq_iff k j))
  | inr (i, e) ↦ elim (Bool-cases (i == length vs.validators - 1)) [
    | inl last ↦ (
      (cut k vs v i e, true),
      ground arith,
      (cut_lem k vs v i e (ground arith)).0,
      ground arith,
      (cut_lem k vs v i e (ground arith)).1,
    )
    | inr inner ↦
        let (x, h, own) = info_at vs v k i e in
        let in_range = get_elem?-lt vs.validators i h in
        let (moved, em) = get_elem?-of_lt vs.validators (length vs.validators - 1) (omega arith) in
        (
          (filled k vs v i e moved, true),
          ground (arith, em, in_range),
          (filled_lem k vs v i e moved (ground arith) em).0,
          ground arith,
          (filled_lem k vs v i e moved (ground arith) em).1,
        )
  ]
]
