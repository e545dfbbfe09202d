-- ===== src/Dict.antt =====
-- Go maps that are iterated: the keys, each once, and what stands under them. The iteration order of
-- Go is unspecified; here it is the reverse of the insertions.
use blue_pods.Prelude.{
  ℕ, ◌≡◌, refl, List, [], ◌∷◌, Option, none, some, Bool, true, false, ◌&&◌, ◌||◌, ltb, ◌==◌,
  if◌then◌else◌, bytes_eq, arith, Bool-cases, inl, inr,
}
use blue_pods.Types.{Hash, contains}

pub record Dict {ℓ} (A : Type ℓ) : Type ℓ where
  pub keys : List Hash
  pub at : Hash → Option A

module _ {ℓ} {A : Type ℓ} where
  abbrev pub empty_dict : Dict A
  empty_dict = record { keys = []; at = λ k. none }

  abbrev pub put : Hash → A → Dict A → Dict A
  put key a d = record {
    keys = if contains key d.keys then d.keys else key ∷ d.keys;
    at = λ k. if bytes_eq key k then some a else d.at k;
  }

-- `bytes.Compare(a, b) < 0`.
unfoldable pub bytes_less : List ℕ → List ℕ → Bool
bytes_less [] [] = false
bytes_less [] (y ∷ ys) = true
bytes_less (x ∷ xs) [] = false
bytes_less (x ∷ xs) (y ∷ ys) = ltb x y || ((x == y) && bytes_less xs ys)

-- Hashes in ascending order.
unfoldable pub insert_sorted : Hash → List Hash → List Hash
insert_sorted h [] = h ∷ []
insert_sorted h (x ∷ xs) = if bytes_less h x then h ∷ x ∷ xs else x ∷ insert_sorted h xs

unfoldable pub sort_hashes : List Hash → List Hash
unfolding insert_sorted
sort_hashes [] = []
sort_hashes (x ∷ xs) = insert_sorted x (sort_hashes xs)

contains-cons :
    (k x : Hash) (xs : List Hash) → contains k (x ∷ xs) ≡ (bytes_eq k x || contains k xs)
unfolding contains
contains-cons k x xs = ground arith

contains-insert_sorted :
    (k h : Hash) (xs : List Hash)
    → contains k (insert_sorted h xs) ≡ (bytes_eq k h || contains k xs)
unfolding insert_sorted contains
contains-insert_sorted k h [] = ground arith
contains-insert_sorted k h (x ∷ xs) = elim (Bool-cases (bytes_less h x)) [
  | inl here ↦ ground (arith, here)
  | inr below ↦ ground (arith, below, contains-insert_sorted k h xs)
]

-- Sorting keeps the members.
pub contains-sort_hashes : (k : Hash) (xs : List Hash) → contains k (sort_hashes xs) ≡ contains k xs
unfolding sort_hashes contains
contains-sort_hashes k [] = refl
contains-sort_hashes k (x ∷ xs) =
    ground (arith, contains-insert_sorted k x (sort_hashes xs), contains-sort_hashes k xs)
