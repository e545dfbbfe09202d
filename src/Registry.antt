-- ===== src/Registry.antt =====
-- The domain registry: the stored leaves of internal/state/domain.go, their accessors in
-- internal/state/state.go, and the rules of names and leases of internal/consensus/domainops.go and
-- domain_sweep.go. The database is a function from names, without their prefix, to stored values; a
-- failing read or write of the database is left out.
pub mod Leaves
pub mod Leases
pub mod Tests
use blue_pods.Prelude.{
  ℕ, ◌+◌, ◌-◌, ◌∷◌, ◌++◌, List, [], Option, none, some, Bool, true, false, ◌&&◌, ◌||◌, not, ltb,
  leb, ◌==◌, ◌>>=◌, if◌then◌else◌, length, take, drop, bytes_eq, replicate, max,
}
use blue_pods.Types.{Hash}
use blue_pods.Text.{codes}
use blue_pods.Word.{safe_add}
use blue_pods.Bytes.{be_bytes, be_num}

abbrev pub Name : Type 0
Name = List ℕ

pub record DomainEntry : Type 0 where
  pub name : Name
  pub object_id : Hash
  pub owner : Hash
  pub expiry_epoch : ℕ

abbrev pub Registry : Type 0
Registry = Name → Option (List ℕ)

abbrev legacy_domain_value_size : ℕ
legacy_domain_value_size = 32

abbrev domain_value_size : ℕ
domain_value_size = 72

abbrev pub zero_key : Hash
zero_key = replicate 32 0

unfoldable encode_domain_value : DomainEntry → List ℕ
encode_domain_value entry = entry.object_id ++ (entry.owner ++ be_bytes 8 entry.expiry_epoch)

unfoldable decode_domain_value : Name → List ℕ → Option DomainEntry
decode_domain_value name value =
    if not (length value == domain_value_size) && not (length value == legacy_domain_value_size)
    then none
    else if length value == legacy_domain_value_size
    then some
        (record { name = name; object_id = take 32 value; owner = zero_key; expiry_epoch = 0 })
    else some (record {
      name = name;
      object_id = take 32 value;
      owner = take 32 (drop 32 value);
      expiry_epoch = be_num (drop 64 value);
    })

unfoldable pub get : Name → Registry → Option DomainEntry
unfolding decode_domain_value
get name r = r name >>= decode_domain_value name

unfoldable exists : Name → Registry → Bool
unfolding get
exists name r = elim (get name r) [ none ↦ false | some entry ↦ true ]

unfoldable set : DomainEntry → Registry → Registry
unfolding encode_domain_value
set entry r = λ name. if bytes_eq entry.name name then some (encode_domain_value entry) else r name

unfoldable pub delete : Name → Registry → Registry
delete removed r = λ name. if bytes_eq removed name then none else r name

unfoldable import_batch : List DomainEntry → Registry → Registry
unfolding set
import_batch [] r = r
import_batch (entry ∷ entries) r = import_batch entries (set entry r)

-- Resolution at an epoch.
unfoldable resolve_domain : ℕ → Name → Registry → Option Hash
unfolding get
resolve_domain epoch name r =
    get name r >>= (λ entry. if ltb entry.expiry_epoch epoch then none else some entry.object_id)

-- A registry leaf, without its name.
pub record DomainLeafView : Type 0 where
  pub object_id : Hash
  pub owner : Hash
  pub expiry : ℕ

unfoldable pub domain_leaf : Name → Registry → Option DomainLeafView
unfolding get
domain_leaf name r = get name r >>= (λ entry.
    some (record { object_id = entry.object_id; owner = entry.owner; expiry = entry.expiry_epoch }))

unfoldable pub set_domain_leaf : Name → DomainLeafView → Registry → Registry
unfolding set
set_domain_leaf name leaf r =
    set
      (record {
        name = name;
        object_id = leaf.object_id;
        owner = leaf.owner;
        expiry_epoch = leaf.expiry;
      })
      r

-- The rules of leases and names.
unfoldable pub domain_expiry : ℕ → ℕ → ℕ → ℕ → Option ℕ
domain_expiry current epoch term max_term =
    if term == 0
    then none
    else (let base = if ltb current epoch then epoch else current in
        let expiry = safe_add base term in
        if ltb (safe_add epoch max_term) expiry then none else some expiry)

abbrev max_domain_name_len : ℕ
max_domain_name_len = 253

abbrev reserved_domain_root : Name
reserved_domain_root = codes "system"

abbrev reserved_domain_prefix : Name
reserved_domain_prefix = codes "system."

abbrev dot : ℕ
dot = 46

unfoldable valid_domain_byte : ℕ → Bool
valid_domain_byte c = (leb 97 c && leb c 122) || ((leb 48 c && leb c 57) || c == 45)

-- The labels between the dots, as strings.Split returns them.
unfoldable labels : Name → List Name
labels [] = [] ∷ []
labels (c ∷ cs) =
    let rest = labels cs in
    if c == dot then [] ∷ rest else elim rest [ [] ↦ (c ∷ []) ∷ [] | l ∷ ls ↦ (c ∷ l) ∷ ls ]

unfoldable all_bytes : (ℕ → Bool) → List ℕ → Bool
all_bytes p [] = true
all_bytes p (c ∷ cs) = p c && all_bytes p cs

unfoldable valid_domain_label : Name → Bool
unfolding valid_domain_byte all_bytes
valid_domain_label [] = false
valid_domain_label (c ∷ cs) = all_bytes valid_domain_byte (c ∷ cs)

unfoldable all_labels : List Name → Bool
unfolding valid_domain_label
all_labels [] = true
all_labels (l ∷ ls) = valid_domain_label l && all_labels ls

unfoldable pub valid_domain_name : Name → Bool
unfolding labels all_labels
valid_domain_name name =
    if length name == 0 || ltb max_domain_name_len (length name)
    then false
    else if bytes_eq name reserved_domain_root || bytes_eq (take 7 name) reserved_domain_prefix
    then false
    else all_labels (labels name)

unfoldable pub parent_domain_name : Name → Option Name
parent_domain_name [] = none
parent_domain_name (c ∷ cs) = if c == dot then some cs else parent_domain_name cs
