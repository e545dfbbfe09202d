-- ===== src/Types.antt =====
-- Types that several components share: the 32-byte hash (internal/validators) as its bytes, and a
-- declared operation with its kinds (internal/genesis/declared_op.go, internal/consensus/ops.go and
-- internal/consensus/domainops.go).
use blue_pods.Prelude.{ℕ, List, bytes_eq, Bool, false, true, if◌then◌else◌, [], ◌∷◌}

abbrev pub Hash : Type 0
Hash = List ℕ

pub record DeclaredOp : Type 0 where
  pub kind : ℕ
  pub object_id : List ℕ
  pub target_kind : ℕ
  pub target : List ℕ
  pub name : List ℕ
  pub term_epochs : ℕ

abbrev pub reparent_op : ℕ
reparent_op = 0

abbrev pub delete_op : ℕ
delete_op = 1

abbrev pub domain_register_op : ℕ
domain_register_op = 2

abbrev pub domain_renew_op : ℕ
domain_renew_op = 3

abbrev pub domain_update_op : ℕ
domain_update_op = 4

abbrev pub domain_transfer_op : ℕ
domain_transfer_op = 5

abbrev pub domain_delete_op : ℕ
domain_delete_op = 6

-- Membership in a `map[Hash]…` that is held as the list of its keys.
unfoldable pub contains : Hash → List Hash → Bool
contains h [] = false
contains h (x ∷ xs) = if bytes_eq h x then true else contains h xs

-- A reference of a transaction to an object, and the fields of a transaction that the modelled
-- handlers read (types/transaction.fbs); an absent vector is the empty list.
pub record TxRef : Type 0 where
  pub id : List ℕ
  pub version : ℕ
  pub domain : List ℕ

pub record Tx : Type 0 where
  pub sender : List ℕ
  pub pod : List ℕ
  pub function_name : List ℕ
  pub args : List ℕ
  pub read_refs : List TxRef
  pub mutable_refs : List TxRef
