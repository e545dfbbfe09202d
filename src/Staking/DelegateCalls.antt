-- ===== src/Staking/DelegateCalls.antt =====
-- What the delegation calls of internal/consensus/commit.go read, and what they leave behind.
use blue_pods.Prelude.{ℕ, ◌≡◌, List, Option, none, some, Bool, arith}
use blue_pods.Types.{Hash, Tx}
use blue_pods.Staking.{
  Dag, DelegateCall, first_mutable_ref_id, decode_delegate_args, delegate_call, parse_delegate_tx,
  delegation_id, read_delegation_amount,
}

pub parse_delegate_tx_lem :
    (d : Dag) (tx : Tx) (fn : List ℕ) (with_amount : Bool) (call : DelegateCall)
    → parse_delegate_tx d tx fn with_amount ≡ some call
    → (d.coin_store ≡ some call.store)
      × (call.delegator ≡ tx.sender)
      × (first_mutable_ref_id tx ≡ some call.coin_id)
      × (decode_delegate_args tx.args with_amount ≡ some (call.validator, call.amount))
unfolding parse_delegate_tx delegate_call
parse_delegate_tx_lem d tx fn with_amount call e = ground arith

-- The value that a position holds in the store of a DAG.
abbrev pub principal : (List ℕ → Hash) → Hash → Hash → Dag → Option ℕ
principal blake3 delegator validator d = elim d.coin_store [
  | none ↦ none
  | some s ↦ read_delegation_amount blake3 (delegation_id blake3 delegator validator) validator s
]
