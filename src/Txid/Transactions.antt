-- ===== src/Txid/Transactions.antt =====
-- pkg/txid/store.go: `MemoryTransactionStore`, transactions by their RAILGUN ids. A nil store is
-- `none`; each method holds the store's lock.
use railgun_go.Common.{
  ℕ, ltb, leb, not, ◌==◌, if◌then◌else◌, Bool, Option, none, some, List, Text, is_blank, text_eq,
  text_ltb, sort_by, Result, ok, ◌>>=◌, ◌>>◌, guard, Context, live, required, store_required,
  value_required,
}
use railgun_go.Common.Int.{ℤ}
use railgun_go.Common.TextMap.{TextMap, find, put, values_of, change_entries}

pub record TokenData : Type 0 where
  pub token_address : Text
  pub token_type : ℤ
  pub token_sub_id : Text

pub record UnshieldData : Type 0 where
  pub token_data : TokenData
  pub to_address : Text
  pub value : Text
  pub fee : Text

pub record Transaction : Type 0 where
  pub version : Text
  pub railgun_txid : Text
  pub txid : Text
  pub block_number : ℕ
  pub commitments : List Text
  pub nullifiers : List Text
  pub bound_params_hash : Text
  pub unshield : Option UnshieldData
  pub utxo_tree_in : ℤ
  pub utxo_tree_out : ℤ
  pub utxo_batch_start_position_out : ℤ
  pub verification_hash : Text

abbrev pub Transactions : Type 0
Transactions = TextMap Transaction

-- The order of `sortedTransactions`.
abbrev pub transaction_before : Transaction → Transaction → Bool
transaction_before a b =
    if not (a.block_number == b.block_number)
    then ltb a.block_number b.block_number
    else if not (text_eq a.txid b.txid)
    then text_ltb a.txid b.txid
    else text_ltb a.railgun_txid b.railgun_txid

unfoldable pub upsert_transaction :
    Context → Option Transactions → Transaction → Result Transactions
upsert_transaction ctx store transaction = do
  live ctx
  transactions ← required store store_required
  guard (not (is_blank transaction.railgun_txid)) value_required
  ok (put transaction.railgun_txid transaction transactions)

unfoldable pub get_by_railgun_txid :
    Context → Option Transactions → Text → Result (Option Transaction)
get_by_railgun_txid ctx store railgun_txid = do
  live ctx
  transactions ← required store store_required
  ok (find railgun_txid transactions)

unfoldable pub list_transactions : Context → Option Transactions → Result (List Transaction)
list_transactions ctx store = do
  live ctx
  transactions ← required store store_required
  ok (sort_by transaction_before (values_of transactions))

-- The transactions that `RollbackToBlock` keeps.
unfoldable pub kept_transaction : ℕ → Transaction → Option Transaction
kept_transaction from_block transaction =
    if leb from_block transaction.block_number then none else some transaction

unfoldable pub rollback_transactions : Context → Option Transactions → ℕ → Result Transactions
rollback_transactions ctx store from_block = do
  live ctx
  transactions ← required store store_required
  ok (change_entries (kept_transaction from_block) transactions)
