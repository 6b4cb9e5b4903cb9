-- ===== src/Wallet/Rollback.antt =====
-- pkg/wallet/sync.go and pkg/wallet/wallet.go: the rollback of a wallet, which rolls back each of
-- its stores in turn. A store that is not there is left out. On an error the stores that were rolled
-- back before it stay so; the model returns the error alone.
pub mod Each
pub mod Before
pub mod Errors
use railgun_go.Common.{
  store_required, state_not_reorg, guard, ℕ, Option, none, some, Text, Result, ok, err,
  wallet_required, required, ◌>>=◌, ◌>>◌, Context, Error,
}
use railgun_go.Events.Checkpoint.{Checkpoints, rollback_checkpoint}
use railgun_go.Txid.Transactions.{Transactions, rollback_transactions}
use railgun_go.Txid.Trees.{TxidLeaves, rollback_txid_leaves}
use railgun_go.UtxoTree.Store.{Leaves, rollback_to_block}
use railgun_go.Wallet.State.{Txos, rollback_txos}
use railgun_go.Wallet.SpentEvents.{SpentEvents, rollback_spent_events}
use railgun_go.Wallet.Stores.{
  Wallet, validate, reorg_txid_store, reorg_txid_merkle_tree, reorg_utxo_merkle_tree,
  reorg_spent_poi_events,
}

-- `if store != nil { store.RollbackToBlock(...) }`
abbrev pub if_present : {S : Type 0} → (Option S → Result S) → Option S → Result (Option S)
if_present call none = ok none
if_present call (some store) = do after ← call (some store); ok (some after)

-- `RollbackScanCheckpoint` of a memory store, which has a `RollbackCheckpoint` of its own.
unfoldable pub rollback_memory_checkpoint :
    Context → Option Checkpoints → Text → ℕ → Result Checkpoints
rollback_memory_checkpoint ctx store key next = do
  held ← required store store_required
  rollback_checkpoint ctx (some held) key next

module _ {T : Type 0} where
  unfoldable pub rollback_wallet_sync : Context → Wallet T → Text → ℕ → Result (Wallet T)
  rollback_wallet_sync ctx wallet key from_block = do
    guard wallet.reorg.state state_not_reorg
    state ← rollback_txos ctx wallet.state from_block
    transactions ← if_present (λ s. rollback_transactions ctx s from_block) wallet.txid_store
    txid_leaves ← if_present (λ s. rollback_txid_leaves ctx s from_block) wallet.txid_merkle_tree
    leaves ← if_present (λ s. rollback_to_block ctx s from_block) wallet.utxo_merkle_tree
    events ← if_present (λ s. rollback_spent_events ctx s from_block) wallet.spent_poi_events
    checkpoints ← rollback_memory_checkpoint ctx wallet.checkpoints key from_block
    ok (record wallet {
      state = some state;
      txid_store = transactions;
      txid_merkle_tree = txid_leaves;
      utxo_merkle_tree = leaves;
      spent_poi_events = events;
      checkpoints = some checkpoints;
    })

  unfoldable pub rollback_wallet : Context → Option (Wallet T) → Text → ℕ → Result (Wallet T)
  rollback_wallet ctx wallet key from_block = do
    parts ← validate wallet
    w ← required wallet wallet_required
    reorg_txid_store w
    reorg_txid_merkle_tree w
    reorg_utxo_merkle_tree w
    reorg_spent_poi_events w
    rollback_wallet_sync ctx w key from_block
