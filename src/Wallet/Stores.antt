-- ===== src/Wallet/Stores.antt =====
-- pkg/wallet/wallet.go: a wallet and its stores. What they hold is that of the memory stores; `reorg`
-- is which of them have a `RollbackToBlock`, as all of the repository do. `keys` is what
-- `validateImportInputs` returns for its keys.
use railgun_go.Common.{
  Option, none, some, Bool, Error, guard, Result, ok, ◌>>=◌, ◌>>◌, required, wallet_required,
  store_required, checkpoints_required, manager_required, txid_store_not_reorg,
  txid_merkle_tree_not_reorg, utxo_merkle_tree_not_reorg, spent_poi_events_not_reorg,
}
use railgun_go.Events.Checkpoint.{Checkpoints}
use railgun_go.Poi.Manager.{Manager}
use railgun_go.Txid.Transactions.{Transactions}
use railgun_go.Txid.Trees.{TxidLeaves}
use railgun_go.UtxoTree.Store.{Leaves}
use railgun_go.Wallet.State.{Txos}
use railgun_go.Wallet.SpentEvents.{SpentEvents}

-- What the type assertions to the `Reorg...Store` interfaces say of each store.
pub record Reorg : Type 0 where
  pub state : Bool
  pub txid_store : Bool
  pub txid_merkle_tree : Bool
  pub utxo_merkle_tree : Bool
  pub spent_poi_events : Bool

pub record Wallet (T : Type 0) : Type 0 where
  pub state : Option (Txos T)
  pub checkpoints : Option Checkpoints
  pub keys : Result (Unit {0})
  pub poi_manager : Option Manager
  pub txid_store : Option Transactions
  pub txid_merkle_tree : Option TxidLeaves
  pub utxo_merkle_tree : Option Leaves
  pub spent_poi_events : Option (SpentEvents T)
  pub reorg : Reorg

-- The parts that are there.
unfoldable pub validate : {T : Type 0} → Option (Wallet T) → Result (Txos T × Manager)
validate wallet = do
  w ← required wallet wallet_required
  txos ← required w.state store_required
  checkpoints ← required w.checkpoints checkpoints_required
  manager ← required w.poi_manager manager_required
  w.keys
  ok (txos, manager)

-- A store that is there has to have a `RollbackToBlock`.
abbrev pub reorg_of : {S : Type 0} → Option S → Bool → Error → Result (Unit {0})
reorg_of none reorg e = ok tt
reorg_of (some store) reorg e = guard reorg e

-- `reorgTXIDStore`
unfoldable pub reorg_txid_store : {T : Type 0} → Wallet T → Result (Unit {0})
reorg_txid_store wallet = reorg_of wallet.txid_store wallet.reorg.txid_store txid_store_not_reorg

unfoldable pub reorg_txid_merkle_tree : {T : Type 0} → Wallet T → Result (Unit {0})
reorg_txid_merkle_tree wallet =
    reorg_of wallet.txid_merkle_tree wallet.reorg.txid_merkle_tree txid_merkle_tree_not_reorg

unfoldable pub reorg_utxo_merkle_tree : {T : Type 0} → Wallet T → Result (Unit {0})
reorg_utxo_merkle_tree wallet =
    reorg_of wallet.utxo_merkle_tree wallet.reorg.utxo_merkle_tree utxo_merkle_tree_not_reorg

-- `reorgSpentPOIEventStore`
unfoldable pub reorg_spent_poi_events : {T : Type 0} → Wallet T → Result (Unit {0})
reorg_spent_poi_events wallet =
    reorg_of wallet.spent_poi_events wallet.reorg.spent_poi_events spent_poi_events_not_reorg
