-- ===== src/Wallet/State.antt =====
-- pkg/wallet/state_store.go: `MemoryStateStore`, the UTXOs by their nullifiers. A nil store is
-- `none`; each method holds the store's lock. Token data is a parameter, and values are amounts.
pub mod Laws
pub mod Reorg
use railgun_go.Common.{
  text_ltb, ℕ, ltb, leb, not, ◌==◌, if◌then◌else◌, Bool, true, false, ◌&&◌, ◌||◌, Option, none,
  some, List, [], ◌∷◌, Text, is_blank, text_eq, Result, ok, err, ◌>>=◌, ◌>>◌, guard, Context, live,
  required, store_required, nullifier_required, missing_txo,
}
use railgun_go.Common.Int.{ℤ}
use railgun_go.Common.TextMap.{TextMap, find, put, change_entries}
use railgun_go.Poi.Manager.{PoisPerList}

pub record StoredTxo (T : Type 0) : Type 0 where
  pub txid_version : Text
  pub tree : ℕ
  pub position : ℕ
  pub txid : Text
  pub timestamp : Option ℕ
  pub block_number : ℕ
  pub spend_txid : Text
  pub spend_block_number : Option ℕ
  pub nullifier : Text
  pub commitment_hash : Text
  pub note_public_key : Text
  pub note_random : Text
  pub token_hash : Text
  pub token_data : T
  pub value : Option ℕ
  pub output_type : Option ℤ
  pub wallet_source : Text
  pub memo_text : Text
  pub sender_address : Text
  pub recipient_address : Text
  pub shield_fee : Text
  pub commitment_type : Text
  pub pois : PoisPerList
  pub blinded_commitment : Text
  pub transact_creation_railgun_txid : Text

abbrev pub Txos : Type 0 → Type 0
Txos T = TextMap (StoredTxo T)

abbrev pub at_or_after : ℕ → Option ℕ → Bool
at_or_after from_block none = false
at_or_after from_block (some block) = leb from_block block

module _ {T : Type 0} where
  -- The order of `sortedTXOs`.
  abbrev pub txo_before : StoredTxo T → StoredTxo T → Bool
  txo_before a b =
      if not (a.tree == b.tree)
      then ltb a.tree b.tree
      else if not (a.position == b.position)
      then ltb a.position b.position
      else text_ltb a.nullifier b.nullifier

  unfoldable pub insert_txo : StoredTxo T → List (StoredTxo T) → List (StoredTxo T)
  insert_txo x [] = x ∷ []
  insert_txo x (y ∷ ys) =
      let rest = insert_txo x ys in if txo_before y x then y ∷ rest else x ∷ y ∷ ys

  unfoldable pub sorted_txos : Txos T → List (StoredTxo T)
  sorted_txos [] = []
  sorted_txos ((nullifier, txo) ∷ txos) = insert_txo txo (sorted_txos txos)

  unfoldable pub upsert_txo : Context → Option (Txos T) → StoredTxo T → Result (Txos T)
  upsert_txo ctx store txo = do
    live ctx
    txos ← required store store_required
    guard (not (is_blank txo.nullifier)) nullifier_required
    ok (put txo.nullifier txo txos)

  unfoldable pub get_txo : Context → Option (Txos T) → Text → Result (Option (StoredTxo T))
  get_txo ctx store nullifier = do
    live ctx
    txos ← required store store_required
    ok (find nullifier txos)

  unfoldable pub list_txos : Context → Option (Txos T) → Result (List (StoredTxo T))
  list_txos ctx store = do live ctx; txos ← required store store_required; ok (sorted_txos txos)

  abbrev pub spent_by : Text → Option ℕ → StoredTxo T → StoredTxo T
  spent_by spend_txid block txo = record txo { spend_txid = spend_txid; spend_block_number = block }

  unfoldable pub mark_spent : Context → Option (Txos T) → Text → Text → Option ℕ → Result (Txos T)
  mark_spent ctx store nullifier spend_txid block = do
    live ctx
    txos ← required store store_required
    txo ← required (find nullifier txos) missing_txo
    ok (put nullifier (spent_by spend_txid block txo) txos)

  unfoldable pub mark_txo_spent : Context → Option (Txos T) → Text → Text → Result (Txos T)
  mark_txo_spent ctx store nullifier spend_txid = mark_spent ctx store nullifier spend_txid none

  unfoldable pub mark_txo_spent_at_block :
      Context → Option (Txos T) → Text → Text → ℕ → Result (Txos T)
  mark_txo_spent_at_block ctx store nullifier spend_txid block =
      mark_spent ctx store nullifier spend_txid (some block)

  -- What `RollbackToBlock` leaves of a UTXO.
  unfoldable pub rolled_back : ℕ → StoredTxo T → Option (StoredTxo T)
  rolled_back from_block txo =
      if leb from_block txo.block_number
      then none
      else if at_or_after from_block txo.spend_block_number
      then some (spent_by [] none txo)
      else some txo

  unfoldable pub rollback_txos : Context → Option (Txos T) → ℕ → Result (Txos T)
  rollback_txos ctx store from_block = do
    live ctx
    txos ← required store store_required
    ok (change_entries (rolled_back from_block) txos)

  unfoldable pub update_txo_pois : Context → Option (Txos T) → Text → PoisPerList → Result (Txos T)
  update_txo_pois ctx store nullifier pois = do
    live ctx
    txos ← required store store_required
    txo ← required (find nullifier txos) missing_txo
    ok (put nullifier (record txo { pois = pois }) txos)
