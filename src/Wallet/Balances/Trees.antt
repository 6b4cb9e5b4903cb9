-- ===== src/Wallet/Balances/Trees.antt =====
-- pkg/wallet/balances.go: balances by tree.
use railgun_go.Common.{
  ℕ, zero, suc, ◌+◌, Option, none, some, List, [], ◌∷◌, ◌++◌, Text, Result, ok, ◌>>=◌, Context,
}
use railgun_go.Common.TextMap.{TextMap, find}
use railgun_go.Transaction.Solutions.{or_nothing}
use railgun_go.Wallet.State.{StoredTxo}
use railgun_go.Wallet.Stores.{Wallet}
use railgun_go.Wallet.Balances.{TreeBalance, TokenBalances, balances_for_txid_version}

module _ {T : Type 0} where
  abbrev pub with_txo : StoredTxo T → Option (TreeBalance T) → TreeBalance T
  with_txo txo none = record {
    balance = or_nothing txo.value;
    token_data = txo.token_data;
    utxos = txo ∷ [];
  }
  with_txo txo (some tree) = record tree {
    balance = tree.balance + or_nothing txo.value;
    utxos = tree.utxos ++ txo ∷ [];
  }

  -- The entry of a tree, where the list is first filled up to it.
  unfoldable pub add_to_tree :
      ℕ → StoredTxo T → List (Option (TreeBalance T)) → List (Option (TreeBalance T))
  add_to_tree zero txo [] = some (with_txo txo none) ∷ []
  add_to_tree zero txo (entry ∷ entries) = some (with_txo txo entry) ∷ entries
  add_to_tree (suc tree) txo [] = none ∷ add_to_tree tree txo []
  add_to_tree (suc tree) txo (entry ∷ entries) = entry ∷ add_to_tree tree txo entries

  unfoldable pub trees_from :
      List (Option (TreeBalance T)) → List (StoredTxo T) → List (Option (TreeBalance T))
  trees_from trees [] = trees
  trees_from trees (txo ∷ txos) = trees_from (add_to_tree txo.tree txo trees) txos

  unfoldable pub total_balances_by_tree_number_from_balances :
      TokenBalances T → TextMap (List (Option (TreeBalance T)))
  total_balances_by_tree_number_from_balances [] = []
  total_balances_by_tree_number_from_balances ((hash, entry) ∷ balances) =
      (hash, trees_from [] entry.utxos) ∷ total_balances_by_tree_number_from_balances balances

  abbrev pub tree_total : Option (TreeBalance T) → ℕ
  tree_total none = 0
  tree_total (some tree) = tree.balance

  unfoldable pub token_balance_across_all_trees : List (Option (TreeBalance T)) → ℕ
  token_balance_across_all_trees [] = 0
  token_balance_across_all_trees (tree ∷ trees) =
      tree_total tree + token_balance_across_all_trees trees

  -- A token that is not in the map has no trees.
  abbrev pub trees_or_none : Option (List (Option (TreeBalance T))) → List (Option (TreeBalance T))
  trees_or_none none = []
  trees_or_none (some trees) = trees

  module _ (token_data_hash : T → Result Text) where
    unfoldable pub total_balances_by_tree_number :
        Context
        → Option (Wallet T)
        → Text
        → List Text
        → Result (TextMap (List (Option (TreeBalance T))))
    total_balances_by_tree_number ctx wallet version included = do
      balances ← balances_for_txid_version token_data_hash ctx wallet version included
      ok (total_balances_by_tree_number_from_balances balances)

    unfoldable pub balances_by_tree_for_token :
        Context
        → Option (Wallet T)
        → Text
        → Text
        → List Text
        → Result (List (Option (TreeBalance T)))
    balances_by_tree_for_token ctx wallet version token_hash included = do
      totals ← total_balances_by_tree_number ctx wallet version included
      ok (trees_or_none (find token_hash totals))
