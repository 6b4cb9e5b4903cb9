-- ===== src/Wallet/Balances/Backed.antt =====
-- pkg/wallet: a balance is the sum of its UTXOs, and the sum of the balances of its trees.
use mathlib.Core.Path.{subst}
use railgun_go.Common.{
  ℕ, zero, suc, ◌+◌, ◌≡◌, ap, Bool-cases, inl, inr, true, Option, none, some, List, [], ◌∷◌, ◌++◌,
  Text, text_eq, Result, ok, >>=-eq-ok, required-eq-ok, required, value_required, arith,
}
use railgun_go.Common.TextMap.{find, put}
use railgun_go.Poi.Manager.{Manager}
use railgun_go.Transaction.Solutions.{or_nothing}
use railgun_go.Wallet.State.{StoredTxo}
use railgun_go.Wallet.Balances.{
  TokenBalance, TreeBalance, TokenBalances, is_included, add_txo, add_balance, add_balances,
  token_balances_from_txos, token_hash_of,
}
use railgun_go.Wallet.Balances.Totals.{value_sum}
use railgun_go.Wallet.Balances.Trees.{add_to_tree, trees_from, token_balance_across_all_trees}

module _ {T : Type 0} where
  abbrev pub values : List (StoredTxo T) → ℕ
  values txos = value_sum (λ txo. true) txos

  values-append : (xs ys : List (StoredTxo T)) → values (xs ++ ys) ≡ values xs + values ys
  values-append [] ys = omega arith
  values-append (x ∷ xs) ys = omega (arith, values-append xs ys)

  add_to_tree-sum :
      (tree : ℕ) (txo : StoredTxo T) (trees : List (Option (TreeBalance T)))
      → token_balance_across_all_trees (add_to_tree tree txo trees)
        ≡ token_balance_across_all_trees trees + or_nothing txo.value
  unfolding token_balance_across_all_trees add_to_tree
  add_to_tree-sum zero txo [] = omega arith
  add_to_tree-sum zero txo (none ∷ trees) = omega arith
  add_to_tree-sum zero txo (some entry ∷ trees) = omega arith
  add_to_tree-sum (suc tree) txo [] = omega (arith, add_to_tree-sum tree txo [])
  add_to_tree-sum (suc tree) txo (entry ∷ trees) = omega (arith, add_to_tree-sum tree txo trees)

  trees_from-sum :
      (trees : List (Option (TreeBalance T))) (txos : List (StoredTxo T))
      → token_balance_across_all_trees (trees_from trees txos)
        ≡ token_balance_across_all_trees trees + values txos
  unfolding trees_from
  trees_from-sum trees [] = omega arith
  trees_from-sum trees (txo ∷ txos) = omega (
    arith,
    trees_from-sum (add_to_tree txo.tree txo trees) txos,
    add_to_tree-sum txo.tree txo trees,
  )

  -- The balance is the sum of the values of the UTXOs.
  abbrev pub IsBacked : Option (TokenBalance T) → Type 0
  IsBacked none = Unit
  IsBacked (some entry) = entry.balance ≡ values entry.utxos

  abbrev pub AllBacked : TokenBalances T → Type 0
  AllBacked [] = Unit
  AllBacked ((hash, entry) ∷ balances) = (entry.balance ≡ values entry.utxos) × AllBacked balances

  find-IsBacked :
      (hash : Text) (balances : TokenBalances T)
      → AllBacked balances
      → IsBacked (find hash balances)
  unfolding find
  find-IsBacked hash [] h = tt
  find-IsBacked hash ((other, entry) ∷ balances) h = elim (Bool-cases (text_eq other hash)) [
    | inl same ↦ rw same h.0
    | inr differs ↦ rw differs (find-IsBacked hash balances h.1)
  ]

  put-AllBacked :
      (hash : Text) (entry : TokenBalance T) (balances : TokenBalances T)
      → entry.balance ≡ values entry.utxos
      → AllBacked balances
      → AllBacked (put hash entry balances)
  unfolding put
  put-AllBacked hash entry [] e h = (e, tt)
  put-AllBacked hash entry ((other, old) ∷ balances) e h = elim (Bool-cases (text_eq other hash)) [
    | inl same ↦ rw same (e, h.1)
    | inr differs ↦ rw differs (h.0, put-AllBacked hash entry balances e h.1)
  ]

  add_txo-IsBacked :
      (txo : StoredTxo T) (value : ℕ) (entry : Option (TokenBalance T))
      → or_nothing txo.value ≡ value
      → IsBacked entry
      → (add_txo txo value entry).balance ≡ values (add_txo txo value entry).utxos
  unfolding add_txo
  add_txo-IsBacked txo value none e h = omega (arith, e)
  add_txo-IsBacked txo value (some entry) e h =
      omega (arith, e, h, values-append entry.utxos (txo ∷ []))

  module _ (token_data_hash : T → Result Text) (manager : Option Manager)
      (included : List Text) where
    add_balance-AllBacked :
        (out next : TokenBalances T) (txo : StoredTxo T)
        → AllBacked out
        → add_balance token_data_hash manager included out txo ≡ ok next
        → AllBacked next
    unfolding add_balance
    add_balance-AllBacked out next txo h e =
        let (value, worth, done) = >>=-eq-ok (required txo.value value_required) _ e in
        elim (Bool-cases (is_included manager included txo)) [
          | inl counted ↦
              let (hash, hashed, put_done) =
                >>=-eq-ok (token_hash_of token_data_hash txo) _ (rw counted at done) in
              let same : put hash (add_txo txo value (find hash out)) out ≡ next = cc in
              let held = ap or_nothing (required-eq-ok txo.value value_required worth) in
              subst AllBacked same (
                put-AllBacked hash (add_txo txo value (find hash out)) out
                  (add_txo-IsBacked txo value (find hash out) held (find-IsBacked hash out h)) h)
          | inr skipped ↦ subst AllBacked (cc (rw skipped at done)) h
        ]

    add_balances-AllBacked :
        (out last : TokenBalances T) (txos : List (StoredTxo T))
        → AllBacked out
        → add_balances token_data_hash manager included out txos ≡ ok last
        → AllBacked last
    unfolding add_balances
    add_balances-AllBacked out last [] h e = subst AllBacked (cc e) h
    add_balances-AllBacked out last (txo ∷ txos) h e =
        let (next, added, rest) =
          >>=-eq-ok (add_balance token_data_hash manager included out txo) _ e in
        add_balances-AllBacked next last txos (add_balance-AllBacked out next txo h added) rest

    -- The balance of a token that is computed from a list of UTXOs is the sum over the trees that
    -- its UTXOs are in.
    pub token_balance_across_all_trees-balance :
        (txos : List (StoredTxo T)) (balances : TokenBalances T) (hash : Text)
        (entry : TokenBalance T)
        → token_balances_from_txos token_data_hash txos manager included ≡ ok balances
        → find hash balances ≡ some entry
        → token_balance_across_all_trees (trees_from [] entry.utxos) ≡ entry.balance
    unfolding token_balances_from_txos token_balance_across_all_trees
    token_balance_across_all_trees-balance txos balances hash entry e held =
        let all = add_balances-AllBacked [] balances txos tt e in
        let backed : entry.balance ≡ values entry.utxos =
          subst IsBacked held (find-IsBacked hash balances all) in
        omega (arith, trees_from-sum [] entry.utxos, backed)
