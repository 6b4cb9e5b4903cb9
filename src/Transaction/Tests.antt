-- ===== src/Transaction/Tests.antt =====
-- The theorems on the selection of UTXOs at concrete inputs.
use railgun_go.Common.{
  ℕ, ◌≤◌, ◌≡◌, refl, false, some, [], ◌∷◌, codes, text_eq, All, Result, ok, arith,
}
use railgun_go.Transaction.Solutions.{
  SolutionTxo, TreeBalance, or_nothing, calculate_total_spend, utxo_id_position, is_excluded,
  find_exact_solutions_over_target_value, find_next_solution_batch, solutions_over,
  filter_zero_utxos, find_exact, sort_utxos_by_ascending_value, insert_by_value, select_loop,
  decimal_digits, drop_excluded, batch_of, batch_loop, should_add_more, next_nullifier_target,
  next_valid,
}
use railgun_go.Transaction.Solutions.Select.{
  find_next_solution_batch-All, find_exact_solutions_over_target_value-All,
}
use railgun_go.Transaction.Spending.{
  SolutionOutput, SpendingSolutionGroup, Spent, create_spending_solutions_for_value,
  create_simple_satisfying_utxo_group, last_solution, spend_trees, spend_tree, spend_batch,
  pay_change, create_spending_solution_group, replace_or_remove_remaining_output,
}
use railgun_go.Transaction.Spending.Total.{IsPayment, IsFunded, IsFresh, shares, with_groups}
use railgun_go.Transaction.Spending.Fuel.{
  create_spending_solutions_for_value-total, create_spending_solutions_for_value-pays,
}

abbrev utxo : ℕ → ℕ → SolutionTxo
utxo position value = record {
  id = [];
  txid = codes "0x01";
  tree = 0;
  position = position;
  value = some value;
}

abbrev tree : TreeBalance
tree = record { balance = some 12; utxos = utxo 0 5 ∷ utxo 1 3 ∷ utxo 2 4 ∷ [] }

abbrev poor_tree : TreeBalance
poor_tree = record { balance = some 2; utxos = utxo 3 2 ∷ [] }

abbrev output : ℕ → SolutionOutput ℕ
output value = record { id = []; value = some value; token_data = 0 }

batch : find_next_solution_batch tree 6 (codes "0x01-1" ∷ []) ≡ some (utxo 2 4 ∷ utxo 0 5 ∷ [])
unfolding find_next_solution_batch filter_zero_utxos drop_excluded batch_of find_exact batch_loop
    sort_utxos_by_ascending_value insert_by_value should_add_more next_nullifier_target next_valid
    utxo_id_position decimal_digits is_excluded calculate_total_spend text_eq
batch = refl

find_next_solution_batch-All_example :
    (1 ≤ 2)
    × (2 ≤ 10)
    × All
        (λ u.
          ((u.txid ≡ codes "0x01") × (1 ≤ or_nothing u.value))
          × (is_excluded (codes "0x01-1" ∷ []) (utxo_id_position u) ≡ false))
        (utxo 2 4 ∷ utxo 0 5 ∷ [])
find_next_solution_batch-All_example =
    find_next_solution_batch-All (λ u. u.txid ≡ codes "0x01") tree 6 (codes "0x01-1" ∷ [])
      (utxo 2 4 ∷ utxo 0 5 ∷ []) (refl, (refl, (refl, tt))) batch

solution : find_exact_solutions_over_target_value tree (some 6) ≡ some (utxo 1 3 ∷ utxo 2 4 ∷ [])
unfolding find_exact_solutions_over_target_value solutions_over filter_zero_utxos find_exact
    select_loop sort_utxos_by_ascending_value insert_by_value calculate_total_spend
solution = refl

find_exact_solutions_over_target_value-All_example :
    (6 ≤ calculate_total_spend (utxo 1 3 ∷ utxo 2 4 ∷ []))
    × (1 ≤ 2)
    × (2 ≤ 10)
    × All (λ u. (u.txid ≡ codes "0x01") × (1 ≤ or_nothing u.value)) (utxo 1 3 ∷ utxo 2 4 ∷ [])
find_exact_solutions_over_target_value-All_example =
    find_exact_solutions_over_target_value-All (λ u. u.txid ≡ codes "0x01") tree 12 6
      (utxo 1 3 ∷ utxo 2 4 ∷ []) (refl, (refl, (refl, tt))) refl (omega arith) solution

-- A tree whose balance is too low comes out as a solution, and an empty one: here it replaces the
-- solution of the tree before.
lost_solution :
    create_simple_satisfying_utxo_group (tree ∷ poor_tree ∷ []) (some 6)
    ≡ ok (record { utxos = []; spending_tree = 1; amount = 0 })
unfolding create_simple_satisfying_utxo_group last_solution find_exact_solutions_over_target_value
    solutions_over filter_zero_utxos find_exact select_loop sort_utxos_by_ascending_value
    insert_by_value calculate_total_spend
lost_solution = refl

create_spending_solutions_for_value-total_example :
    (result : Result (Spent ℕ)) × (create_spending_solutions_for_value 8
        (tree ∷ [])
        (output 6 ∷ output 2 ∷ [])
        []
        false
      ≡ some result)
create_spending_solutions_for_value-total_example =
    create_spending_solutions_for_value-total (output 6) (output 2 ∷ []) [] false (tree ∷ []) 5 refl
      8 (omega arith)

abbrev group : SpendingSolutionGroup ℕ
group = record {
  spending_tree = 0;
  utxos = utxo 1 3 ∷ utxo 2 4 ∷ [];
  token_outputs = output 6 ∷ output 1 ∷ [];
  unshield_value = some 0;
  token_data = 0;
}

spent :
    create_spending_solutions_for_value 8 (tree ∷ []) (output 6 ∷ output 2 ∷ []) [] false
    ≡ some (ok (group ∷ [], output 1 ∷ [], codes "0x01-1" ∷ codes "0x01-2" ∷ []))
unfolding create_spending_solutions_for_value spend_trees spend_tree spend_batch pay_change
    create_spending_solution_group replace_or_remove_remaining_output find_next_solution_batch
    filter_zero_utxos drop_excluded batch_of find_exact batch_loop sort_utxos_by_ascending_value
    insert_by_value should_add_more next_nullifier_target next_valid utxo_id_position decimal_digits
    is_excluded calculate_total_spend text_eq
spent = refl

create_spending_solutions_for_value-pays_example :
    (shares (group ∷ []) ≡ 6)
    × All (IsPayment (output 6) (some (output 2)) false) (group ∷ [])
    × All IsFunded (group ∷ [])
    × IsFresh [] (group ∷ [])
    × (codes "0x01-1" ∷ codes "0x01-2" ∷ [] ≡ with_groups [] (group ∷ []))
create_spending_solutions_for_value-pays_example =
    create_spending_solutions_for_value-pays (output 6) (output 2 ∷ []) [] false (tree ∷ []) 5 refl
      8 (group ∷ []) (output 1 ∷ []) (codes "0x01-1" ∷ codes "0x01-2" ∷ []) spent
