-- ===== src/Transaction/Spending.antt =====
-- pkg/transaction/solutions.go: how the outputs of a transaction are split over groups of UTXOs, one
-- tree each. The token data, which the code only copies, is a parameter.
pub mod Total
pub mod Fuel
use railgun_go.Common.{
  ℕ, zero, suc, ◌+◌, ◌-◌, ltb, leb, ◌==◌, ◌&&◌, min, not, if◌then◌else◌, Bool, true, false, Option,
  none, some, List, [], ◌∷◌, ◌++◌, map, Text, codes, Result, ok, err, ◌>>=◌, ◌>>◌, required, guard,
  negative_change, nil_pointer, primary_value_required, balance_too_low, no_solutions,
}
use railgun_go.Common.Int.{ℤ, pos, negsuc, sub_ℕ, pos_part, neg_part}
use railgun_go.Transaction.Solutions.{
  SolutionTxo, TreeBalance, or_nothing, calculate_total_spend,
  find_exact_solutions_over_target_value, utxo_id_position, find_next_solution_batch,
}

pub record SimpleUtxoGroup : Type 0 where
  pub utxos : List SolutionTxo
  pub spending_tree : ℕ
  pub amount : ℕ

-- The last tree with a solution, and the solution.
unfoldable pub last_solution :
    List TreeBalance → Option ℕ → ℕ → Option (ℕ × List SolutionTxo) → Option (ℕ × List SolutionTxo)
last_solution [] required tree found = found
last_solution (balance ∷ balances) required tree found =
    last_solution balances required (tree + 1)
      (elim (find_exact_solutions_over_target_value balance required) [
        | none ↦ found
        | some solutions ↦ some (tree, solutions)
      ])

unfoldable pub create_simple_satisfying_utxo_group :
    List TreeBalance → Option ℕ → Result SimpleUtxoGroup
create_simple_satisfying_utxo_group balances amount_required = do
  found ← required (last_solution balances amount_required 0 none) no_solutions
  ok (record { utxos = found.1; spending_tree = found.0; amount = calculate_total_spend found.1 })

-- The UTXO that stands for an output of nothing.
abbrev null_utxo : SolutionTxo
null_utxo = record {
  id = codes "null";
  txid = codes "0x00";
  tree = 0;
  position = 100000;
  value = some 0;
}

module _ (T : Type 0) where
  pub record SolutionOutput : Type 0 where
    pub id : Text
    pub value : Option ℕ
    pub token_data : T

  pub record SpendingSolutionGroup : Type 0 where
    pub spending_tree : ℕ
    pub utxos : List SolutionTxo
    pub token_outputs : List SolutionOutput
    pub unshield_value : Option ℕ
    pub token_data : T

  -- The variables of `CreateSpendingSolutionsForValue`.
  pub record Solving : Type 0 where
    pub amount_to_fill : ℤ
    pub groups : List (SpendingSolutionGroup)
    pub remaining : List (SolutionOutput)
    pub excluded : List Text

  -- The groups, the outputs that remain and the excluded UTXOs.
  abbrev pub Spent : Type 0
  Spent = List (SpendingSolutionGroup) × List (SolutionOutput) × List Text

module _ {T : Type 0} where
  unfoldable pub output_total : List (SolutionOutput T) → ℕ
  output_total [] = 0
  output_total (output ∷ outputs) = or_nothing output.value + output_total outputs

  -- `z.Sub` of two amounts, with the error on a negative one.
  unfoldable pub change_value : SpendingSolutionGroup T → Result ℕ
  change_value group =
      let total_in = calculate_total_spend group.utxos in
      let total_out = or_nothing group.unshield_value + output_total group.token_outputs in
      elim (sub_ℕ total_in total_out) [ pos change ↦ ok change | negsuc _ ↦ err negative_change ]

  unfoldable pub create_spending_solution_group :
      SolutionOutput T → ℕ → ℕ → List SolutionTxo → Bool → SpendingSolutionGroup T
  create_spending_solution_group output tree solution_value utxos true = record {
    spending_tree = tree;
    utxos = utxos;
    token_outputs = [];
    unshield_value = some solution_value;
    token_data = output.token_data;
  }
  create_spending_solution_group output tree solution_value utxos false = record {
    spending_tree = tree;
    utxos = utxos;
    token_outputs = (record output { value = some solution_value }) ∷ [];
    unshield_value = some 0;
    token_data = output.token_data;
  }

  -- An amount that is not positive removes the first output.
  unfoldable pub replace_or_remove_remaining_output :
      List (SolutionOutput T) → ℤ → List (SolutionOutput T)
  replace_or_remove_remaining_output [] amount_to_fill = []
  replace_or_remove_remaining_output (deleted ∷ remaining) (pos (suc n)) =
      (record deleted { value = some (suc n) }) ∷ remaining
  replace_or_remove_remaining_output (deleted ∷ remaining) _ = remaining

  module _ (primary : SolutionOutput T) (secondary : Option (SolutionOutput T))
      (is_unshield : Bool) where
    -- Change goes to the second output, if there is one. A nil value there is dereferenced.
    unfoldable pub pay_change :
        ℕ
        → SpendingSolutionGroup T
        → List (SolutionOutput T)
        → Result (SpendingSolutionGroup T × List (SolutionOutput T))
    pay_change zero group remaining = ok (group, remaining)
    pay_change (suc change) group remaining = elim secondary [
      | none ↦ ok (group, remaining)
      | some output ↦ if is_unshield then ok (group, remaining) else (do
        value ← required output.value nil_pointer
        let note : SolutionOutput T = record output { value = some (min value (suc change)) }
        ok (
          record group { token_outputs = group.token_outputs ++ note ∷ [] },
          replace_or_remove_remaining_output remaining (pos (value - min value (suc change))),
        ))
    ]

    -- One round of the inner loop, with the batch that was found.
    unfoldable pub spend_batch : ℕ → List SolutionTxo → ℕ → Solving T → Result (Solving T)
    spend_batch tree utxos amount s = do
      let total : ℕ = calculate_total_spend utxos
      let left : ℤ = sub_ℕ amount total
      let group : SpendingSolutionGroup T =
          create_spending_solution_group primary tree (min total amount) utxos is_unshield
      paid ← pay_change (total - amount) group (replace_or_remove_remaining_output s.remaining left)
      ok (record {
        amount_to_fill = left;
        groups = s.groups ++ paid.0 ∷ [];
        remaining = paid.1;
        excluded = s.excluded ++ map utxo_id_position utxos;
      })

    -- The inner loop, on fuel. `none` means that it ran out.
    unfoldable pub spend_tree : ℕ → ℕ → TreeBalance → Solving T → Option (Result (Solving T))
    spend_tree zero tree balance s = none
    spend_tree (suc fuel) tree balance s = elim s.amount_to_fill [
      | negsuc n ↦ some (ok s)
      | pos zero ↦ some (ok s)
      | pos (suc n) ↦ elim (find_next_solution_batch balance (suc n) s.excluded) [
        | none ↦ some (ok s)
        | some utxos ↦ elim (spend_batch tree utxos (suc n) s) [
          | err e ↦ some (err e)
          | ok t ↦ spend_tree fuel tree balance t
        ]
      ]
    ]

    unfoldable pub spend_trees : ℕ → ℕ → List TreeBalance → Solving T → Option (Result (Solving T))
    spend_trees fuel tree [] s = some (ok s)
    spend_trees fuel tree (balance ∷ balances) s = elim (spend_tree fuel tree balance s) [
      | none ↦ none
      | some (err e) ↦ some (err e)
      | some (ok t) ↦ spend_trees fuel (tree + 1) balances t
    ]

  abbrev pub started : SolutionOutput T → List (SolutionOutput T) → List Text → ℕ → Solving T
  started primary others excluded amount = record {
    amount_to_fill = pos amount;
    groups = [];
    remaining = primary ∷ others;
    excluded = excluded;
  }

  abbrev pub second : List (SolutionOutput T) → Option (SolutionOutput T)
  second [] = none
  second (output ∷ outputs) = some output

  abbrev pub filled : Solving T → Result (Spent T)
  filled s =
      if ltb 0 (pos_part s.amount_to_fill)
      then err balance_too_low
      else ok (s.groups, s.remaining, s.excluded)

  abbrev pub finish : Option (Result (Solving T)) → Option (Result (Spent T))
  finish none = none
  finish (some (err e)) = some (err e)
  finish (some (ok s)) = some (filled s)

  -- `CreateSpendingSolutionsForValue`. The fuel bounds the rounds in one tree.
  unfoldable pub create_spending_solutions_for_value :
      ℕ → List TreeBalance → List (SolutionOutput T) → List Text → Bool → Option (Result (Spent T))
  create_spending_solutions_for_value fuel balances [] excluded is_unshield =
      some (ok ([], [], excluded))
  create_spending_solutions_for_value fuel balances (primary ∷ others) excluded is_unshield =
      elim primary.value [
        | none ↦ some (err primary_value_required)
        | some zero ↦
            let group = create_spending_solution_group primary 0 0 (null_utxo ∷ []) is_unshield in
            some (
              ok (
                group ∷ [],
                replace_or_remove_remaining_output (primary ∷ others) (pos 0),
                excluded,
              ))
        | some (suc n) ↦ finish (
            spend_trees primary (second others) is_unshield fuel 0 balances
              (started primary others excluded (suc n)))
      ]
