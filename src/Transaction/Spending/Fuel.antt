-- ===== src/Transaction/Spending/Fuel.antt =====
-- pkg/transaction/solutions.go: the rounds that `CreateSpendingSolutionsForValue` takes, and what it
-- returns.
use mathlib.Core.Path.{subst}
use railgun_go.Common.{
  ℕ, zero, suc, ◌+◌, ◌-◌, ◌<◌, ◌≤◌, min, ◌≡◌, refl, ap, sym, ◌∙◌, ltb, Bool-cases, Option-cases,
  Result-cases, >>=-eq-ok, inl, inr, Bool, Option, some, List, [], ◌∷◌, Text, length, All, All-Unit,
  Result, ok, err, arith,
}
use railgun_go.Common.Int.{ℤ-cases, sub_ℕ, pos_part}
use railgun_go.Transaction.Solutions.{
  SolutionTxo, TreeBalance, or_nothing, calculate_total_spend, find_next_solution_batch,
}
use railgun_go.Transaction.Solutions.Select.{find_next_solution_batch-All}
use railgun_go.Transaction.Spending.{
  SolutionOutput, SpendingSolutionGroup, Solving, pay_change, create_spending_solution_group,
  spend_batch, spend_tree, spend_trees, Spent, filled, started, second,
  create_spending_solutions_for_value,
}
use railgun_go.Transaction.Spending.Total.{
  Invariant, IsPayment, IsFunded, IsFresh, shares, with_groups, pos_part-sub_ℕ,
  spend_tree-Invariant, spend_trees-Invariant,
}

calculate_total_spend-positive :
    (utxos : List SolutionTxo) (P Q : SolutionTxo → Type 0)
    → 1 ≤ length utxos
    → All (λ u. (P u × (1 ≤ or_nothing u.value)) × Q u) utxos
    → 1 ≤ calculate_total_spend utxos
unfolding calculate_total_spend
calculate_total_spend-positive [] P Q h all = absurd (omega (arith, h))
calculate_total_spend-positive (u ∷ us) P Q h all = omega (arith, all.0.0.1)

module _ {T : Type 0} (primary : SolutionOutput T) (secondary : Option (SolutionOutput T))
    (is_unshield : Bool) where
  spend_batch-amount :
      (tree n : ℕ) (utxos : List SolutionTxo) (s t : Solving T)
      → spend_batch primary secondary is_unshield tree utxos n s ≡ ok t
      → t.amount_to_fill ≡ sub_ℕ n (calculate_total_spend utxos)
  unfolding spend_batch
  spend_batch-amount tree n utxos s t e =
      let (paid, found, done) =
        >>=-eq-ok
          (pay_change primary secondary is_unshield (calculate_total_spend utxos - n)
            (create_spending_solution_group primary tree (min (calculate_total_spend utxos) n) utxos
              is_unshield)
            _)
          _ e in
      ap (λ r. elim r [ ok u ↦ u.amount_to_fill | err _ ↦ t.amount_to_fill ]) (sym done)

  spend_tree-total :
      (fuel tree : ℕ) (balance : TreeBalance) (s : Solving T)
      → pos_part s.amount_to_fill < fuel
      → (result : Result (Solving T)) × (spend_tree primary secondary is_unshield fuel tree balance
            s
          ≡ some result)
  unfolding spend_tree
  spend_tree-total zero tree balance s h = absurd (omega (arith, h))
  spend_tree-total (suc fuel) tree balance s h = elim (ℤ-cases s.amount_to_fill) [
    | inl (n, left) ↦ elim (Option-cases (find_next_solution_batch balance (suc n) s.excluded)) [
      | inl no_batch ↦ (
        ok s,
        rw (left, spend_tree, no_batch)
            (ap (λ a. some (ok (record s { amount_to_fill = a }))) left),
      )
      | inr (utxos, batch) ↦
          elim (Result-cases (spend_batch primary secondary is_unshield tree utxos (suc n) s)) [
            | inl (bad, failed) ↦ (err bad, rw (left, spend_tree, batch, failed) refl)
            | inr (next, done) ↦
                let (some_in, few, all) =
                  find_next_solution_batch-All (λ u. Unit) balance (suc n) s.excluded utxos
                    (All-Unit balance.utxos) batch in
                let worth = calculate_total_spend-positive utxos _ _ some_in all in
                let before : pos_part s.amount_to_fill ≡ suc n = ap pos_part left in
                let after : pos_part next.amount_to_fill ≡ suc n - calculate_total_spend utxos =
                  ap pos_part (spend_batch-amount tree (suc n) utxos s next done)
                  ∙ pos_part-sub_ℕ (suc n) (calculate_total_spend utxos) in
                let (result, ran) =
                  spend_tree-total fuel tree balance next
                    (omega (arith, h, before, after, worth)) in
                (result, rw (left, spend_tree, batch, done) ran)
          ]
    ]
    | inr full ↦ elim full [
      | inl nothing ↦ (
        ok s,
        rw (nothing, spend_tree) (ap (λ a. some (ok (record s { amount_to_fill = a }))) nothing),
      )
      | inr (n, below) ↦ (
        ok s,
        rw (below, spend_tree) (ap (λ a. some (ok (record s { amount_to_fill = a }))) below),
      )
    ]
  ]

  spend_trees-total :
      (amount fuel tree : ℕ) (balances : List TreeBalance) (excluded : List Text) (s : Solving T)
      → Invariant primary secondary is_unshield amount excluded s
      → amount < fuel
      → (result : Result (Solving T)) × (spend_trees primary secondary is_unshield fuel tree
            balances s
          ≡ some result)
  unfolding spend_trees
  spend_trees-total amount fuel tree [] excluded s i h = (ok s, refl)
  spend_trees-total amount fuel tree (balance ∷ balances) excluded s i h =
      let (result, ran) = spend_tree-total fuel tree balance s (omega (arith, h, i.sums)) in
      elim (Result-cases result) [
        | inl (bad, failed) ↦ (err bad, rw (spend_trees, ran, failed) refl)
        | inr (next, done) ↦
            let (last, rest) =
              spend_trees-total amount fuel (tree + 1) balances excluded next
                (spend_tree-Invariant primary secondary is_unshield amount fuel tree balance
                  excluded s next i (rw done at ran))
                h in
            (last, rw (spend_trees, ran, done) rest)
      ]

module _ {T : Type 0} (primary : SolutionOutput T) (others : List (SolutionOutput T))
    (excluded : List Text) (is_unshield : Bool) (balances : List TreeBalance) (n : ℕ)
    (asked : primary.value ≡ some (suc n)) where
  started-Invariant :
      Invariant primary
        (second others)
        is_unshield
        (suc n)
        excluded
        (started primary others excluded (suc n))
  started-Invariant = record {
    sums = omega arith;
    payments = tt;
    funded = tt;
    fresh = tt;
    spent = refl;
  }

  -- With more fuel than the amount that is asked for, the loops of
  -- `CreateSpendingSolutionsForValue` end.
  pub create_spending_solutions_for_value-total :
      (fuel : ℕ)
      → suc n < fuel
      → (result : Result (Spent T)) × (create_spending_solutions_for_value fuel balances
            (primary ∷ others)
            excluded
            is_unshield
          ≡ some result)
  unfolding create_spending_solutions_for_value
  create_spending_solutions_for_value-total fuel h =
      let (result, ran) =
        spend_trees-total primary (second others) is_unshield (suc n) fuel 0 balances excluded
          (started primary others excluded (suc n)) started-Invariant h in
      elim (Result-cases result) [
        | inl (bad, failed) ↦ (err bad, rw (asked, ran, failed) refl)
        | inr (s, done) ↦ (filled s, rw (asked, ran, done) refl)
      ]

  -- When `CreateSpendingSolutionsForValue` succeeds on a positive amount, each group pays a part
  -- of the first output, as unshielded value alone if that is asked for and else by an output that
  -- differs from it in the value only, with at most one output of change like the second; the
  -- parts add up to exactly that amount, each group takes in what it pays out or more, and no UTXO
  -- is spent that was excluded or by two groups.
  pub create_spending_solutions_for_value-pays :
      (fuel : ℕ) (groups : List (SpendingSolutionGroup T)) (remaining : List (SolutionOutput T))
      (spent : List Text)
      → create_spending_solutions_for_value fuel balances (primary ∷ others) excluded is_unshield
        ≡ some (ok (groups, remaining, spent))
      → (shares groups ≡ suc n)
        × All (IsPayment primary (second others) is_unshield) groups
        × All IsFunded groups
        × IsFresh excluded groups
        × (spent ≡ with_groups excluded groups)
  unfolding create_spending_solutions_for_value
  create_spending_solutions_for_value-pays fuel groups remaining spent e =
      elim (Option-cases (
        spend_trees primary (second others) is_unshield fuel 0 balances
          (started primary others excluded (suc n)))) [
            | inl stuck ↦ cc (rw (asked, stuck) at e)
            | inr (result, ran) ↦ elim (Result-cases result) [
              | inl (bad, failed) ↦ cc (rw (asked, ran, failed) at e)
              | inr (s, done) ↦
                  let i =
                    spend_trees-Invariant primary (second others) is_unshield (suc n) fuel 0
                      balances excluded (started primary others excluded (suc n)) s
                      started-Invariant (rw done at ran) in
                  elim (Bool-cases (ltb 0 (pos_part s.amount_to_fill))) [
                    | inl short ↦ cc (rw (asked, ran, done, short) at e)
                    | inr paid ↦
                        let same : Path (Spent T) (s.groups, s.remaining, s.excluded)
                            (groups, remaining, spent) =
                          cc (rw (asked, ran, done, paid) at e) in
                        subst
                          (λ r.
                            (shares r.0 ≡ suc n)
                            × All (IsPayment primary (second others) is_unshield) r.0
                            × All IsFunded r.0
                            × IsFresh excluded r.0
                            × (r.2 ≡ with_groups excluded r.0))
                          same
                          (ground (arith, i.sums, paid), i.payments, i.funded, i.fresh, i.spent)
                  ]
            ]
          ]
