-- ===== src/Transaction/Solutions/Select.antt =====
-- pkg/transaction/solutions.go: what a selection of UTXOs consists of.
use mathlib.Core.Path.{subst}
use railgun_go.Common.{
  ℕ, ◌≤◌, ◌≡◌, refl, ltb, ◌==◌, Bool-cases, Option-cases, inl, inr, false, some, List, [], ◌∷◌,
  ◌++◌, Text, length, All, All-append, arith,
}
use railgun_go.Transaction.Solutions.{
  SolutionTxo, TreeBalance, or_nothing, calculate_total_spend, filter_zero_utxos, insert_by_value,
  sort_utxos_by_ascending_value, find_exact, select_loop, selected_over, solutions_over,
  find_exact_solutions_over_target_value, utxo_id_position, is_excluded, drop_excluded, batch_loop,
  should_add_more, valid_nullifier_counts, valid_batch, batch_of, find_next_solution_batch,
}

module _ (P : SolutionTxo → Type 0) where
  insert_by_value-All :
      (u : SolutionTxo) (us : List SolutionTxo) → P u → All P us → All P (insert_by_value u us)
  unfolding insert_by_value
  insert_by_value-All u [] p h = (p, tt)
  insert_by_value-All u (v ∷ vs) p h =
      elim (Bool-cases (ltb (or_nothing v.value) (or_nothing u.value))) [
        | inl later ↦ rw later (h.0, insert_by_value-All u vs p h.1)
        | inr here ↦ rw here (p, h)
      ]

  sort-All : (us : List SolutionTxo) → All P us → All P (sort_utxos_by_ascending_value us)
  unfolding sort_utxos_by_ascending_value
  sort-All [] h = tt
  sort-All (u ∷ us) h =
      insert_by_value-All u (sort_utxos_by_ascending_value us) h.0 (sort-All us h.1)

  find_exact-All :
      (us : List SolutionTxo) (required : ℕ) (u : SolutionTxo)
      → All P us
      → find_exact us required ≡ some u
      → P u × (or_nothing u.value ≡ required)
  unfolding find_exact
  find_exact-All [] required u h e = cc
  find_exact-All (v ∷ vs) required u h e = elim (Bool-cases (or_nothing v.value == required)) [
    | inl same ↦
        let found : v ≡ u = cc (rw same at e) in
        subst (λ w. P w × (or_nothing w.value ≡ required)) found (h.0, ground arith)
    | inr other ↦ find_exact-All vs required u h.1 (rw other at e)
  ]

  select_loop-All :
      (required : ℕ) (selected us : List SolutionTxo)
      → All P selected
      → All P us
      → All P (select_loop required selected us)
  unfolding select_loop
  select_loop-All required selected [] s h = s
  select_loop-All required selected (u ∷ us) s h =
      elim (Bool-cases (ltb (calculate_total_spend selected) required)) [
        | inl more ↦ rw more (
            select_loop-All required (selected ++ u ∷ []) us
              (All-append P selected (u ∷ []) s (h.0, tt)) h.1)
        | inr enough ↦ rw enough s
      ]

  batch_loop-All :
      (total required : ℕ) (selected us : List SolutionTxo)
      → All P selected
      → All P us
      → All P (batch_loop total required selected us)
  unfolding batch_loop
  batch_loop-All total required selected [] s h = s
  batch_loop-All total required selected (u ∷ us) s h =
      elim (Bool-cases
        (should_add_more (length selected) total (calculate_total_spend selected) required)) [
          | inl more ↦ rw more (
              batch_loop-All total required (selected ++ u ∷ []) us
                (All-append P selected (u ∷ []) s (h.0, tt)) h.1)
          | inr enough ↦ rw enough s
        ]

  valid_batch-All :
      (selected utxos : List SolutionTxo)
      → All P selected
      → valid_batch selected ≡ some utxos
      → (1 ≤ length utxos) × (length utxos ≤ 10) × All P utxos × (selected ≡ utxos)
  valid_batch-All selected utxos h e =
      elim (Bool-cases (valid_nullifier_counts (length selected))) [
        | inl valid ↦
            let same : selected ≡ utxos = cc (rw valid at e) in
            rw (← same) (ground arith, ground arith, h, refl)
        | inr invalid ↦ cc (rw invalid at e)
      ]

  batch_of-All :
      (us : List SolutionTxo) (required : ℕ) (utxos : List SolutionTxo)
      → All P us
      → batch_of us required ≡ some utxos
      → (1 ≤ length utxos) × (length utxos ≤ 10) × All P utxos
  unfolding batch_of
  batch_of-All [] required utxos h e = cc
  batch_of-All (v ∷ vs) required utxos h e = elim (Option-cases (find_exact (v ∷ vs) required)) [
    | inl none_exact ↦
        let (some_in, few, all, same) =
          valid_batch-All _ utxos
            (batch_loop-All (length (v ∷ vs)) required [] (sort_utxos_by_ascending_value (v ∷ vs))
              tt (sort-All (v ∷ vs) h))
            (rw none_exact at e) in
        (some_in, few, all)
    | inr (u, exact) ↦
        let same : u ∷ [] ≡ utxos = cc (rw exact at e) in
        rw (← same) (omega arith, omega arith, ((find_exact-All (v ∷ vs) required u h exact).0, tt))
  ]

  filter_zero_utxos-All :
      (us : List SolutionTxo)
      → All P us
      → All (λ u. P u × (1 ≤ or_nothing u.value)) (filter_zero_utxos us)
  unfolding filter_zero_utxos
  filter_zero_utxos-All [] h = tt
  filter_zero_utxos-All (u ∷ us) h = elim (Bool-cases (or_nothing u.value == 0)) [
    | inl nothing ↦ rw nothing (filter_zero_utxos-All us h.1)
    | inr worth ↦ rw worth ((h.0, ground arith), filter_zero_utxos-All us h.1)
  ]

  drop_excluded-All :
      (excluded : List Text) (us : List SolutionTxo)
      → All P us
      → All
          (λ u. P u × (is_excluded excluded (utxo_id_position u) ≡ false))
          (drop_excluded excluded us)
  unfolding drop_excluded
  drop_excluded-All excluded [] h = tt
  drop_excluded-All excluded (u ∷ us) h =
      elim (Bool-cases (is_excluded excluded (utxo_id_position u))) [
        | inl out ↦ rw out (drop_excluded-All excluded us h.1)
        | inr in_it ↦ rw in_it ((h.0, in_it), drop_excluded-All excluded us h.1)
      ]

module _ (P : SolutionTxo → Type 0) where
  -- A batch has between one and ten UTXOs, and each is one of the tree's (it has every property
  -- that all of the tree's have), is worth something, and is not excluded.
  pub find_next_solution_batch-All :
      (tree : TreeBalance) (required : ℕ) (excluded : List Text) (utxos : List SolutionTxo)
      → All P tree.utxos
      → find_next_solution_batch tree required excluded ≡ some utxos
      → (1 ≤ length utxos)
        × (length utxos ≤ 10)
        × All
            (λ u.
              (P u × (1 ≤ or_nothing u.value))
              × (is_excluded excluded (utxo_id_position u) ≡ false))
            utxos
  unfolding find_next_solution_batch
  find_next_solution_batch-All tree required excluded utxos h e =
      batch_of-All _ (drop_excluded excluded (filter_zero_utxos tree.utxos)) required utxos
        (drop_excluded-All _ excluded (filter_zero_utxos tree.utxos)
          (filter_zero_utxos-All P tree.utxos h))
        e

  selected_over-All :
      (required : ℕ) (selected utxos : List SolutionTxo)
      → All P selected
      → selected_over required selected ≡ some utxos
      → (required ≤ calculate_total_spend utxos)
        × (1 ≤ length utxos)
        × (length utxos ≤ 10)
        × All P utxos
  selected_over-All required selected utxos h e =
      elim (Bool-cases (ltb (calculate_total_spend selected) required)) [
        | inl low ↦ cc (rw low at e)
        | inr enough ↦
            let (some_in, few, all, same) = valid_batch-All P selected utxos h (rw enough at e) in
            (rw (← same) (ground arith), some_in, few, all)
      ]

  solutions_over-All :
      (us : List SolutionTxo) (required : ℕ) (utxos : List SolutionTxo)
      → All P us
      → solutions_over us required ≡ some utxos
      → (required ≤ calculate_total_spend utxos)
        × (1 ≤ length utxos)
        × (length utxos ≤ 10)
        × All P utxos
  unfolding solutions_over calculate_total_spend
  solutions_over-All us required utxos h e = elim (Option-cases (find_exact us required)) [
    | inl none_exact ↦
        selected_over-All required _ utxos
          (select_loop-All P required [] (sort_utxos_by_ascending_value us) tt (sort-All P us h))
          (rw none_exact at e)
    | inr (u, exact) ↦
        let same : u ∷ [] ≡ utxos = cc (rw exact at e) in
        let (p, worth) = find_exact-All P us required u h exact in
        rw (← same) (omega (arith, worth), omega arith, omega arith, (p, tt))
  ]

module _ (P : SolutionTxo → Type 0) where
  -- Where the balance of a tree covers the amount, a solution has between one and ten of the
  -- tree's UTXOs, each worth something, and together they are worth the amount or more.
  pub find_exact_solutions_over_target_value-All :
      (tree : TreeBalance) (balance required : ℕ) (utxos : List SolutionTxo)
      → All P tree.utxos
      → tree.balance ≡ some balance
      → required ≤ balance
      → find_exact_solutions_over_target_value tree (some required) ≡ some utxos
      → (required ≤ calculate_total_spend utxos)
        × (1 ≤ length utxos)
        × (length utxos ≤ 10)
        × All (λ u. P u × (1 ≤ or_nothing u.value)) utxos
  unfolding find_exact_solutions_over_target_value
  find_exact_solutions_over_target_value-All tree balance required utxos h held covers e =
      let high : ltb balance required ≡ false = ground arith in
      solutions_over-All (λ u. P u × (1 ≤ or_nothing u.value)) (filter_zero_utxos tree.utxos)
        required utxos (filter_zero_utxos-All P tree.utxos h) (rw (held, high) at e)
