-- ===== src/Transaction/Spending/Total.antt =====
-- pkg/transaction/solutions.go: the groups of `CreateSpendingSolutionsForValue` pay exactly the
-- amount, none pays out more than it takes in, and no UTXO is spent twice.
use mathlib.Core.Path.{subst}
use railgun_go.Common.{
  ℕ, zero, suc, ◌+◌, ◌-◌, ◌≤◌, min, ◌≡◌, ◌⊎◌, refl, ap, sym, leb, Option-cases, Result-cases,
  >>=-eq-ok, inl, inr, Bool, true, false, Option, none, some, List, [], ◌∷◌, ◌++◌, map, Text, All,
  All-Unit, All-map, All-append, ok, err, required, nil_pointer, arith,
}
use railgun_go.Common.Int.{ℤ-cases, pos, sub_ℕ, pos_part}
use railgun_go.Transaction.Solutions.{
  SolutionTxo, TreeBalance, or_nothing, calculate_total_spend, utxo_id_position, is_excluded,
  find_next_solution_batch,
}
use railgun_go.Transaction.Solutions.Select.{find_next_solution_batch-All}
use railgun_go.Transaction.Spending.{
  SolutionOutput, SpendingSolutionGroup, Solving, output_total, change_value,
  create_spending_solution_group, pay_change, spend_batch, spend_tree, spend_trees,
}

pub pos_part-sub_ℕ : (a b : ℕ) → pos_part (sub_ℕ a b) ≡ a - b
pos_part-sub_ℕ a b = ground arith

module _ {T : Type 0} where
  -- What a group gives to the first output.
  abbrev pub share : SpendingSolutionGroup T → ℕ
  share group =
      or_nothing group.unshield_value
      + elim group.token_outputs [ [] ↦ 0 | output ∷ outputs ↦ or_nothing output.value ]

  abbrev pub shares : List (SpendingSolutionGroup T) → ℕ
  shares [] = 0
  shares (group ∷ groups) = share group + shares groups

  shares-append :
      (gs hs : List (SpendingSolutionGroup T)) → shares (gs ++ hs) ≡ shares gs + shares hs
  shares-append [] hs = omega arith
  shares-append (g ∷ gs) hs = omega (arith, shares-append gs hs)

  -- What a group puts out beside its payment: nothing, or one output like the second of the call.
  abbrev pub IsChange : Option (SolutionOutput T) → List (SolutionOutput T) → Type 0
  IsChange secondary notes =
      (notes ≡ [])
      ⊎ ((output : SolutionOutput T) × (w : ℕ) × (secondary ≡ some output)
          × (notes ≡ (record output { value = some w }) ∷ []))

  -- What a group pays of the first output of the call: an amount of unshielded value and no output,
  -- or no unshielded value and first an output that differs from that one in its value at most. Its
  -- token is that of the first output.
  abbrev pub IsPayment :
      SolutionOutput T → Option (SolutionOutput T) → Bool → SpendingSolutionGroup T → Type 0
  IsPayment primary secondary true group =
      (group.token_data ≡ primary.token_data)
      × (v : ℕ) × (group.unshield_value ≡ some v)
      × (group.token_outputs ≡ [])
  IsPayment primary secondary false group =
      (group.token_data ≡ primary.token_data)
      × (v : ℕ) × (notes : List (SolutionOutput T)) × (group.unshield_value ≡ some 0)
      × (group.token_outputs ≡ (record primary { value = some v }) ∷ notes)
      × IsChange secondary notes

  -- The group pays out no more than it takes in.
  abbrev pub IsFunded : SpendingSolutionGroup T → Type 0
  IsFunded group = (change : ℕ) × (change_value group ≡ ok change)

  -- No UTXO of a group is excluded or in a group before.
  abbrev pub IsFresh : List Text → List (SpendingSolutionGroup T) → Type 0
  IsFresh excluded [] = Unit
  IsFresh excluded (group ∷ groups) =
      All (λ u. is_excluded excluded (utxo_id_position u) ≡ false) group.utxos
      × IsFresh (excluded ++ map utxo_id_position group.utxos) groups

  -- The excluded UTXOs, and those of the groups.
  abbrev pub with_groups : List Text → List (SpendingSolutionGroup T) → List Text
  with_groups excluded [] = excluded
  with_groups excluded (group ∷ groups) =
      with_groups (excluded ++ map utxo_id_position group.utxos) groups

  with_groups-append :
      (excluded : List Text) (gs : List (SpendingSolutionGroup T)) (g : SpendingSolutionGroup T)
      → with_groups excluded (gs ++ g ∷ [])
        ≡ with_groups excluded gs ++ map utxo_id_position g.utxos
  with_groups-append excluded [] g = refl
  with_groups-append excluded (h ∷ gs) g =
      with_groups-append (excluded ++ map utxo_id_position h.utxos) gs g

  IsFresh-append :
      (excluded : List Text) (gs : List (SpendingSolutionGroup T)) (g : SpendingSolutionGroup T)
      → IsFresh excluded gs
      → All (λ u. is_excluded (with_groups excluded gs) (utxo_id_position u) ≡ false) g.utxos
      → IsFresh excluded (gs ++ g ∷ [])
  IsFresh-append excluded [] g h a = (a, tt)
  IsFresh-append excluded (h ∷ gs) g (x, y) a =
      (x, IsFresh-append (excluded ++ map utxo_id_position h.utxos) gs g y a)

  change_value-IsFunded :
      (group : SpendingSolutionGroup T)
      → or_nothing group.unshield_value + output_total group.token_outputs
        ≤ calculate_total_spend group.utxos
      → IsFunded group
  unfolding change_value
  change_value-IsFunded group h =
      let fits : leb (or_nothing group.unshield_value + output_total group.token_outputs)
            (calculate_total_spend group.utxos)
          ≡ true =
        ground arith in
      (
        calculate_total_spend group.utxos
            - (or_nothing group.unshield_value + output_total group.token_outputs),
        rw (fits, change_value) refl,
      )

  -- What a group that is made for a value and UTXOs is.
  abbrev Pays :
      SolutionOutput T
      → Option (SolutionOutput T)
      → Bool
      → ℕ
      → List SolutionTxo
      → SpendingSolutionGroup T
      → Type 0
  Pays primary secondary is_unshield value utxos group =
      (share group ≡ value)
      × (group.utxos ≡ utxos)
      × IsFunded group
      × IsPayment primary secondary is_unshield group

  create_spending_solution_group-Pays :
      (primary : SolutionOutput T) (secondary : Option (SolutionOutput T)) (tree value : ℕ)
      (utxos : List SolutionTxo) (is_unshield : Bool)
      → value ≤ calculate_total_spend utxos
      → Pays primary secondary is_unshield value utxos
          (create_spending_solution_group primary tree value utxos is_unshield)
  unfolding create_spending_solution_group output_total
  create_spending_solution_group-Pays primary secondary tree value utxos true h =
      (omega arith, refl, change_value-IsFunded _ (omega (arith, h)), (refl, value, refl, refl))
  create_spending_solution_group-Pays primary secondary tree value utxos false h = (
    omega arith,
    refl,
    change_value-IsFunded _ (omega (arith, h)),
    (refl, value, [], refl, refl, inl refl),
  )

  pay_change-Pays :
      (primary : SolutionOutput T) (secondary : Option (SolutionOutput T)) (is_unshield : Bool)
      (change tree value : ℕ) (utxos : List SolutionTxo) (remaining rest : List (SolutionOutput T))
      (group : SpendingSolutionGroup T)
      → value + change ≤ calculate_total_spend utxos
      → pay_change primary secondary is_unshield change
          (create_spending_solution_group primary tree value utxos is_unshield)
          remaining
        ≡ ok (group, rest)
      → Pays primary secondary is_unshield value utxos group
  unfolding pay_change create_spending_solution_group output_total
  pay_change-Pays primary secondary is_unshield zero tree value utxos remaining rest group h e =
      let same : create_spending_solution_group primary tree value utxos is_unshield ≡ group = cc in
      subst (Pays primary secondary is_unshield value utxos) same (
        create_spending_solution_group-Pays primary secondary tree value utxos is_unshield
          (omega (arith, h)))
  pay_change-Pays primary none is_unshield (suc change) tree value utxos remaining rest group h e =
      let same : create_spending_solution_group primary tree value utxos is_unshield ≡ group = cc in
      subst (Pays primary none is_unshield value utxos) same (
        create_spending_solution_group-Pays primary none tree value utxos is_unshield
          (omega (arith, h)))
  pay_change-Pays primary (some output) true (suc change) tree value utxos remaining rest group h
        e =
      let same : create_spending_solution_group primary tree value utxos true ≡ group = cc in
      subst (Pays primary (some output) true value utxos) same (
        create_spending_solution_group-Pays primary (some output) tree value utxos true
          (omega (arith, h)))
  pay_change-Pays primary (some output) false (suc change) tree value utxos remaining rest group h
        e =
      let (note, found, paid) = >>=-eq-ok (required output.value nil_pointer) _ e in
      let same = ap (λ r. elim r [ ok p ↦ p.0 | err _ ↦ group ]) paid in
      subst (Pays primary (some output) false value utxos) same (
        omega arith,
        refl,
        change_value-IsFunded _ (omega (arith, h)),
        (refl, value, _, refl, refl, inr (output, min note (suc change), refl, refl)),
      )

  -- What holds between the rounds, for an amount and the UTXOs that were excluded before.
  pub record Invariant (primary : SolutionOutput T) (secondary : Option (SolutionOutput T))
      (is_unshield : Bool) (amount : ℕ) (excluded : List Text) (s : Solving T) : Type 0 where
    pub sums : shares s.groups + pos_part s.amount_to_fill ≡ amount
    pub payments : All (IsPayment primary secondary is_unshield) s.groups
    pub funded : All IsFunded s.groups
    pub fresh : IsFresh excluded s.groups
    pub spent : s.excluded ≡ with_groups excluded s.groups

  module _ (primary : SolutionOutput T) (secondary : Option (SolutionOutput T))
      (is_unshield : Bool) where
    spend_batch-Invariant :
        (amount tree n : ℕ) (excluded : List Text) (utxos : List SolutionTxo) (s t : Solving T)
        → Invariant primary secondary is_unshield amount excluded s
        → s.amount_to_fill ≡ pos n
        → All (λ u. is_excluded s.excluded (utxo_id_position u) ≡ false) utxos
        → spend_batch primary secondary is_unshield tree utxos n s ≡ ok t
        → Invariant primary secondary is_unshield amount excluded t
    unfolding spend_batch
    spend_batch-Invariant amount tree n excluded utxos s t i left all e =
        let total : ℕ = calculate_total_spend utxos in
        let ((group, rest), found, done) =
          >>=-eq-ok
            (pay_change primary secondary is_unshield (total - n)
              (create_spending_solution_group primary tree (min total n) utxos is_unshield) _)
            _ e in
        let (value, inputs, funded, payment) =
          pay_change-Pays primary secondary is_unshield (total - n) tree (min total n) utxos _ rest
            group (omega arith) found in
        let after : Solving T = record {
          amount_to_fill = sub_ℕ n total;
          groups = s.groups ++ group ∷ [];
          remaining = rest;
          excluded = s.excluded ++ map utxo_id_position utxos;
        } in
        let same : after ≡ t = cc in
        subst (Invariant primary secondary is_unshield amount excluded) same (record {
          sums =
              (let filled : pos_part s.amount_to_fill ≡ n = ap pos_part left in
                let whole = shares-append s.groups (group ∷ []) in
                omega (arith, whole, value, filled, i.sums, pos_part-sub_ℕ n total));
          payments =
              All-append (IsPayment primary secondary is_unshield) s.groups (group ∷ []) i.payments
                (payment, tt);
          funded = All-append IsFunded s.groups (group ∷ []) i.funded (funded, tt);
          fresh = IsFresh-append excluded s.groups group i.fresh (rw inputs (rw i.spent at all));
          spent = rw (i.spent, ← inputs) (sym (with_groups-append excluded s.groups group));
        })

    pub spend_tree-Invariant :
        (amount fuel tree : ℕ) (balance : TreeBalance) (excluded : List Text) (s t : Solving T)
        → Invariant primary secondary is_unshield amount excluded s
        → spend_tree primary secondary is_unshield fuel tree balance s ≡ some (ok t)
        → Invariant primary secondary is_unshield amount excluded t
    unfolding spend_tree
    spend_tree-Invariant amount zero tree balance excluded s t i e = cc
    spend_tree-Invariant amount (suc fuel) tree balance excluded s t i e =
        elim (ℤ-cases s.amount_to_fill) [
          | inl (n, left) ↦
              elim (Option-cases (find_next_solution_batch balance (suc n) s.excluded)) [
                | inl no_batch ↦
                    subst (Invariant primary secondary is_unshield amount excluded)
                      (cc (rw (left, spend_tree, no_batch) at e)) i
                | inr (utxos, batch) ↦
                    elim (Result-cases
                      (spend_batch primary secondary is_unshield tree utxos (suc n) s)) [
                        | inl (bad, failed) ↦ cc (rw (left, spend_tree, batch, failed) at e)
                        | inr (next, done) ↦
                            let (some_in, few, all) =
                              find_next_solution_batch-All (λ u. Unit) balance (suc n) s.excluded
                                utxos (All-Unit balance.utxos) batch in
                            spend_tree-Invariant amount fuel tree balance excluded next t
                              (spend_batch-Invariant amount tree (suc n) excluded utxos s next i
                                left (All-map _ _ (λ u h. h.1) utxos all) done)
                              (rw (left, spend_tree, batch, done) at e)
                      ]
              ]
          | inr full ↦ elim full [
            | inl nothing ↦
                subst (Invariant primary secondary is_unshield amount excluded)
                  (cc (rw nothing at e)) i
            | inr (n, below) ↦
                subst (Invariant primary secondary is_unshield amount excluded) (cc (rw below at e))
                  i
          ]
        ]

    pub spend_trees-Invariant :
        (amount fuel tree : ℕ) (balances : List TreeBalance) (excluded : List Text)
        (s t : Solving T)
        → Invariant primary secondary is_unshield amount excluded s
        → spend_trees primary secondary is_unshield fuel tree balances s ≡ some (ok t)
        → Invariant primary secondary is_unshield amount excluded t
    unfolding spend_trees
    spend_trees-Invariant amount fuel tree [] excluded s t i e =
        subst (Invariant primary secondary is_unshield amount excluded) (cc e) i
    spend_trees-Invariant amount fuel tree (balance ∷ balances) excluded s t i e =
        elim (Option-cases (spend_tree primary secondary is_unshield fuel tree balance s)) [
          | inl stuck ↦ cc (rw (spend_trees, stuck) at e)
          | inr (result, ran) ↦ elim (Result-cases result) [
            | inl (bad, failed) ↦ cc (rw (spend_trees, ran, failed) at e)
            | inr (next, done) ↦
                spend_trees-Invariant amount fuel (tree + 1) balances excluded next t
                  (spend_tree-Invariant amount fuel tree balance excluded s next i (rw done at ran))
                  (rw (spend_trees, ran, done) at e)
          ]
        ]
