-- ===== src/Wallet/Rollback/Each.antt =====
-- pkg/wallet/sync.go: what a rollback leaves of each kind of store.
use mathlib.Core.Path.{subst}
use railgun_go.Common.{
  ℕ, ◌<◌, leb, ◌≡◌, refl, true, false, Bool, Bool-cases, Option-cases, inl, inr, Option, none, some,
  [], ◌∷◌, arith,
}
use railgun_go.Common.Map
use railgun_go.Common.Map.{Map}
use railgun_go.Common.TextMap.{TextMap, change_entries}
use railgun_go.Common.Trees.{filter_trees, keep_tree}
use railgun_go.Wallet.State.{StoredTxo, at_or_after, rolled_back, spent_by}

-- Each value of a map.
abbrev pub Each {ℓ} : {V : Type ℓ} → (V → Type 0) → TextMap V → Type 0
Each P [] = Unit
Each P ((key, value) ∷ entries) = P value × Each P entries

pub change_entries-Each {ℓ} :
    {V : Type ℓ} (P : V → Type 0) (change : V → Option V) (entries : TextMap V)
    → ((v w : V) → change v ≡ some w → P w)
    → Each P (change_entries change entries)
unfolding change_entries
change_entries-Each P change [] h = tt
change_entries-Each P change ((key, value) ∷ entries) h = elim (Option-cases (change value)) [
  | inl gone ↦ rw gone (change_entries-Each P change entries h)
  | inr (w, kept) ↦ rw kept (h value w kept, change_entries-Each P change entries h)
]

-- Each leaf of the trees.
abbrev pub EachLeaf : {V : Type 0} → (V → Type 0) → Map (Map V) → Type 0
EachLeaf P [] = Unit
EachLeaf P ((tree, leaves) ∷ store) = Map.Entries (λ i leaf. P leaf) leaves × EachLeaf P store

pub filter_entries-kept :
    {V : Type 0} (keep : V → Bool) (leaves : Map V)
    → Map.Entries (λ i leaf. keep leaf ≡ true) (Map.filter_entries keep leaves)
unfolding Map.filter_entries
filter_entries-kept keep [] = tt
filter_entries-kept keep ((i, leaf) ∷ leaves) = elim (Bool-cases (keep leaf)) [
  | inl held ↦ rw held (held, filter_entries-kept keep leaves)
  | inr dropped ↦ rw dropped (filter_entries-kept keep leaves)
]

EachEntry-map :
    {V : Type 0} {P Q : V → Type 0}
    → ((v : V) → P v → Q v)
    → (leaves : Map V) → Map.Entries (λ i leaf. P leaf) leaves
    → Map.Entries (λ i leaf. Q leaf) leaves
EachEntry-map f [] h = tt
EachEntry-map f ((i, leaf) ∷ leaves) h = (f leaf h.0, EachEntry-map f leaves h.1)

pub EachLeaf-map :
    {V : Type 0} {P Q : V → Type 0}
    → ((v : V) → P v → Q v)
    → (store : Map (Map V)) → EachLeaf P store
    → EachLeaf Q store
EachLeaf-map f [] h = tt
EachLeaf-map f ((tree, leaves) ∷ store) h = (EachEntry-map f leaves h.0, EachLeaf-map f store h.1)

keep_tree-EachLeaf :
    {V : Type 0} (P : V → Type 0) (tree : ℕ) (leaves : Map V) (store : Map (Map V))
    → Map.Entries (λ i leaf. P leaf) leaves
    → EachLeaf P store
    → EachLeaf P (keep_tree tree leaves store)
keep_tree-EachLeaf P tree [] store h k = k
keep_tree-EachLeaf P tree (entry ∷ entries) store h k = (h, k)

pub filter_trees-EachLeaf :
    {V : Type 0} (keep : V → Bool) (store : Map (Map V))
    → EachLeaf (λ leaf. keep leaf ≡ true) (filter_trees keep store)
unfolding filter_trees
filter_trees-EachLeaf keep [] = tt
filter_trees-EachLeaf keep ((tree, leaves) ∷ store) =
    keep_tree-EachLeaf _ tree (Map.filter_entries keep leaves) (filter_trees keep store)
      (filter_entries-kept keep leaves) (filter_trees-EachLeaf keep store)

-- A UTXO received, and spent if the block is known, before a block.
abbrev pub TxoBefore : {T : Type 0} → ℕ → StoredTxo T → Type 0
TxoBefore b txo = (txo.block_number < b) × (at_or_after b txo.spend_block_number ≡ false)

pub rolled_back-TxoBefore :
    {T : Type 0} (b : ℕ) (txo t : StoredTxo T) → rolled_back b txo ≡ some t → TxoBefore b t
unfolding rolled_back
rolled_back-TxoBefore b txo t e = elim (Bool-cases (leb b txo.block_number)) [
  | inl late ↦ cc (rw late at e)
  | inr early ↦ elim (Bool-cases (at_or_after b txo.spend_block_number)) [
    | inl spent ↦
        let same : spent_by [] none txo ≡ t = cc (rw (early, spent) at e) in
        subst (TxoBefore b) same (ground arith, refl)
    | inr unspent ↦
        let same : txo ≡ t = cc (rw (early, unspent) at e) in
        subst (TxoBefore b) same (ground arith, unspent)
  ]
]
