-- ===== src/Wallet/Rollback/Before.antt =====
-- pkg/wallet/sync.go: the stores of a wallet that is rolled back.
use mathlib.Core.Path.{subst}
use railgun_go.Common.{
  ℕ, ◌<◌, ◌≤◌, leb, ◌≡◌, refl, true, Bool-cases, inl, inr, Option, none, some, Text, Result, ok,
  >>=-eq-ok, Context, text_eq_refl, guard, state_not_reorg, arith,
}
use railgun_go.Common.TextMap.{change_entries}
use railgun_go.Common.Trees.{filter_trees}
use railgun_go.Events.Checkpoint.{Checkpoints, load_checkpoint}
use railgun_go.Events.Checkpoint.Rollback.{lower, load_checkpoint-rollback_checkpoint}
use railgun_go.Txid.Transactions.{
  Transaction, Transactions, kept_transaction, rollback_transactions,
}
use railgun_go.Txid.{TxidLeaf}
use railgun_go.Txid.Trees.{TxidLeaves, is_kept_txid_leaf, rollback_txid_leaves}
use railgun_go.UtxoTree.{Leaf}
use railgun_go.UtxoTree.Store.{Leaves, is_kept, rollback, rollback_to_block}
use railgun_go.Wallet.State.{Txos, rolled_back, rollback_txos}
use railgun_go.Wallet.SpentEvents.{
  SentEvent, UnshieldEvent, SpentEvents, kept_sent, kept_unshield, rollback_spent_events,
}
use railgun_go.Wallet.Stores.{Wallet}
use railgun_go.Wallet.Rollback.{if_present, rollback_wallet_sync, rollback_memory_checkpoint}
use railgun_go.Wallet.Rollback.Each.{
  Each, EachLeaf, EachLeaf-map, TxoBefore, change_entries-Each, filter_trees-EachLeaf,
  rolled_back-TxoBefore,
}

-- A store that is there has the property.
abbrev pub IfPresent : {S : Type 0} → (S → Type 0) → Option S → Type 0
IfPresent P none = Unit
IfPresent P (some s) = P s

abbrev EventsBefore : {T : Type 0} → ℕ → SpentEvents T → Type 0
EventsBefore b events =
    Each (λ e. e.block_number < b) events.sent_commitments
    × Each (λ e. e.block_number < b) events.unshield_events

-- All that the wallet holds is of blocks before `b`, and its checkpoint is `b` at most.
pub record IsBefore {T : Type 0} (b : ℕ) (key : Text) (wallet : Wallet T) : Type 0 where
  pub txos : IfPresent (Each (TxoBefore b)) wallet.state
  pub transactions : IfPresent (Each (λ t. t.block_number < b)) wallet.txid_store
  pub txid_leaves : IfPresent (EachLeaf (λ leaf. leaf.block_number < b)) wallet.txid_merkle_tree
  pub leaves : IfPresent (EachLeaf (λ leaf. leaf.block_number < b)) wallet.utxo_merkle_tree
  pub events : IfPresent (EventsBefore b) wallet.spent_poi_events
  pub next_block : ℕ
  pub is_saved : load_checkpoint none wallet.checkpoints key ≡ ok (some next_block)
  pub is_low : next_block ≤ b

module _ (b : ℕ) where
  pub rollback_txos-Each :
      {T : Type 0} (ctx : Context) (store : Option (Txos T)) (after : Txos T)
      → rollback_txos ctx store b ≡ ok after
      → Each (TxoBefore b) after
  unfolding rollback_txos
  rollback_txos-Each (some e) store after h = cc
  rollback_txos-Each none none after h = cc
  rollback_txos-Each none (some txos) after h =
      let same : change_entries (rolled_back b) txos ≡ after = cc in
      subst (Each (TxoBefore b)) same
        (change_entries-Each (TxoBefore b) (rolled_back b) txos (rolled_back-TxoBefore b))

  pub rollback_txos-live :
      {T : Type 0} (ctx : Context) (store : Option (Txos T)) (after : Txos T)
      → rollback_txos ctx store b ≡ ok after
      → ctx ≡ none
  unfolding rollback_txos
  rollback_txos-live (some e) store after h = cc
  rollback_txos-live none store after h = refl

  kept_transaction-before : (t u : Transaction) → kept_transaction b t ≡ some u → u.block_number < b
  unfolding kept_transaction
  kept_transaction-before t u e = elim (Bool-cases (leb b t.block_number)) [
    | inl late ↦ cc (rw late at e)
    | inr early ↦ let same : t ≡ u = cc (rw early at e) in rw (← same) (ground arith)
  ]

  pub rollback_transactions-Each :
      (ctx : Context) (store : Option Transactions) (after : Transactions)
      → rollback_transactions ctx store b ≡ ok after
      → Each (λ t. t.block_number < b) after
  unfolding rollback_transactions
  rollback_transactions-Each (some e) store after h = cc
  rollback_transactions-Each none none after h = cc
  rollback_transactions-Each none (some transactions) after h =
      let same : change_entries (kept_transaction b) transactions ≡ after = cc in
      subst (Each (λ t. t.block_number < b)) same
        (change_entries-Each _ (kept_transaction b) transactions kept_transaction-before)

  is_kept_txid_leaf-before :
      (leaf : TxidLeaf) → is_kept_txid_leaf b leaf ≡ true → leaf.block_number < b
  unfolding is_kept_txid_leaf
  is_kept_txid_leaf-before leaf h = ground arith

  is_kept-before : (leaf : Leaf) → is_kept b leaf ≡ true → leaf.block_number < b
  unfolding is_kept
  is_kept-before leaf h = ground arith

  rollback_txid_leaves-EachLeaf :
      (ctx : Context) (store : Option TxidLeaves) (after : TxidLeaves)
      → rollback_txid_leaves ctx store b ≡ ok after
      → EachLeaf (λ leaf. leaf.block_number < b) after
  unfolding rollback_txid_leaves
  rollback_txid_leaves-EachLeaf (some e) store after h = cc
  rollback_txid_leaves-EachLeaf none none after h = cc
  rollback_txid_leaves-EachLeaf none (some leaves) after h =
      let same : filter_trees (is_kept_txid_leaf b) leaves ≡ after = cc in
      subst (EachLeaf (λ leaf. leaf.block_number < b)) same (
        EachLeaf-map is_kept_txid_leaf-before (filter_trees (is_kept_txid_leaf b) leaves)
          (filter_trees-EachLeaf (is_kept_txid_leaf b) leaves))

  rollback_to_block-EachLeaf :
      (ctx : Context) (store : Option Leaves) (after : Leaves)
      → rollback_to_block ctx store b ≡ ok after
      → EachLeaf (λ leaf. leaf.block_number < b) after
  unfolding rollback_to_block rollback
  rollback_to_block-EachLeaf (some e) store after h = cc
  rollback_to_block-EachLeaf none none after h = cc
  rollback_to_block-EachLeaf none (some leaves) after h =
      let same : filter_trees (is_kept b) leaves ≡ after = cc in
      subst (EachLeaf (λ leaf. leaf.block_number < b)) same (
        EachLeaf-map is_kept-before (filter_trees (is_kept b) leaves)
          (filter_trees-EachLeaf (is_kept b) leaves))

  kept_sent-before : {T : Type 0} (t u : SentEvent T) → kept_sent b t ≡ some u → u.block_number < b
  kept_sent-before t u e = elim (Bool-cases (leb b t.block_number)) [
    | inl late ↦ cc (rw late at e)
    | inr early ↦ let same : t ≡ u = cc (rw early at e) in rw (← same) (ground arith)
  ]

  kept_unshield-before : (t u : UnshieldEvent) → kept_unshield b t ≡ some u → u.block_number < b
  kept_unshield-before t u e = elim (Bool-cases (leb b t.block_number)) [
    | inl late ↦ cc (rw late at e)
    | inr early ↦ let same : t ≡ u = cc (rw early at e) in rw (← same) (ground arith)
  ]

  pub rollback_spent_events-Each :
      {T : Type 0} (ctx : Context) (store : Option (SpentEvents T)) (after : SpentEvents T)
      → rollback_spent_events ctx store b ≡ ok after
      → EventsBefore b after
  unfolding rollback_spent_events
  rollback_spent_events-Each (some e) store after h = cc
  rollback_spent_events-Each none none after h = cc
  rollback_spent_events-Each none (some events) after h =
      subst (EventsBefore b)
        {x = record {
          sent_commitments = change_entries (kept_sent b) events.sent_commitments;
          unshield_events = change_entries (kept_unshield b) events.unshield_events;
        }}
        (cc h)
        (
          change_entries-Each _ (kept_sent b) events.sent_commitments kept_sent-before,
          change_entries-Each _ (kept_unshield b) events.unshield_events kept_unshield-before,
        )

  if_present-IfPresent :
      {S : Type 0} (P : S → Type 0) (call : Option S → Result S) (store after : Option S)
      → ((s : Option S) (t : S) → call s ≡ ok t → P t)
      → if_present call store ≡ ok after
      → IfPresent P after
  if_present-IfPresent P call none after h e =
      let same : none ≡ after = cc in subst (IfPresent P) same tt
  if_present-IfPresent P call (some s) after h e =
      let (t, called, done) = >>=-eq-ok (call (some s)) _ e in
      let same : some t ≡ after = cc in subst (IfPresent P) same (h (some s) t called)

  lower-low : (found : Option ℕ) → lower found b ≤ b
  lower-low none = omega arith
  lower-low (some n) = omega arith

  pub rollback_memory_checkpoint-low :
      (store : Option Checkpoints) (key : Text) (after : Checkpoints)
      → rollback_memory_checkpoint none store key b ≡ ok after
      → (n : ℕ) × (load_checkpoint none (some after) key ≡ ok (some n)) × (n ≤ b)
  unfolding rollback_memory_checkpoint
  rollback_memory_checkpoint-low none key after e = cc
  rollback_memory_checkpoint-low (some before) key after e =
      let found = load_checkpoint-rollback_checkpoint before after key key b e in
      (lower (before key) b, rw (text_eq_refl key) at found, lower-low (before key))

abbrev pub rolled :
    {T : Type 0}
    → Wallet T
    → Txos T
    → Option Transactions
    → Option TxidLeaves
    → Option Leaves
    → Option (SpentEvents T)
    → Checkpoints
    → Wallet T
rolled wallet state transactions txid_leaves leaves events checkpoints = record wallet {
  state = some state;
  txid_store = transactions;
  txid_merkle_tree = txid_leaves;
  utxo_merkle_tree = leaves;
  spent_poi_events = events;
  checkpoints = some checkpoints;
}

ok-injective : {A : Type 0} {a b : A} → ok a ≡ ok b → a ≡ b
ok-injective e = cc

-- When the rollback of a wallet to a block succeeds, every UTXO, transaction, leaf of either tree
-- and spent event that is left is of a lower block, no UTXO is spent at the block or later, and
-- the checkpoint under the key is the block at most.
pub rollback_wallet_sync-IsBefore :
    {T : Type 0} (ctx : Context) (wallet after : Wallet T) (key : Text) (from_block : ℕ)
    → rollback_wallet_sync ctx wallet key from_block ≡ ok after
    → IsBefore from_block key after
unfolding rollback_wallet_sync
rollback_wallet_sync-IsBefore ctx wallet after key b e =
    let (u, reorg, e0) = >>=-eq-ok (guard wallet.reorg.state state_not_reorg) _ e in
    let (state, s, e1) = >>=-eq-ok (rollback_txos ctx wallet.state b) _ e0 in
    let (transactions, t, e2) =
      >>=-eq-ok (if_present (λ s. rollback_transactions ctx s b) wallet.txid_store) _ e1 in
    let (txid_leaves, x, e3) =
      >>=-eq-ok (if_present (λ s. rollback_txid_leaves ctx s b) wallet.txid_merkle_tree) _ e2 in
    let (leaves, l, e4) =
      >>=-eq-ok (if_present (λ s. rollback_to_block ctx s b) wallet.utxo_merkle_tree) _ e3 in
    let (events, v, e5) =
      >>=-eq-ok (if_present (λ s. rollback_spent_events ctx s b) wallet.spent_poi_events) _ e4 in
    let (checkpoints, c, e6) =
      >>=-eq-ok (rollback_memory_checkpoint ctx wallet.checkpoints key b) _ e5 in
    let same : rolled wallet state transactions txid_leaves leaves events checkpoints ≡ after =
      ok-injective e6 in
    let alive : ctx ≡ none = rollback_txos-live b ctx wallet.state state s in
    let (next, is_saved, is_low) =
      rollback_memory_checkpoint-low b wallet.checkpoints key checkpoints (
        subst (λ o. rollback_memory_checkpoint o wallet.checkpoints key b ≡ ok checkpoints) alive
          c) in
    subst (IsBefore b key) same (record {
      txos = rollback_txos-Each b ctx wallet.state state s;
      transactions =
          if_present-IfPresent b _ _ wallet.txid_store transactions
            (rollback_transactions-Each b ctx) t;
      txid_leaves =
          if_present-IfPresent b _ _ wallet.txid_merkle_tree txid_leaves
            (rollback_txid_leaves-EachLeaf b ctx) x;
      leaves =
          if_present-IfPresent b _ _ wallet.utxo_merkle_tree leaves
            (rollback_to_block-EachLeaf b ctx) l;
      events =
          if_present-IfPresent b _ _ wallet.spent_poi_events events
            (rollback_spent_events-Each b ctx) v;
      next_block = next;
      is_saved = is_saved;
      is_low = is_low;
    })
