-- ===== src/Wallet/Rollback/Errors.antt =====
-- pkg/wallet/wallet.go: when the rollback of a wallet fails.
use railgun_go.Common.{
  ℕ, ◌≡◌, refl, ap, sym, ◌∙◌, Bool-cases, inl, inr, if◌then◌else◌, Option, none, some, Text,
  is_blank, Result, ok, err, Error, ◌>>=◌, >>=-eq-ok, required, required-eq-ok, store_required,
  checkpoints_required, checkpoint_key_required, Context, Bool, true, false, ◌>>◌, state_not_reorg,
  txid_store_not_reorg, txid_merkle_tree_not_reorg, utxo_merkle_tree_not_reorg,
  spent_poi_events_not_reorg,
}
use railgun_go.Events.Checkpoint.{Checkpoints, rollback_checkpoint}
use railgun_go.Poi.Manager.{Manager}
use railgun_go.Txid.Transactions.{rollback_transactions}
use railgun_go.Txid.Trees.{rollback_txid_leaves}
use railgun_go.UtxoTree.Store.{rollback_to_block}
use railgun_go.Wallet.State.{Txos, rollback_txos}
use railgun_go.Wallet.SpentEvents.{rollback_spent_events}
use railgun_go.Wallet.Stores.{
  Wallet, validate, reorg_of, reorg_txid_store, reorg_txid_merkle_tree, reorg_utxo_merkle_tree,
  reorg_spent_poi_events,
}
use railgun_go.Wallet.Rollback.{
  if_present, rollback_wallet_sync, rollback_wallet, rollback_memory_checkpoint,
}

-- The error of a result, if it is one.
abbrev pub error_of {ℓ} : {A : Type ℓ} → Result A → Option Error
error_of (ok a) = none
error_of (err e) = some e

-- The first of two errors.
abbrev pub first_error : Option Error → Option Error → Option Error
first_error none later = later
first_error (some e) later = some e

-- A call that succeeds on every store that is there.
abbrev Succeeds : {S : Type 0} → (Option S → Result S) → Type 0
Succeeds {S} call = (s : S) → (t : S) × (call (some s) ≡ ok t)

if_present-Succeeds :
    {S : Type 0} (call : Option S → Result S) (store : Option S)
    → Succeeds call
    → (after : Option S) × (if_present call store ≡ ok after)
if_present-Succeeds call none h = (none, refl)
if_present-Succeeds call (some s) h = let (t, done) = h s in (some t, rw done refl)

validate-present :
    {T : Type 0} (wallet : Wallet T) (parts : Txos T × Manager)
    → validate (some wallet) ≡ ok parts
    → (txos : Txos T) × (checkpoints : Checkpoints) × (wallet.state ≡ some txos)
      × (wallet.checkpoints ≡ some checkpoints)
unfolding validate
validate-present wallet parts e =
    let (txos, state, e1) = >>=-eq-ok (required wallet.state store_required) _ e in
    let (checkpoints, c, e2) = >>=-eq-ok (required wallet.checkpoints checkpoints_required) _ e1 in
    (
      txos,
      checkpoints,
      required-eq-ok wallet.state store_required state,
      required-eq-ok wallet.checkpoints checkpoints_required c,
    )

-- The error of a store that is there and cannot be rolled back.
abbrev pub missing_of : {S : Type 0} → Option S → Bool → Error → Option Error
missing_of none reorg e = none
missing_of (some store) reorg e = if reorg then none else some e

after_reorg :
    {S A : Type 0} (store : Option S) (reorg : Bool) (e : Error) (rest : Result A)
    {later : Option Error}
    → error_of rest ≡ later
    → error_of (reorg_of store reorg e >> rest) ≡ first_error (missing_of store reorg e) later
after_reorg none reorg e rest h = h
after_reorg (some s) true e rest h = h
after_reorg (some s) false e rest h = refl

error_of_then {ℓ κ} :
    {A : Type ℓ} {B : Type κ} (m : Result A) (f : A → B)
    → error_of (m >>= λ a. ok (f a)) ≡ error_of m
error_of_then (ok a) f = refl
error_of_then (err e) f = refl

error_of-rollback_memory_checkpoint :
    (checkpoints : Checkpoints) (key : Text) (b : ℕ)
    → error_of (rollback_memory_checkpoint none (some checkpoints) key b)
      ≡ (if is_blank key then some checkpoint_key_required else none)
unfolding rollback_memory_checkpoint rollback_checkpoint
error_of-rollback_memory_checkpoint checkpoints key b = elim (Bool-cases (is_blank key)) [
  | inl blank ↦ rw blank refl
  | inr named ↦ rw named refl
]

module _ {T : Type 0} where
  error_of-rollback_wallet_sync :
      (wallet : Wallet T) (txos : Txos T) (checkpoints : Checkpoints) (key : Text) (b : ℕ)
      → wallet.state ≡ some txos
      → wallet.checkpoints ≡ some checkpoints
      → wallet.reorg.state ≡ true
      → error_of (rollback_wallet_sync none wallet key b)
        ≡ (if is_blank key then some checkpoint_key_required else none)
  unfolding rollback_wallet_sync rollback_txos rollback_transactions rollback_txid_leaves
      rollback_to_block rollback_spent_events
  error_of-rollback_wallet_sync wallet txos checkpoints key b has_state has_checkpoints reorg =
      let (transactions, t) =
        if_present-Succeeds (λ s. rollback_transactions none s b) wallet.txid_store
          (λ s. (_, refl)) in
      let (txid_leaves, x) =
        if_present-Succeeds (λ s. rollback_txid_leaves none s b) wallet.txid_merkle_tree
          (λ s. (_, refl)) in
      let (leaves, l) =
        if_present-Succeeds (λ s. rollback_to_block none s b) wallet.utxo_merkle_tree
          (λ s. (_, refl)) in
      let (events, v) =
        if_present-Succeeds (λ s. rollback_spent_events none s b) wallet.spent_poi_events
          (λ s. (_, refl)) in
      rw (reorg, has_state, t, x, l, v, has_checkpoints)
        (error_of_then (rollback_memory_checkpoint none (some checkpoints) key b) _
          ∙ error_of-rollback_memory_checkpoint checkpoints key b)

  -- The errors of a rollback in their order: a store that is there and cannot be rolled back, the
  -- state store last, the context, an empty key.
  abbrev pub rollback_error : Context → Wallet T → Text → Option Error
  rollback_error ctx wallet key =
      first_error (missing_of wallet.txid_store wallet.reorg.txid_store txid_store_not_reorg) (
        first_error
          (missing_of wallet.txid_merkle_tree wallet.reorg.txid_merkle_tree
            txid_merkle_tree_not_reorg)
          (first_error
            (missing_of wallet.utxo_merkle_tree wallet.reorg.utxo_merkle_tree
              utxo_merkle_tree_not_reorg)
            (first_error
              (missing_of wallet.spent_poi_events wallet.reorg.spent_poi_events
                spent_poi_events_not_reorg)
              (first_error (if wallet.reorg.state then none else some state_not_reorg)
                (first_error ctx (if is_blank key then some checkpoint_key_required else none))))))

  error_of-reorg_wallet :
      (ctx : Context) (wallet : Wallet T) (txos : Txos T) (checkpoints : Checkpoints) (key : Text)
      (b : ℕ)
      → wallet.state ≡ some txos
      → wallet.checkpoints ≡ some checkpoints
      → error_of (rollback_wallet_sync ctx wallet key b)
        ≡ first_error
            (if wallet.reorg.state then none else some state_not_reorg)
            (first_error ctx (if is_blank key then some checkpoint_key_required else none))
  error_of-reorg_wallet ctx wallet txos checkpoints key b has_state has_checkpoints =
      elim (Bool-cases wallet.reorg.state) [
        | inl reorg ↦ on_reorg ctx reorg
        | inr missing ↦ unfold rollback_wallet_sync in rw missing refl
      ]
    where
      on_reorg :
          (c : Context)
          → wallet.reorg.state ≡ true
          → error_of (rollback_wallet_sync c wallet key b)
            ≡ first_error
                (if wallet.reorg.state then none else some state_not_reorg)
                (first_error c (if is_blank key then some checkpoint_key_required else none))
      on_reorg none reorg =
          error_of-rollback_wallet_sync wallet txos checkpoints key b has_state has_checkpoints
            reorg
          ∙ ap
              (λ r.
                first_error (if r then none else some state_not_reorg)
                  (if is_blank key then some checkpoint_key_required else none))
              (sym reorg)
      on_reorg (some e) reorg = unfold rollback_wallet_sync rollback_txos in rw reorg refl

  -- The rollback of a wallet that has all the parts that `validate` asks for, over the memory
  -- stores, any of which may lack a `RollbackToBlock`: it fails for the first of the txid store,
  -- the txid tree, the UTXO tree and the spent events that is there and lacks it, else if the
  -- state store lacks it, else with the error of the context, else for an empty checkpoint key,
  -- and otherwise succeeds.
  pub error_of-rollback_wallet :
      (ctx : Context) (wallet : Wallet T) (parts : Txos T × Manager) (key : Text) (from_block : ℕ)
      → validate (some wallet) ≡ ok parts
      → error_of (rollback_wallet ctx (some wallet) key from_block) ≡ rollback_error ctx wallet key
  unfolding rollback_wallet reorg_txid_store reorg_txid_merkle_tree reorg_utxo_merkle_tree
      reorg_spent_poi_events
  error_of-rollback_wallet ctx wallet parts key b valid =
      let (txos, checkpoints, has_state, has_checkpoints) = validate-present wallet parts valid in
      let rest =
        error_of-reorg_wallet ctx wallet txos checkpoints key b has_state has_checkpoints in
      rw valid (
        after_reorg wallet.txid_store wallet.reorg.txid_store txid_store_not_reorg _ (
          after_reorg wallet.txid_merkle_tree wallet.reorg.txid_merkle_tree
            txid_merkle_tree_not_reorg _
            (after_reorg wallet.utxo_merkle_tree wallet.reorg.utxo_merkle_tree
              utxo_merkle_tree_not_reorg _
              (after_reorg wallet.spent_poi_events wallet.reorg.spent_poi_events
                spent_poi_events_not_reorg _ rest))))
