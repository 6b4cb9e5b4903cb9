-- ===== src/Wallet/State/Reorg.antt =====
-- pkg/wallet/state_store.go: a reorganisation of the chain. What a sync of later blocks has done to
-- the store is undone by `RollbackToBlock`.
use railgun_go.Common.{
  ℕ, leb, ◌≡◌, ◌≤◌, ◌<◌, refl, ap, sym, ◌∙◌, Bool-cases, Option-cases, inl, inr, true, false,
  Option, none, some, [], Text, text_eq, text_eq→eq, ok, arith,
}
use railgun_go.Common.TextMap.{find, changed, IsTextMap}
use railgun_go.Wallet.State.{
  StoredTxo, Txos, upsert_txo, get_txo, spent_by, mark_txo_spent_at_block, rolled_back,
  rollback_txos, at_or_after,
}
use railgun_go.Wallet.State.Laws.{
  get_txo-upsert_txo, get_txo-mark_spent, get_txo-rollback_txos, upsert_txo-IsTextMap,
  mark_spent-IsTextMap,
}

module _ {T : Type 0} where
  -- One change that a sync makes for a block from `from_block` on: a UTXO with a new nullifier, or
  -- the spend of one that was unspent.
  pub data LateStep (from_block : ℕ) : Txos T → Txos T → Type 0 where
    received :
        {s t : Txos T} (txo : StoredTxo T)
        → from_block ≤ txo.block_number
        → find txo.nullifier s ≡ none
        → upsert_txo none (some s) txo ≡ ok t
        → LateStep from_block s t
    spent :
        {s t : Txos T} (txo : StoredTxo T) (nullifier spend_txid : Text) (block : ℕ)
        → from_block ≤ block
        → find nullifier s ≡ some txo
        → txo.spend_txid ≡ []
        → txo.spend_block_number ≡ none
        → mark_txo_spent_at_block none (some s) nullifier spend_txid block ≡ ok t
        → LateStep from_block s t

  pub data Late (from_block : ℕ) : Txos T → Txos T → Type 0 where
    nothing : {s : Txos T} → Late from_block s s
    step : {s t u : Txos T} → Late from_block s t → LateStep from_block t u → Late from_block s u

  -- What is left of the UTXO at a nullifier.
  abbrev rest_at : ℕ → Text → Txos T → Option (StoredTxo T)
  rest_at from_block nullifier store = changed (rolled_back from_block) (find nullifier store)

  unspent_lem :
      (txo : StoredTxo T)
      → txo.spend_txid ≡ []
      → txo.spend_block_number ≡ none
      → spent_by [] none txo ≡ txo
  unspent_lem txo u b = λ i. record txo { spend_txid = sym u i; spend_block_number = sym b i }

  received_lem :
      (from_block : ℕ) (txo : StoredTxo T)
      → from_block ≤ txo.block_number
      → rolled_back from_block txo ≡ none
  unfolding rolled_back
  received_lem from_block txo late = ground arith

  spent_lem :
      (from_block block : ℕ) (spend_txid : Text) (txo : StoredTxo T)
      → from_block ≤ block
      → txo.spend_txid ≡ []
      → txo.spend_block_number ≡ none
      → rolled_back from_block (spent_by spend_txid (some block) txo) ≡ rolled_back from_block txo
  unfolding rolled_back
  spent_lem from_block block spend_txid txo late u b =
      let on_time : leb from_block block ≡ true = ground arith in
      let closed : at_or_after from_block txo.spend_block_number ≡ false =
        ap (at_or_after from_block) b in
      elim (Bool-cases (leb from_block txo.block_number)) [
        | inl gone ↦ rw gone refl
        | inr kept ↦ rw (kept, on_time, closed) (ap some (unspent_lem txo u b))
      ]

  LateStep-rest :
      (from_block : ℕ) (nullifier : Text) {s t : Txos T}
      → LateStep from_block s t
      → rest_at from_block nullifier t ≡ rest_at from_block nullifier s
  unfolding get_txo mark_txo_spent_at_block
  LateStep-rest from_block nullifier {s} {t} (received txo late new e) =
      let after = get_txo-upsert_txo s t txo nullifier e in
      elim (Bool-cases (text_eq txo.nullifier nullifier)) [
        | inl same ↦
            let in_s : find nullifier s ≡ none =
              rw (← text_eq→eq txo.nullifier nullifier same) new in
            let in_t : find nullifier t ≡ some txo = cc (rw same at after) in
            rw (in_s, in_t) (received_lem from_block txo late)
        | inr other ↦
            let same_entry : find nullifier t ≡ find nullifier s = cc (rw other at after) in
            rw same_entry refl
      ]
  LateStep-rest from_block nullifier {s} {t}
        (spent txo key spend_txid block late held unspent open_ e) =
      let after = get_txo-mark_spent s t key nullifier spend_txid (some block) e in
      elim (Bool-cases (text_eq key nullifier)) [
        | inl same ↦
            let in_s : find nullifier s ≡ some txo = rw (← text_eq→eq key nullifier same) held in
            let in_t : find nullifier t ≡ some (spent_by spend_txid (some block) txo) =
              cc (rw (same, held) at after) in
            rw (in_s, in_t) (spent_lem from_block block spend_txid txo late unspent open_)
        | inr other ↦
            let same_entry : find nullifier t ≡ find nullifier s = cc (rw other at after) in
            rw same_entry refl
      ]

  Late-rest :
      (from_block : ℕ) (nullifier : Text) {s t : Txos T}
      → Late from_block s t
      → rest_at from_block nullifier t ≡ rest_at from_block nullifier s
  Late-rest from_block nullifier nothing = refl
  Late-rest from_block nullifier (step late one) =
      LateStep-rest from_block nullifier one ∙ Late-rest from_block nullifier late

  -- Everything in the store is of blocks before `from_block`.
  pub record IsEarlier (from_block : ℕ) (store : Txos T) : Type 0 where
    pub keys : IsTextMap store
    pub blocks :
        (nullifier : Text) (txo : StoredTxo T)
        → find nullifier store ≡ some txo
        → (txo.block_number < from_block) × (at_or_after from_block txo.spend_block_number ≡ false)

  early_lem :
      (from_block : ℕ) (store : Txos T) (nullifier : Text)
      → IsEarlier from_block store
      → rest_at from_block nullifier store ≡ find nullifier store
  unfolding rolled_back
  early_lem from_block store nullifier earlier = elim (Option-cases (find nullifier store)) [
    | inl absent ↦ rw absent refl
    | inr (txo, held) ↦
        let (block, open_) = earlier.blocks nullifier txo held in
        let kept : leb from_block txo.block_number ≡ false = ground arith in
        rw held (rw (kept, open_) refl)
  ]

  LateStep-IsTextMap :
      {from_block : ℕ} {s t : Txos T} → LateStep from_block s t → IsTextMap s → IsTextMap t
  LateStep-IsTextMap {from_block} {s} {t} (received txo late new e) h =
      upsert_txo-IsTextMap s t txo e h
  LateStep-IsTextMap {from_block} {s} {t} (spent txo key spend_txid block late held unspent open_ e)
        h =
      mark_spent-IsTextMap s t key spend_txid (some block) (unfold mark_txo_spent_at_block in e) h

  Late-IsTextMap : {from_block : ℕ} {s t : Txos T} → Late from_block s t → IsTextMap s → IsTextMap t
  Late-IsTextMap nothing h = h
  Late-IsTextMap (step late one) h = LateStep-IsTextMap one (Late-IsTextMap late h)

  -- Of a store whose UTXOs all were received, and spent if at all, before a block: after any UTXOs
  -- that are received at that block or later, each under a nullifier that the store does not yet
  -- hold, and any unspent ones that are marked spent at that block or later, `RollbackToBlock` to
  -- it succeeds, and `GetTXO` then returns for each nullifier what it returned at first.
  pub rollback_txos-Late :
      (from_block : ℕ) (before middle : Txos T) (nullifier : Text)
      → IsEarlier from_block before
      → Late from_block before middle
      → (after : Txos T) × (rollback_txos none (some middle) from_block ≡ ok after)
        × (get_txo none (some after) nullifier ≡ get_txo none (some before) nullifier)
  unfolding get_txo rolled_back
  rollback_txos-Late from_block before middle nullifier earlier late =
      let (after, done, found) =
        get_txo-rollback_txos middle from_block nullifier (Late-IsTextMap late earlier.keys) in
      (
        after,
        done,
        found
            ∙ ap ok (
                Late-rest from_block nullifier late
                ∙ early_lem from_block before nullifier earlier),
      )
