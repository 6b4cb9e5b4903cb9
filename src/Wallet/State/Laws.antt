-- ===== src/Wallet/State/Laws.antt =====
-- pkg/wallet/state_store.go: what `GetTXO` finds after each operation.
use mathlib.Core.Path.{subst}
use railgun_go.Common.{
  ℕ, ◌≡◌, refl, ap, Bool-cases, Option-cases, inl, inr, if◌then◌else◌, Option, none, some, Text,
  is_blank, text_eq, ok, >>=-eq-ok, required, missing_txo, arith,
}
use railgun_go.Common.TextMap.{
  find, put, change_entries, changed, IsTextMap, find-put, find-change_entries, put-IsTextMap,
}
use railgun_go.Wallet.State.{
  StoredTxo, Txos, upsert_txo, get_txo, spent_by, mark_spent, rolled_back, rollback_txos,
}

module _ {T : Type 0} where
  -- After `UpsertTXO`, `GetTXO` finds the UTXO at its nullifier and at every other what it found before.
  pub get_txo-upsert_txo :
      (before after : Txos T) (txo : StoredTxo T) (nullifier : Text)
      → upsert_txo none (some before) txo ≡ ok after
      → get_txo none (some after) nullifier ≡ (
          if text_eq txo.nullifier nullifier
          then ok (some txo)
          else get_txo none (some before) nullifier)
  unfolding upsert_txo get_txo
  get_txo-upsert_txo before after txo nullifier e = elim (Bool-cases (is_blank txo.nullifier)) [
    | inl blank ↦ cc (rw blank at e)
    | inr named ↦
        let same : put txo.nullifier txo before ≡ after = cc (rw named at e) in
        rw (← same) (ground (arith, find-put txo.nullifier nullifier txo before))
  ]

  -- After `MarkTXOSpent`, `GetTXO` finds the UTXO spent, and at every other nullifier what it found
  -- before.
  pub get_txo-mark_spent :
      (before after : Txos T) (nullifier other spend_txid : Text) (block : Option ℕ)
      → mark_spent none (some before) nullifier spend_txid block ≡ ok after
      → get_txo none (some after) other ≡ (
          if text_eq nullifier other
          then ok (changed (λ txo. some (spent_by spend_txid block txo)) (find nullifier before))
          else get_txo none (some before) other)
  unfolding mark_spent get_txo
  get_txo-mark_spent before after nullifier other spend_txid block e =
      elim (Option-cases (find nullifier before)) [
        | inl absent ↦ cc (rw absent at e)
        | inr (txo, held) ↦
            let same : put nullifier (spent_by spend_txid block txo) before ≡ after =
              cc (rw held at e) in
            rw (← same, held)
              (ground (arith, find-put nullifier other (spent_by spend_txid block txo) before))
      ]

  -- After `RollbackToBlock`, `GetTXO` finds what the rollback leaves of a UTXO.
  pub get_txo-rollback_txos :
      (before : Txos T) (from_block : ℕ) (nullifier : Text)
      → IsTextMap before
      → (after : Txos T) × (rollback_txos none (some before) from_block ≡ ok after)
        × (get_txo none (some after) nullifier
            ≡ ok (changed (rolled_back from_block) (find nullifier before)))
  unfolding rollback_txos get_txo
  get_txo-rollback_txos before from_block nullifier h = (
    change_entries (rolled_back from_block) before,
    refl,
    ap ok (find-change_entries (rolled_back from_block) nullifier before h),
  )

  pub upsert_txo-IsTextMap :
      (before after : Txos T) (txo : StoredTxo T)
      → upsert_txo none (some before) txo ≡ ok after
      → IsTextMap before
      → IsTextMap after
  unfolding upsert_txo
  upsert_txo-IsTextMap before after txo e h = elim (Bool-cases (is_blank txo.nullifier)) [
    | inl blank ↦ cc (rw blank at e)
    | inr named ↦
        let same : put txo.nullifier txo before ≡ after = cc (rw named at e) in
        subst IsTextMap same (put-IsTextMap txo.nullifier txo before h)
  ]

  pub mark_spent-IsTextMap :
      (before after : Txos T) (nullifier spend_txid : Text) (block : Option ℕ)
      → mark_spent none (some before) nullifier spend_txid block ≡ ok after
      → IsTextMap before
      → IsTextMap after
  unfolding mark_spent
  mark_spent-IsTextMap before after nullifier spend_txid block e h =
      let (txo, held, done) = >>=-eq-ok (required (find nullifier before) missing_txo) _ e in
      let same : put nullifier (spent_by spend_txid block txo) before ≡ after = cc in
      subst IsTextMap same (put-IsTextMap nullifier (spent_by spend_txid block txo) before h)
