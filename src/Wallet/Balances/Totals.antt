-- ===== src/Wallet/Balances/Totals.antt =====
-- pkg/wallet: no value is lost or counted twice in the balances.
use railgun_go.Common.{
  ℕ, ◌+◌, ◌≡◌, refl, ap, Bool-cases, inl, inr, if◌then◌else◌, Bool, Option, none, some, List, [],
  ◌∷◌, Text, text_eq, Result, ok, >>=-eq-ok, required-eq-ok, required, value_required, arith,
}
use railgun_go.Common.TextMap.{find, put}
use railgun_go.Poi.Manager.{Manager}
use railgun_go.Transaction.Solutions.{or_nothing}
use railgun_go.Wallet.State.{StoredTxo}
use railgun_go.Wallet.Balances.{
  TokenBalance, TokenBalances, is_included, add_txo, add_balance, add_balances,
  token_balances_from_txos, token_hash_of,
}

module _ {T : Type 0} where
  -- The sum of all balances.
  abbrev pub balance_sum : TokenBalances T → ℕ
  balance_sum [] = 0
  balance_sum ((hash, entry) ∷ balances) = entry.balance + balance_sum balances

  -- The sum of the values of the UTXOs that pass a test.
  abbrev pub value_sum : (StoredTxo T → Bool) → List (StoredTxo T) → ℕ
  value_sum test [] = 0
  value_sum test (txo ∷ txos) = (if test txo then or_nothing txo.value else 0) + value_sum test txos

  abbrev held_before : Option (TokenBalance T) → ℕ
  held_before none = 0
  held_before (some entry) = entry.balance

  balance_sum-put :
      (hash : Text) (new : TokenBalance T) (balances : TokenBalances T)
      → balance_sum (put hash new balances) + held_before (find hash balances)
        ≡ balance_sum balances + new.balance
  unfolding put find
  balance_sum-put hash new [] = omega arith
  balance_sum-put hash new ((other, entry) ∷ balances) = elim (Bool-cases (text_eq other hash)) [
    | inl same ↦ rw same (omega arith)
    | inr differs ↦ rw differs (omega (arith, balance_sum-put hash new balances))
  ]

  add_txo-balance :
      (txo : StoredTxo T) (value : ℕ) (entry : Option (TokenBalance T))
      → (add_txo txo value entry).balance ≡ held_before entry + value
  unfolding add_txo
  add_txo-balance txo value none = omega arith
  add_txo-balance txo value (some entry) = refl

  module _ (token_data_hash : T → Result Text) (manager : Option Manager)
      (included : List Text) where
    add_balance-sum :
        (out next : TokenBalances T) (txo : StoredTxo T)
        → add_balance token_data_hash manager included out txo ≡ ok next
        → balance_sum next
          ≡ balance_sum out + (if is_included manager included txo then or_nothing txo.value else 0)
    unfolding add_balance
    add_balance-sum out next txo e =
        let (value, worth, done) = >>=-eq-ok (required txo.value value_required) _ e in
        let held : or_nothing txo.value ≡ value =
          ap or_nothing (required-eq-ok txo.value value_required worth) in
        elim (Bool-cases (is_included manager included txo)) [
          | inl counted ↦
              let (hash, hashed, put_done) =
                >>=-eq-ok (token_hash_of token_data_hash txo) _ (rw counted at done) in
              let same : put hash (add_txo txo value (find hash out)) out ≡ next = cc in
              rw counted (
                rw (← same) (
                  omega (
                    arith,
                    held,
                    balance_sum-put hash (add_txo txo value (find hash out)) out,
                    add_txo-balance txo value (find hash out),
                  )))
          | inr skipped ↦
              let same : out ≡ next = cc (rw skipped at done) in rw (skipped, ← same) (omega arith)
        ]

    add_balances-sum :
        (out last : TokenBalances T) (txos : List (StoredTxo T))
        → add_balances token_data_hash manager included out txos ≡ ok last
        → balance_sum last ≡ balance_sum out + value_sum (is_included manager included) txos
    unfolding add_balances
    add_balances-sum out last [] e = let same : out ≡ last = cc in rw same (omega arith)
    add_balances-sum out last (txo ∷ txos) e =
        let (next, added, rest) =
          >>=-eq-ok (add_balance token_data_hash manager included out txo) _ e in
        omega (arith, add_balance-sum out next txo added, add_balances-sum next last txos rest)

    -- When the balances of a list of UTXOs are computed, they add up to the values of those UTXOs
    -- that are in an included bucket.
    pub token_balances_from_txos-sum :
        (txos : List (StoredTxo T)) (balances : TokenBalances T)
        → token_balances_from_txos token_data_hash txos manager included ≡ ok balances
        → balance_sum balances ≡ value_sum (is_included manager included) txos
    unfolding token_balances_from_txos
    token_balances_from_txos-sum txos balances e =
        omega (arith, add_balances-sum [] balances txos e)
