-- ===== src/Wallet/Balances.antt =====
-- pkg/wallet/state_store.go, pkg/wallet/balances.go and pkg/wallet/wallet.go: the balances of a
-- wallet. The hash of token data is a parameter.
pub mod Totals
pub mod Buckets
pub mod Backed
pub mod Trees
pub mod Origin
pub mod Versions
use railgun_go.Common.{
  ℕ, zero, suc, ◌+◌, ltb, ◌==◌, not, if◌then◌else◌, Bool, true, false, ◌&&◌, ◌||◌, Option, none,
  some, List, [], ◌∷◌, ◌++◌, Text, codes, is_blank, text_eq, Result, ok, err, ◌>>=◌, ◌>>◌, guard,
  Context, live, required, wallet_required, store_required, checkpoints_required, manager_required,
  value_required, txid_version_required,
}
use railgun_go.Common.TextMap.{TextMap, find, put}
use railgun_go.Chain.{Chain, supports_v3}
use railgun_go.Crypto.Bytes.{format_hex_to_byte_length}
use railgun_go.Poi.Manager
use railgun_go.Poi.Manager.{
  Manager, contains_text, get_balance_bucket, is_shield_commitment_type, bucket_spent,
  bucket_shield_pending, bucket_missing_internal, bucket_missing_external, bucket_spendable,
  bucket_shield_blocked, bucket_proof_submitted,
}
use railgun_go.Poi.Manager.Submit.{get_spendable_balance_buckets}
use railgun_go.Transaction.Solutions.{or_nothing}
use railgun_go.Wallet.Stores.{Wallet, validate}
use railgun_go.Wallet.State.{StoredTxo, Txos, list_txos}

pub record TokenBalance (T : Type 0) : Type 0 where
  pub balance : ℕ
  pub token_data : T
  pub utxos : List (StoredTxo T)

-- A tree without UTXOs is `none`: its balance is nil.
pub record TreeBalance (T : Type 0) : Type 0 where
  pub balance : ℕ
  pub token_data : T
  pub utxos : List (StoredTxo T)

-- `TokenBalances`, by token hash.
abbrev pub TokenBalances : Type 0 → Type 0
TokenBalances T = TextMap (TokenBalance T)

abbrev pub wallet_balance_buckets : List Text
wallet_balance_buckets =
    bucket_spent ∷ bucket_shield_pending ∷ bucket_missing_internal ∷ bucket_missing_external
    ∷ bucket_spendable ∷ bucket_shield_blocked ∷ bucket_proof_submitted ∷ []

module _ {T : Type 0} where
  abbrev pub poi_txo : StoredTxo T → Manager.Txo
  poi_txo txo = record {
    spend_txid = txo.spend_txid;
    pois = txo.pois;
    commitment_type = txo.commitment_type;
    output_type = txo.output_type;
    value = txo.value;
    blinded_commitment = txo.blinded_commitment;
    block_number = txo.block_number;
    transact_creation_railgun_txid = txo.transact_creation_railgun_txid;
  }

  unfoldable pub is_included : Option Manager → List Text → StoredTxo T → Bool
  is_included manager [] txo = true
  is_included manager (bucket ∷ buckets) txo =
      contains_text (bucket ∷ buckets) (get_balance_bucket manager (poi_txo txo))

  -- The entry of a token, with one more UTXO.
  unfoldable pub add_txo : StoredTxo T → ℕ → Option (TokenBalance T) → TokenBalance T
  add_txo txo value none = record { balance = value; token_data = txo.token_data; utxos = txo ∷ [] }
  add_txo txo value (some entry) = record entry {
    balance = entry.balance + value;
    utxos = entry.utxos ++ txo ∷ [];
  }

  unfoldable pub txos_for_txid_version : List (StoredTxo T) → Text → List (StoredTxo T)
  txos_for_txid_version [] version = []
  txos_for_txid_version (txo ∷ txos) version =
      let rest = txos_for_txid_version txos version in
      if not (is_blank txo.txid_version) && not (text_eq txo.txid_version version)
      then rest
      else txo ∷ rest

  module _ (token_data_hash : T → Result Text) where
    unfoldable pub token_hash_of : StoredTxo T → Result Text
    token_hash_of txo =
        if is_blank txo.token_hash then token_data_hash txo.token_data else ok txo.token_hash

    abbrev pub put_balance : Bool → TokenBalances T → StoredTxo T → ℕ → Result (TokenBalances T)
    put_balance false out txo value = ok out
    put_balance true out txo value = do
      hash ← token_hash_of txo
      ok (put hash (add_txo txo value (find hash out)) out)

    -- One round of the loop of `tokenBalancesFromTXOs`.
    unfoldable pub add_balance :
        Option Manager → List Text → TokenBalances T → StoredTxo T → Result (TokenBalances T)
    add_balance manager included out txo = do
      value ← required txo.value value_required
      put_balance (is_included manager included txo) out txo value

    unfoldable pub add_balances :
        Option Manager → List Text → TokenBalances T → List (StoredTxo T) → Result (TokenBalances T)
    add_balances manager included out [] = ok out
    add_balances manager included out (txo ∷ txos) = do
      next ← add_balance manager included out txo
      add_balances manager included next txos

    unfoldable pub token_balances_from_txos :
        List (StoredTxo T) → Option Manager → List Text → Result (TokenBalances T)
    token_balances_from_txos txos manager included = add_balances manager included [] txos

    unfoldable pub token_balances :
        Context → Option (Txos T) → Option Manager → List Text → Result (TokenBalances T)
    token_balances ctx store manager included = do
      present ← required manager manager_required
      txos ← list_txos ctx store
      token_balances_from_txos txos (some present) included

    unfoldable pub balances_for_txid_version :
        Context → Option (Wallet T) → Text → List Text → Result (TokenBalances T)
    balances_for_txid_version ctx wallet version included = do
      parts ← validate wallet
      guard (not (is_blank version)) txid_version_required
      txos ← list_txos ctx (some parts.0)
      token_balances_from_txos (txos_for_txid_version txos version) (some parts.1) included

    unfoldable pub spendable_balances :
        Context → Option (Wallet T) → Text → Chain → Result (TokenBalances T)
    spendable_balances ctx wallet version chain = do
      parts ← validate wallet
      buckets ← get_spendable_balance_buckets (some parts.1) chain
      balances_for_txid_version ctx wallet version buckets

    unfoldable pub bucket_balances :
        List (StoredTxo T) → Option Manager → List Text → Result (TextMap (TokenBalances T))
    bucket_balances txos manager [] = ok []
    bucket_balances txos manager (bucket ∷ buckets) = do
      balances ← token_balances_from_txos txos manager (bucket ∷ [])
      rest ← bucket_balances txos manager buckets
      ok ((bucket, balances) ∷ rest)

    unfoldable pub balances_by_bucket :
        Context → Option (Wallet T) → Text → Result (TextMap (TokenBalances T))
    balances_by_bucket ctx wallet version = do
      parts ← validate wallet
      guard (not (is_blank version)) txid_version_required
      txos ← list_txos ctx (some parts.0)
      bucket_balances (txos_for_txid_version txos version) (some parts.1) wallet_balance_buckets
