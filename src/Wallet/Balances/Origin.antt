-- ===== src/Wallet/Balances/Origin.antt =====
-- pkg/wallet/balances.go: the balances that came from one shield transaction, and of one token.
pub mod Sum
use railgun_go.Common.{
  ℕ, not, ◌&&◌, ◌||◌, Bool, true, false, if◌then◌else◌, Option, none, some, List, [], ◌∷◌, Text,
  codes, is_blank, text_eq, Result, ok, err, ◌>>=◌, ◌>>◌, guard, Context, txid_version_required,
}
use railgun_go.Common.TextMap.{TextMap, find}
use railgun_go.Crypto.Bytes.{format_hex_to_byte_length}
use railgun_go.Poi.Manager.{Manager}
use railgun_go.Wallet.State.{StoredTxo, Txos, list_txos}
use railgun_go.Wallet.Stores.{Wallet, validate}
use railgun_go.Wallet.Balances.{
  TokenBalance, TreeBalance, TokenBalances, txos_for_txid_version, token_balances_from_txos,
  token_balances, balances_for_txid_version,
}
use railgun_go.Wallet.Balances.Trees.{total_balances_by_tree_number_from_balances, trees_or_none}

unfoldable pub is_shield_commitment_type_for_balance : Text → Bool
is_shield_commitment_type_for_balance commitment_type =
    text_eq commitment_type (codes "ShieldCommitment")
    || text_eq commitment_type (codes "LegacyGeneratedCommitment")

-- The balance, if the token has one.
abbrev pub balance_of : {T : Type 0} → Option (TokenBalance T) → Option ℕ
balance_of none = none
balance_of (some entry) = some entry.balance

abbrev pub padded_unless : Bool → Text → Result (Option Text)
padded_unless true txid = ok none
padded_unless false txid = do padded ← format_hex_to_byte_length txid 32 true; ok (some padded)

module _ {T : Type 0} where
  unfoldable pub is_left_out : StoredTxo T → Bool
  is_left_out txo =
      not (is_blank txo.spend_txid)
      || is_blank txo.txid
      || not (is_shield_commitment_type_for_balance txo.commitment_type)

  abbrev pub keep_same : Option Text → Text → StoredTxo T → List (StoredTxo T) → List (StoredTxo T)
  keep_same none origin txo rest = rest
  keep_same (some txid) origin txo rest = if text_eq txid origin then txo ∷ rest else rest

  unfoldable pub origin_candidates : Text → List (StoredTxo T) → Result (List (StoredTxo T))
  origin_candidates origin [] = ok []
  origin_candidates origin (txo ∷ txos) = do
    txid ← padded_unless (is_left_out txo) txo.txid
    rest ← origin_candidates origin txos
    ok (keep_same txid origin txo rest)

  module _ (token_data_hash : T → Result Text) where
    unfoldable pub balances_for_unshield_to_origin :
        Context → Option (Wallet T) → Text → Text → Result (TokenBalances T)
    balances_for_unshield_to_origin ctx wallet version origin_shield_txid = do
      parts ← validate wallet
      guard (not (is_blank version)) txid_version_required
      origin ← format_hex_to_byte_length origin_shield_txid 32 true
      txos ← list_txos ctx (some parts.0)
      candidates ← origin_candidates origin (txos_for_txid_version txos version)
      token_balances_from_txos token_data_hash candidates (some parts.1) []

    unfoldable pub balances : Context → Option (Wallet T) → List Text → Result (TokenBalances T)
    balances ctx wallet included = do
      parts ← validate wallet
      token_balances token_data_hash ctx (some parts.0) (some parts.1) included

    -- `TokenDataERC20` is a parameter, as the hash of token data is.
    unfoldable pub balance_erc20 :
        (Text → Result T)
        → Context
        → Option (Wallet T)
        → Text
        → Text
        → List Text
        → Result (Option ℕ)
    balance_erc20 token_data_erc20 ctx wallet version token_address included = do
      token ← token_data_erc20 token_address
      hash ← token_data_hash token
      all ← balances_for_txid_version token_data_hash ctx wallet version included
      ok (balance_of (find hash all))

    unfoldable pub total_balances_by_tree_number_for_unshield_to_origin :
        Context → Option (Wallet T) → Text → Text → Result (TextMap (List (Option (TreeBalance T))))
    total_balances_by_tree_number_for_unshield_to_origin ctx wallet version origin = do
      found ← balances_for_unshield_to_origin ctx wallet version origin
      ok (total_balances_by_tree_number_from_balances found)

    unfoldable pub balances_by_tree_for_token_for_unshield_to_origin :
        Context → Option (Wallet T) → Text → Text → Text → Result (List (Option (TreeBalance T)))
    balances_by_tree_for_token_for_unshield_to_origin ctx wallet version token_hash origin = do
      totals ← total_balances_by_tree_number_for_unshield_to_origin ctx wallet version origin
      ok (trees_or_none (find token_hash totals))
