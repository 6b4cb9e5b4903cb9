-- ===== src/Wallet/Balances/Versions.antt =====
-- pkg/wallet/txid_versions.go: the balances of several txid versions. The names of the versions are
-- constants of pkg/crypto.
use railgun_go.Common.{
  some, if◌then◌else◌, Option, List, [], ◌∷◌, Text, codes, Result, ok, ◌>>=◌, Context,
}
use railgun_go.Common.TextMap.{TextMap, put}
use railgun_go.Chain.{Chain, supports_v3}
use railgun_go.Poi.Manager.Submit.{get_spendable_balance_buckets}
use railgun_go.Wallet.Stores.{Wallet, validate}
use railgun_go.Wallet.Balances.{TokenBalances, balances_for_txid_version}

abbrev pub txid_version_v2 : Text
txid_version_v2 = codes "V2_PoseidonMerkle"

abbrev pub txid_version_v3 : Text
txid_version_v3 = codes "V3_PoseidonMerkle"

unfoldable pub active_txid_versions : List Chain → Chain → List Text
active_txid_versions chains chain =
    if supports_v3 chains chain
    then txid_version_v2 ∷ txid_version_v3 ∷ []
    else txid_version_v2 ∷ []

-- `if len(balances) > 0 { out[txidVersion] = balances }`
abbrev pub put_some : {V : Type 0} → Text → TextMap V → TextMap (TextMap V) → TextMap (TextMap V)
put_some version [] out = out
put_some version (entry ∷ entries) out = put version (entry ∷ entries) out

module _ {T : Type 0} (token_data_hash : T → Result Text) where
  unfoldable pub each_version :
      Context
      → Option (Wallet T)
      → List Text
      → TextMap (TokenBalances T)
      → List Text
      → Result (TextMap (TokenBalances T))
  each_version ctx wallet included out [] = ok out
  each_version ctx wallet included out (version ∷ versions) = do
    found ← balances_for_txid_version token_data_hash ctx wallet version included
    each_version ctx wallet included (put_some version found out) versions

  unfoldable pub balances_for_txid_versions :
      Context → Option (Wallet T) → List Text → List Text → Result (TextMap (TokenBalances T))
  balances_for_txid_versions ctx wallet versions included = do
    parts ← validate wallet
    each_version ctx wallet included [] versions

  unfoldable pub balances_all_txid_versions :
      List Chain
      → Context
      → Option (Wallet T)
      → Chain
      → List Text
      → Result (TextMap (TokenBalances T))
  balances_all_txid_versions chains ctx wallet chain included =
      balances_for_txid_versions ctx wallet (active_txid_versions chains chain) included

  unfoldable pub spendable_balances_for_txid_versions :
      Context → Option (Wallet T) → Chain → List Text → Result (TextMap (TokenBalances T))
  spendable_balances_for_txid_versions ctx wallet chain versions = do
    parts ← validate wallet
    buckets ← get_spendable_balance_buckets (some parts.1) chain
    balances_for_txid_versions ctx wallet versions buckets

  unfoldable pub spendable_balances_all_txid_versions :
      List Chain → Context → Option (Wallet T) → Chain → Result (TextMap (TokenBalances T))
  spendable_balances_all_txid_versions chains ctx wallet chain =
      spendable_balances_for_txid_versions ctx wallet chain (active_txid_versions chains chain)
