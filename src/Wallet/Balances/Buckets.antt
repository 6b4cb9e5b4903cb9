-- ===== src/Wallet/Balances/Buckets.antt =====
-- pkg/wallet/balances.go: the balances by bucket, and by tree, add up to the whole.
use railgun_go.Common.{
  ℕ, ◌+◌, ◌*◌, ◌≡◌, refl, ◌∙◌, Bool-cases, inl, inr, if◌then◌else◌, Bool, true, false, not, Option,
  List, [], ◌∷◌, Text, text_eq, is_blank, Result, ok, >>=-eq-ok, arith,
}
use railgun_go.Common.TextMap.{TextMap}
use railgun_go.Poi.Manager.{
  Manager, Txo, contains_text, get_balance_bucket, get_active_list_keys, has_all_keys,
  is_shield_commitment_type, is_change, has_valid_pois_active_lists, some_status,
  status_shield_blocked, status_proof_submitted,
}
use railgun_go.Transaction.Solutions.{or_nothing}
use railgun_go.Wallet.State.{StoredTxo}
use railgun_go.Wallet.Balances.{
  TokenBalances, is_included, token_balances_from_txos, poi_txo, bucket_balances,
  wallet_balance_buckets,
}
use railgun_go.Wallet.Balances.Totals.{balance_sum, value_sum, token_balances_from_txos-sum}

-- How often a bucket is listed.
abbrev listed : List Text → Text → ℕ
listed [] bucket = 0
listed (b ∷ buckets) bucket = (if text_eq b bucket then 1 else 0) + listed buckets bucket

abbrev IsBucket : Text → Type 0
IsBucket bucket = listed wallet_balance_buckets bucket ≡ 1

either : (b : Bool) (x y : Text) → IsBucket x → IsBucket y → IsBucket (if b then x else y)
either true x y h k = h
either false x y h k = k

get_balance_bucket-IsBucket :
    (manager : Option Manager) (txo : Txo) → IsBucket (get_balance_bucket manager txo)
unfolding get_balance_bucket text_eq
get_balance_bucket-IsBucket manager txo = either (not (is_blank txo.spend_txid)) _ _ refl (
    either (not (has_all_keys txo.pois (get_active_list_keys manager))) _ _
      (either (is_shield_commitment_type txo.commitment_type) _ _ refl
        (either (is_change txo.output_type) _ _ refl refl))
      (either (has_valid_pois_active_lists manager txo.pois) _ _ refl (
        either (some_status txo.pois (get_active_list_keys manager) status_shield_blocked) _ _ refl
          (either (is_shield_commitment_type txo.commitment_type) _ _ refl (
            either (some_status txo.pois (get_active_list_keys manager) status_proof_submitted) _ _
              refl (either (is_change txo.output_type) _ _ refl refl))))))

module _ {T : Type 0} where
  abbrev pub bucket_sum : TextMap (TokenBalances T) → ℕ
  bucket_sum [] = 0
  bucket_sum ((bucket, balances) ∷ rest) = balance_sum balances + bucket_sum rest

  -- The sums over the buckets, one after the other.
  abbrev value_sums : Option Manager → List Text → List (StoredTxo T) → ℕ
  value_sums manager [] txos = 0
  value_sums manager (bucket ∷ buckets) txos =
      value_sum (is_included manager (bucket ∷ [])) txos + value_sums manager buckets txos

  bucket_balances-sum :
      (token_data_hash : T → Result Text) (manager : Option Manager) (buckets : List Text)
      (txos : List (StoredTxo T)) (out : TextMap (TokenBalances T))
      → bucket_balances token_data_hash txos manager buckets ≡ ok out
      → bucket_sum out ≡ value_sums manager buckets txos
  unfolding bucket_balances
  bucket_balances-sum token_data_hash manager [] txos out e =
      let same : [] ≡ out = cc in rw (← same) refl
  bucket_balances-sum token_data_hash manager (bucket ∷ buckets) txos out e =
      let (balances, first, more) =
        >>=-eq-ok (token_balances_from_txos token_data_hash txos manager (bucket ∷ [])) _ e in
      let (rest, others, done) =
        >>=-eq-ok (bucket_balances token_data_hash txos manager buckets) _ more in
      let same : (bucket, balances) ∷ rest ≡ out = cc in
      rw (← same) (
        omega (
          arith,
          token_balances_from_txos-sum token_data_hash manager (bucket ∷ []) txos balances first,
          bucket_balances-sum token_data_hash manager buckets txos rest others,
        ))

  -- What one UTXO adds to the sums over the buckets.
  value_sums-cons :
      (manager : Option Manager) (buckets : List Text) (txo : StoredTxo T)
      (txos : List (StoredTxo T))
      → value_sums manager buckets (txo ∷ txos)
        ≡ listed buckets (get_balance_bucket manager (poi_txo txo)) * or_nothing txo.value
          + value_sums manager buckets txos
  unfolding is_included contains_text
  value_sums-cons manager [] txo txos = omega arith
  value_sums-cons manager (bucket ∷ buckets) txo txos =
      elim (Bool-cases (text_eq bucket (get_balance_bucket manager (poi_txo txo)))) [
        | inl here ↦ rw here (grind (arith, value_sums-cons manager buckets txo txos))
        | inr other ↦ rw other (omega (arith, value_sums-cons manager buckets txo txos))
      ]

  value_sums-all :
      (manager : Option Manager) (txos : List (StoredTxo T))
      → value_sums manager wallet_balance_buckets txos ≡ value_sum (λ txo. true) txos
  value_sums-all manager [] = omega arith
  value_sums-all manager (txo ∷ txos) =
      value_sums-cons manager wallet_balance_buckets txo txos
      ∙ rw (get_balance_bucket-IsBucket manager (poi_txo txo))
          (omega (arith, value_sums-all manager txos))

  -- When `BalancesByBucket` succeeds on a list of UTXOs, its balances over all buckets and tokens
  -- add up to the values of all the UTXOs: each is in one bucket.
  pub bucket_balances-partition :
      (token_data_hash : T → Result Text) (manager : Option Manager) (txos : List (StoredTxo T))
      (out : TextMap (TokenBalances T))
      → bucket_balances token_data_hash txos manager wallet_balance_buckets ≡ ok out
      → bucket_sum out ≡ value_sum (λ txo. true) txos
  bucket_balances-partition token_data_hash manager txos out e =
      bucket_balances-sum token_data_hash manager wallet_balance_buckets txos out e
      ∙ value_sums-all manager txos
