-- ===== src/Wallet/Tests.antt =====
-- The theorems on the wallet at concrete inputs.
use mathlib.Core.Path.{subst}
use railgun_go.Common.{
  ℕ, ◌≡◌, ◌<◌, refl, true, false, none, some, List, [], ◌∷◌, Text, codes, text_eq, Bool-cases, inl,
  inr, Result, ok, arith,
}
use railgun_go.Common.TextMap.{TextMap, find, put, IsTextMap}
use railgun_go.Poi.Manager.{
  get_balance_bucket, contains_text, has_all_keys, get_active_list_keys,
  has_valid_pois_active_lists, validate_poi_status_for_lists, each_allowed, bucket_spent,
  bucket_shield_pending, bucket_missing_internal, bucket_missing_external, bucket_spendable,
  bucket_shield_blocked, bucket_proof_submitted,
}
use railgun_go.Wallet.State.{
  StoredTxo, Txos, upsert_txo, get_txo, spent_by, mark_spent, mark_txo_spent_at_block,
  rollback_txos, at_or_after,
}
use railgun_go.Wallet.State.Reorg.{
  Late, nothing, step, received, spent, IsEarlier, rollback_txos-Late,
}
use railgun_go.Wallet.Balances.{
  TokenBalance, TokenBalances, is_included, add_txo, add_balance, add_balances,
  token_balances_from_txos, token_hash_of, bucket_balances, wallet_balance_buckets,
}
use railgun_go.Wallet.Balances.Totals.{balance_sum, value_sum}
use railgun_go.Wallet.Balances.Buckets.{bucket_sum, bucket_balances-partition}
use railgun_go.Crypto.Bytes.{format_hex_to_byte_length}
use railgun_go.Wallet.Balances.Origin.{
  origin_candidates, is_left_out, is_shield_commitment_type_for_balance,
}
use railgun_go.Wallet.Balances.Origin.Sum.{is_from, origin_candidates-sum}
use railgun_go.Wallet.Balances.Trees.{trees_from, token_balance_across_all_trees}
use railgun_go.Wallet.Balances.Backed.{token_balance_across_all_trees-balance}

abbrev txo : Text → ℕ → ℕ → StoredTxo ℕ
txo nullifier block value = record {
  txid_version = [];
  tree = 0;
  position = 0;
  txid = [];
  timestamp = none;
  block_number = block;
  spend_txid = [];
  spend_block_number = none;
  nullifier = nullifier;
  commitment_hash = [];
  note_public_key = [];
  note_random = [];
  token_hash = codes "t";
  token_data = 0;
  value = some value;
  output_type = none;
  wallet_source = [];
  memo_text = [];
  sender_address = [];
  recipient_address = [];
  shield_fee = [];
  commitment_type = [];
  pois = none;
  blinded_commitment = [];
  transact_creation_railgun_txid = [];
}

abbrev early : Txos ℕ
early = (codes "a", txo (codes "a") 5 30) ∷ []

abbrev with_b : Txos ℕ
with_b = (codes "a", txo (codes "a") 5 30) ∷ (codes "b", txo (codes "b") 9 40) ∷ []

abbrev spent_a : Txos ℕ
spent_a =
    (codes "a", spent_by (codes "x") (some 9) (txo (codes "a") 5 30))
    ∷ (codes "b", txo (codes "b") 9 40)
    ∷ []

upserted : upsert_txo none (some early) (txo (codes "b") 9 40) ≡ ok with_b
unfolding upsert_txo put text_eq
upserted = refl

marked : mark_txo_spent_at_block none (some with_b) (codes "a") (codes "x") 9 ≡ ok spent_a
unfolding mark_txo_spent_at_block mark_spent find put text_eq
marked = refl

early_keys : IsTextMap early
unfolding find
early_keys = (refl, tt)

early_blocks :
    (nullifier : Text) (t : StoredTxo ℕ)
    → find nullifier early ≡ some t
    → (t.block_number < 7) × (at_or_after 7 t.spend_block_number ≡ false)
unfolding find
early_blocks nullifier t e = elim (Bool-cases (text_eq (codes "a") nullifier)) [
  | inl same ↦
      let found : txo (codes "a") 5 30 ≡ t = cc (rw same at e) in
      subst (λ u. (u.block_number < 7) × (at_or_after 7 u.spend_block_number ≡ false)) found
        (omega arith, refl)
  | inr other ↦ cc (rw other at e)
]

early-IsEarlier : IsEarlier 7 early
early-IsEarlier = record { keys = early_keys; blocks = early_blocks }

not_held : find (codes "b") early ≡ none
unfolding find text_eq
not_held = refl

held : find (codes "a") with_b ≡ some (txo (codes "a") 5 30)
unfolding find text_eq
held = refl

late : Late 7 early spent_a
late =
    step (step nothing (received (txo (codes "b") 9 40) (omega arith) not_held upserted))
      (spent (txo (codes "a") 5 30) (codes "a") (codes "x") 9 (omega arith) held refl refl marked)

rollback_txos-Late_example :
    (after : Txos ℕ) × (rollback_txos none (some spent_a) 7 ≡ ok after)
    × (get_txo none (some after) (codes "a") ≡ get_txo none (some early) (codes "a"))
rollback_txos-Late_example = rollback_txos-Late 7 early spent_a (codes "a") early-IsEarlier late

abbrev hash : ℕ → Result Text
hash token = ok (codes "t")

abbrev txos : List (StoredTxo ℕ)
txos = txo (codes "a") 5 30 ∷ txo (codes "b") 9 40 ∷ []

abbrev entry : TokenBalance ℕ
entry = record { balance = 70; token_data = 0; utxos = txos }

balanced : token_balances_from_txos hash txos none [] ≡ ok ((codes "t", entry) ∷ [])
unfolding token_balances_from_txos add_balances add_balance is_included token_hash_of add_txo find
    put text_eq
balanced = refl

entry_held : find (codes "t") ((codes "t", entry) ∷ []) ≡ some entry
unfolding find text_eq
entry_held = refl

token_balance_across_all_trees-balance_example :
    token_balance_across_all_trees (trees_from [] txos) ≡ 70
token_balance_across_all_trees-balance_example =
    token_balance_across_all_trees-balance hash none [] txos ((codes "t", entry) ∷ []) (codes "t")
      entry balanced entry_held

abbrev in_buckets : TextMap (TokenBalances ℕ)
in_buckets =
    (bucket_spent, [])
    ∷ (bucket_shield_pending, [])
    ∷ (bucket_missing_internal, [])
    ∷ (bucket_missing_external, [])
    ∷ (bucket_spendable, (codes "t", entry) ∷ [])
    ∷ (bucket_shield_blocked, [])
    ∷ (bucket_proof_submitted, [])
    ∷ []

bucketed : bucket_balances hash txos none wallet_balance_buckets ≡ ok in_buckets
unfolding bucket_balances token_balances_from_txos add_balances add_balance is_included
    token_hash_of add_txo find put text_eq contains_text get_balance_bucket has_all_keys
    get_active_list_keys has_valid_pois_active_lists validate_poi_status_for_lists each_allowed
bucketed = refl

bucket_balances-partition_example : bucket_sum in_buckets ≡ value_sum (λ t. true) txos
bucket_balances-partition_example = bucket_balances-partition hash none txos in_buckets bucketed

-- The first was shielded by the transaction, the second by another.
abbrev shield : StoredTxo ℕ
shield = record (txo (codes "a") 5 30) {
  txid = codes "0x0A";
  commitment_type = codes "ShieldCommitment";
}

abbrev other_shield : StoredTxo ℕ
other_shield = record (txo (codes "b") 9 40) {
  txid = codes "0x0B";
  commitment_type = codes "ShieldCommitment";
}

-- Of the first transaction, and spent.
abbrev spent_shield : StoredTxo ℕ
spent_shield = record shield { spend_txid = codes "0x0C" }

abbrev origin : Text
origin = codes "0x000000000000000000000000000000000000000000000000000000000000000a"

candidates : origin_candidates origin (shield ∷ spent_shield ∷ other_shield ∷ []) ≡ ok (shield ∷ [])
unfolding origin_candidates is_left_out is_shield_commitment_type_for_balance
    format_hex_to_byte_length text_eq
candidates = refl

abbrev shielded : TokenBalance ℕ
shielded = record { balance = 30; token_data = 0; utxos = shield ∷ [] }

counted : token_balances_from_txos hash (shield ∷ []) none [] ≡ ok ((codes "t", shielded) ∷ [])
unfolding token_balances_from_txos add_balances add_balance is_included token_hash_of add_txo find
    put text_eq
counted = refl

origin_candidates-sum_example :
    balance_sum ((codes "t", shielded) ∷ [])
    ≡ value_sum (is_from origin) (shield ∷ spent_shield ∷ other_shield ∷ [])
origin_candidates-sum_example =
    origin_candidates-sum hash none origin (shield ∷ spent_shield ∷ other_shield ∷ []) (shield ∷ [])
      ((codes "t", shielded) ∷ []) candidates counted
