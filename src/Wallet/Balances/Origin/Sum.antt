-- ===== src/Wallet/Balances/Origin/Sum.antt =====
-- pkg/wallet/balances.go: what the balances that came from one shield transaction count.
use mathlib.Core.Path.{subst}
use railgun_go.Common.{
  ◌+◌, not, ◌&&◌, ◌||◌, codes, is_blank, Bool, true, false, ◌≡◌, refl, ◌∙◌, Bool-cases, inl, inr,
  if◌then◌else◌, Option, none, some, List, [], ◌∷◌, Text, text_eq, Result, ok, err, >>=-eq-ok,
  Result-cases, arith,
}
use railgun_go.Crypto.Bytes.{format_hex_to_byte_length}
use railgun_go.Poi.Manager.{Manager}
use railgun_go.Transaction.Solutions.{or_nothing}
use railgun_go.Wallet.State.{StoredTxo}
use railgun_go.Wallet.Balances.{TokenBalances, is_included, token_balances_from_txos}
use railgun_go.Wallet.Balances.Totals.{balance_sum, value_sum, token_balances_from_txos-sum}
use railgun_go.Wallet.Balances.Origin.{
  is_left_out, is_shield_commitment_type_for_balance, padded_unless, keep_same, origin_candidates,
}

-- The padded id of a text, if it is one of hex digits, is another.
abbrev pub is_padded : Text → Text → Bool
is_padded txid origin = elim (format_hex_to_byte_length txid 32 true) [
  | ok t ↦ text_eq t origin
  | err e ↦ false
]

module _ {T : Type 0} where
  -- A UTXO without a spend, with a txid that is the origin, of one of the two types of shields.
  abbrev pub is_from : Text → StoredTxo T → Bool
  is_from origin txo =
      is_blank txo.spend_txid
      && not (is_blank txo.txid)
      && (text_eq txo.commitment_type (codes "ShieldCommitment")
          || text_eq txo.commitment_type (codes "LegacyGeneratedCommitment"))
      && is_padded txo.txid origin

  is_from-is_left_out :
      (origin : Text) (txo : StoredTxo T)
      → (not (is_left_out txo) && is_padded txo.txid origin) ≡ is_from origin txo
  unfolding is_left_out is_shield_commitment_type_for_balance
  is_from-is_left_out origin txo = ground arith

  all_counted :
      (txos : List (StoredTxo T)) (manager : Option Manager)
      → value_sum (is_included manager []) txos ≡ value_sum (λ t. true) txos
  unfolding is_included
  all_counted [] manager = refl
  all_counted (txo ∷ txos) manager = omega (arith, all_counted txos manager)

  -- What one UTXO adds.
  abbrev Kept : Text → StoredTxo T → List (StoredTxo T) → Option Text → Type 0
  Kept origin txo rest txid =
      value_sum (λ t. true) (keep_same txid origin txo rest)
      ≡ (if is_from origin txo then or_nothing txo.value else 0) + value_sum (λ t. true) rest

  keep_same-sum :
      (origin : Text) (txo : StoredTxo T) (txid : Option Text) (rest : List (StoredTxo T))
      → padded_unless (is_left_out txo) txo.txid ≡ ok txid
      → Kept origin txo rest txid
  keep_same-sum origin txo txid rest e = elim (Bool-cases (is_left_out txo)) [
    | inl out ↦
        let same : none ≡ txid = cc (rw out at e) in
        subst (λ o. Kept origin txo rest o) same
          (rw (← is_from-is_left_out origin txo) (rw out (omega arith)))
    | inr counted ↦ elim (Result-cases (format_hex_to_byte_length txo.txid 32 true)) [
      | inl (f, bad) ↦ cc (rw (counted, bad) at e)
      | inr (t, padded) ↦
          let same : some t ≡ txid = cc (rw (counted, padded) at e) in
          subst (λ o. Kept origin txo rest o) same
            (rw (← is_from-is_left_out origin txo) (
              rw (counted, is_padded, padded)
                (elim (Bool-cases (text_eq t origin)) [
                  | inl equal ↦ rw equal refl
                  | inr differs ↦ rw differs (omega arith)
                ])))
    ]
  ]

  candidates-sum :
      (origin : Text) (txos candidates : List (StoredTxo T))
      → origin_candidates origin txos ≡ ok candidates
      → value_sum (λ t. true) candidates ≡ value_sum (is_from origin) txos
  unfolding origin_candidates
  candidates-sum origin [] candidates e = let same : [] ≡ candidates = cc in rw (← same) refl
  candidates-sum origin (txo ∷ txos) candidates e =
      let (txid, padded, e1) = >>=-eq-ok (padded_unless (is_left_out txo) txo.txid) _ e in
      let (rest, found, e2) = >>=-eq-ok (origin_candidates origin txos) _ e1 in
      let same : keep_same txid origin txo rest ≡ candidates = cc e2 in
      let ih = candidates-sum origin txos rest found in
      rw (← same) (keep_same-sum origin txo txid rest padded ∙ omega (arith, ih))

  -- When the candidates of `BalancesForUnshieldToOrigin` are found in a list of UTXOs and their
  -- balances are computed, these add up to the values of the UTXOs in the list that are not spent,
  -- whose type is that of a shield, new or legacy, and whose txid is not blank and, padded to 32
  -- bytes, is the origin.
  pub origin_candidates-sum :
      (token_data_hash : T → Result Text) (manager : Option Manager) (origin : Text)
      (txos candidates : List (StoredTxo T)) (balances : TokenBalances T)
      → origin_candidates origin txos ≡ ok candidates
      → token_balances_from_txos token_data_hash candidates manager [] ≡ ok balances
      → balance_sum balances ≡ value_sum (is_from origin) txos
  origin_candidates-sum token_data_hash manager origin txos candidates balances found done =
      token_balances_from_txos-sum token_data_hash manager [] candidates balances done
      ∙ all_counted candidates manager
      ∙ candidates-sum origin txos candidates found
