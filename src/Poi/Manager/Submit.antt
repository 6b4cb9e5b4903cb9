-- ===== src/Poi/Manager/Submit.antt =====
-- pkg/poi/manager.go: for which lists proofs are generated and submitted, what is retrieved, and
-- the manager's requests to the node.
use railgun_go.Common.{
  ℕ, ltb, ◌==◌, if◌then◌else◌, Bool, true, false, not, ◌&&◌, ◌||◌, Option, none, some, List, [],
  ◌∷◌, Text, is_blank, text_eq, length, Result, ok, ◌>>=◌, ◌>>◌, required, guard, node_required,
  too_many_commitments,
}
use railgun_go.Chain.{Chain}
use railgun_go.Merkle.{MerkleProof}
use railgun_go.Poi.Manager.{
  PoisPerList, Txo, SentCommitment, UnshieldPoiEvent, BlindedCommitmentData, Node, Manager, status,
  status_valid, status_proof_submitted, get_all_list_keys, is_legacy_txo,
  is_transact_commitment_type, has_valid_pois_all_lists, bucket_shield_pending,
  bucket_missing_internal, bucket_missing_external, bucket_spendable, bucket_shield_blocked,
  bucket_proof_submitted,
}

abbrev pub node_of : Option Manager → Option Node
node_of none = none
node_of (some manager) = manager.node

unfoldable pub is_active_for_chain : Option Manager → Chain → Bool
is_active_for_chain manager chain = elim (node_of manager) [
  | none ↦ false
  | some node ↦ node.is_active chain
]

unfoldable pub is_required_for_chain : Option Manager → Chain → Result Bool
is_required_for_chain manager chain = do
  node ← required (node_of manager) node_required
  node.is_required chain

unfoldable pub get_spendable_balance_buckets : Option Manager → Chain → Result (List Text)
get_spendable_balance_buckets manager chain = do
  needed ← is_required_for_chain manager chain
  ok (
      if needed
      then bucket_spendable ∷ []
      else bucket_shield_pending ∷ bucket_missing_internal ∷ bucket_missing_external
        ∷ bucket_spendable ∷ bucket_shield_blocked ∷ bucket_proof_submitted ∷ [])

unfoldable pub should_submit_legacy_transact_events_txo : Option Manager → Chain → Txo → Bool
should_submit_legacy_transact_events_txo none chain txo = false
should_submit_legacy_transact_events_txo (some manager) chain txo =
    if is_blank txo.transact_creation_railgun_txid || is_blank txo.blinded_commitment
    then false
    else if not (is_legacy_txo (some manager) chain txo)
    then false
    else elim txo.pois [
      | none ↦ false
      | some pois ↦
          if not (is_transact_commitment_type txo.commitment_type)
          then false
          else not (has_valid_pois_all_lists (some pois) (get_all_list_keys (some manager)))
    ]

-- `validStatuses[status]`
unfoldable pub is_done : Text → Bool
is_done s = text_eq s status_valid || text_eq s status_proof_submitted

-- `bigIntIsZero`
abbrev pub big_int_is_zero : Option ℕ → Bool
big_int_is_zero none = true
big_int_is_zero (some v) = v == 0

unfoldable pub inputs_valid : List PoisPerList → Text → Bool
inputs_valid [] key = true
inputs_valid (pois ∷ inputs) key = text_eq (status pois key) status_valid && inputs_valid inputs key

-- The keys that pass a test, in order.
unfoldable pub filter_keys : (Text → Bool) → List Text → List Text
filter_keys test [] = []
filter_keys test (key ∷ keys) =
    let rest = filter_keys test keys in if test key then key ∷ rest else rest

unfoldable pub get_all_list_keys_with_valid_input_pois :
    Option Manager → List PoisPerList → List Text
get_all_list_keys_with_valid_input_pois manager inputs =
    filter_keys (inputs_valid inputs) (get_all_list_keys manager)

abbrev pub keep_known : PoisPerList → List PoisPerList → List PoisPerList
keep_known none rest = rest
keep_known (some pois) rest = some pois ∷ rest

-- Inputs whose map is not nil.
unfoldable pub input_pois : List Txo → List PoisPerList
input_pois [] = []
input_pois (txo ∷ txos) = keep_known txo.pois (input_pois txos)

unfoldable pub sent_done : List SentCommitment → Text → Bool
sent_done [] key = true
sent_done (sent ∷ commitments) key =
    (big_int_is_zero sent.value || is_done (status sent.pois key)) && sent_done commitments key

unfoldable pub unshields_done : List UnshieldPoiEvent → Text → Bool
unshields_done [] key = true
unshields_done (event ∷ events) key = is_done (status event.pois key) && unshields_done events key

abbrev pub none_left : List SentCommitment → List UnshieldPoiEvent → Bool
none_left [] [] = true
none_left _ _ = false

unfoldable pub get_list_keys_can_generate_spent_pois :
    Option Manager → List Txo → List SentCommitment → List UnshieldPoiEvent → Bool → List Text
get_list_keys_can_generate_spent_pois manager spent_txos sent_commitments unshield_events
      is_legacy =
    let keys =
      if is_legacy
      then get_all_list_keys manager
      else get_all_list_keys_with_valid_input_pois manager (input_pois spent_txos) in
    if none_left sent_commitments unshield_events
    then []
    else filter_keys
        (λ key. not (sent_done sent_commitments key) || not (unshields_done unshield_events key))
        keys

abbrev pub pois_of : List Txo → List PoisPerList
pois_of [] = []
pois_of (txo ∷ txos) = txo.pois ∷ pois_of txos

unfoldable pub get_list_keys_can_submit_legacy_transact_events :
    Option Manager → List Txo → List Text
get_list_keys_can_submit_legacy_transact_events manager txos =
    filter_keys (λ key. not (inputs_valid (pois_of txos) key)) (get_all_list_keys manager)

unfoldable pub should_retrieve_txo_pois : Option Manager → Txo → Bool
should_retrieve_txo_pois manager txo =
    if is_blank txo.blinded_commitment
    then false
    else not (has_valid_pois_all_lists txo.pois (get_all_list_keys manager))

unfoldable pub should_retrieve_sent_commitment_pois : Option Manager → SentCommitment → Bool
should_retrieve_sent_commitment_pois manager sent =
    if is_blank sent.blinded_commitment || big_int_is_zero sent.value
    then false
    else not (has_valid_pois_all_lists sent.pois (get_all_list_keys manager))

unfoldable pub should_retrieve_unshield_event_pois : Option Manager → UnshieldPoiEvent → Bool
should_retrieve_unshield_event_pois manager event =
    if is_blank event.railgun_txid
    then false
    else not (has_valid_pois_all_lists event.pois (get_all_list_keys manager))

unfoldable pub find_lists_for_new_pois : Option Manager → PoisPerList → List Text
find_lists_for_new_pois manager none = get_all_list_keys manager
find_lists_for_new_pois manager (some pois) =
    filter_keys (λ key. not (is_done (status (some pois) key))) (get_all_list_keys manager)

abbrev pub any_key : List Text → Bool
any_key [] = false
any_key (key ∷ keys) = true

unfoldable pub should_generate_spent_pois_sent_commitment : Option Manager → SentCommitment → Bool
should_generate_spent_pois_sent_commitment manager sent =
    if is_blank sent.blinded_commitment || big_int_is_zero sent.value
    then false
    else any_key (find_lists_for_new_pois manager sent.pois)

unfoldable pub should_generate_spent_pois_unshield_event : Option Manager → UnshieldPoiEvent → Bool
should_generate_spent_pois_unshield_event manager event =
    if is_blank event.railgun_txid
    then false
    else any_key (find_lists_for_new_pois manager event.pois)

unfoldable pub retrieve_pois_for_blinded_commitments :
    Option Manager → Text → Chain → List BlindedCommitmentData → Result (List (Text × PoisPerList))
retrieve_pois_for_blinded_commitments manager txid_version chain commitments = do
  node ← required (node_of manager) node_required
  guard (not (ltb 1000 (length commitments))) too_many_commitments
  node.get_pois_per_list (record {
    txid_version = txid_version;
    chain = chain;
    list_keys = get_all_list_keys manager;
    blinded_commitment_datas = commitments;
  })

unfoldable pub get_poi_merkle_proofs :
    Option Manager → Text → Chain → Text → List Text → Result (List MerkleProof)
get_poi_merkle_proofs manager txid_version chain list_key blinded_commitments = do
  node ← required (node_of manager) node_required
  node.get_poi_merkle_proofs txid_version chain list_key blinded_commitments

unfoldable pub validate_poi_merkle_roots :
    Option Manager → Text → Chain → Text → List Text → Result Bool
validate_poi_merkle_roots manager txid_version chain list_key roots = do
  node ← required (node_of manager) node_required
  node.validate_poi_merkle_roots txid_version chain list_key roots
