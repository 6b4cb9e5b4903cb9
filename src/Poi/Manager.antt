-- ===== src/Poi/Manager.antt =====
-- pkg/poi/manager.go: what the manager decides from the statuses of commitments on the lists. A map
-- from list keys to statuses is a function, `none` where it is nil. The node is a parameter.
pub mod Submit
pub mod Buckets
pub mod Needed
mod Tests
use railgun_go.Common.{
  ℕ, ltb, ◌==◌, if◌then◌else◌, Bool, true, false, not, ◌&&◌, ◌||◌, Option, none, some, List, [],
  ◌∷◌, Text, codes, is_blank, text_eq, length, Result, ok, err, ◌>>=◌, required, node_required,
  too_many_commitments, guard, ◌>>◌,
}
use railgun_go.Common.Int.{ℤ, pos, eq_ℤ}
use railgun_go.Chain.{Chain, same_chain}
use railgun_go.Merkle.{MerkleProof}

abbrev pub list_type_active : Text
list_type_active = codes "Active"

abbrev pub status_valid : Text
status_valid = codes "Valid"

abbrev pub status_shield_blocked : Text
status_shield_blocked = codes "ShieldBlocked"

abbrev pub status_proof_submitted : Text
status_proof_submitted = codes "ProofSubmitted"

abbrev pub bucket_spent : Text
bucket_spent = codes "Spent"

abbrev pub bucket_shield_pending : Text
bucket_shield_pending = codes "ShieldPending"

abbrev pub bucket_missing_internal : Text
bucket_missing_internal = codes "MissingInternalPOI"

abbrev pub bucket_missing_external : Text
bucket_missing_external = codes "MissingExternalPOI"

abbrev pub bucket_spendable : Text
bucket_spendable = codes "Spendable"

abbrev pub bucket_shield_blocked : Text
bucket_shield_blocked = codes "ShieldBlocked"

abbrev pub bucket_proof_submitted : Text
bucket_proof_submitted = codes "ProofSubmitted"

pub record PoiList : Type 0 where
  pub key : Text
  pub type : Text
  pub name : Text
  pub description : Text

-- From list keys to statuses.
abbrev pub PoisPerList : Type 0
PoisPerList = Option (Text → Option Text)

pub record Txo : Type 0 where
  pub spend_txid : Text
  pub pois : PoisPerList
  pub commitment_type : Text
  pub output_type : Option ℤ
  pub value : Option ℕ
  pub blinded_commitment : Text
  pub block_number : ℕ
  pub transact_creation_railgun_txid : Text

pub record SentCommitment : Type 0 where
  pub pois : PoisPerList
  pub value : Option ℕ
  pub blinded_commitment : Text
  pub railgun_txid : Text

pub record UnshieldPoiEvent : Type 0 where
  pub pois : PoisPerList
  pub railgun_txid : Text

pub record BlindedCommitmentData : Type 0 where
  pub blinded_commitment : Text
  pub type : Text

pub record GetPoisPerListRequest : Type 0 where
  pub txid_version : Text
  pub chain : Chain
  pub list_keys : List Text
  pub blinded_commitment_datas : List BlindedCommitmentData

-- `NodeInterface`, as far as the manager asks it for something.
pub record Node : Type 0 where
  pub is_active : Chain → Bool
  pub is_required : Chain → Result Bool
  pub get_pois_per_list : GetPoisPerListRequest → Result (List (Text × PoisPerList))
  pub get_poi_merkle_proofs : Text → Chain → Text → List Text → Result (List MerkleProof)
  pub validate_poi_merkle_roots : Text → Chain → Text → List Text → Result Bool

pub record Manager : Type 0 where
  pub lists : List PoiList
  pub node : Option Node
  pub launch_blocks : Chain → Option ℕ

-- What a map gives for a key: the empty string where it has none.
abbrev pub text_or_empty : Option Text → Text
text_or_empty none = []
text_or_empty (some s) = s

abbrev pub status : PoisPerList → Text → Text
status none key = []
status (some pois) key = text_or_empty (pois key)

abbrev pub present : Option Text → Bool
present none = false
present (some s) = true

unfoldable pub new_manager : List PoiList → Option Node → Manager
new_manager lists node = record { lists = lists; node = node; launch_blocks = λ chain. none }

abbrev pub keys_of : List PoiList → List Text
keys_of [] = []
keys_of (list ∷ lists) = list.key ∷ keys_of lists

unfoldable pub get_all_list_keys : Option Manager → List Text
get_all_list_keys none = []
get_all_list_keys (some manager) = keys_of manager.lists

unfoldable pub active_keys_of : List PoiList → List Text
active_keys_of [] = []
active_keys_of (list ∷ lists) =
    let rest = active_keys_of lists in
    if text_eq list.type list_type_active then list.key ∷ rest else rest

unfoldable pub get_active_list_keys : Option Manager → List Text
get_active_list_keys none = []
get_active_list_keys (some manager) = active_keys_of manager.lists

unfoldable pub set_launch_block : Manager → Chain → ℕ → Manager
set_launch_block manager chain block_number = record manager {
  launch_blocks =
      λ other. if same_chain chain other then some block_number else manager.launch_blocks other;
}

unfoldable pub launch_block : Option Manager → Chain → Option ℕ
launch_block none chain = none
launch_block (some manager) chain = manager.launch_blocks chain

unfoldable pub is_legacy_txo : Option Manager → Chain → Txo → Bool
is_legacy_txo manager chain txo = elim (launch_block manager chain) [
  | none ↦ true
  | some block ↦ ltb txo.block_number block
]

unfoldable pub has_each : (Text → Option Text) → List Text → Bool
has_each pois [] = true
has_each pois (key ∷ keys) = present (pois key) && has_each pois keys

unfoldable pub has_all_keys : PoisPerList → List Text → Bool
has_all_keys none [] = true
has_all_keys none (key ∷ keys) = false
has_all_keys (some pois) keys = has_each pois keys

unfoldable pub contains_text : List Text → Text → Bool
contains_text [] s = false
contains_text (t ∷ ts) s = text_eq t s || contains_text ts s

unfoldable pub each_allowed : PoisPerList → List Text → List Text → Bool
each_allowed pois statuses [] = true
each_allowed pois statuses (key ∷ keys) =
    contains_text statuses (status pois key) && each_allowed pois statuses keys

unfoldable pub validate_poi_status_for_lists : PoisPerList → List Text → List Text → Bool
validate_poi_status_for_lists pois list_keys statuses =
    has_all_keys pois list_keys && each_allowed pois statuses list_keys

unfoldable pub has_valid_pois_all_lists : PoisPerList → List Text → Bool
has_valid_pois_all_lists pois list_keys =
    validate_poi_status_for_lists pois list_keys (status_valid ∷ [])

unfoldable pub has_valid_pois_active_lists : Option Manager → PoisPerList → Bool
has_valid_pois_active_lists manager pois =
    validate_poi_status_for_lists pois (get_active_list_keys manager) (status_valid ∷ [])

unfoldable pub is_shield_commitment_type : Text → Bool
is_shield_commitment_type commitment_type =
    text_eq commitment_type (codes "ShieldCommitment")
    || text_eq commitment_type (codes "LegacyGeneratedCommitment")

unfoldable pub is_transact_commitment_type : Text → Bool
is_transact_commitment_type commitment_type =
    text_eq commitment_type (codes "TransactCommitmentV2")
    || text_eq commitment_type (codes "TransactCommitmentV3")
    || text_eq commitment_type (codes "LegacyEncryptedCommitment")

-- `txo.OutputType != nil && *txo.OutputType == OutputTypeChange`
unfoldable pub is_change : Option ℤ → Bool
is_change none = false
is_change (some output_type) = eq_ℤ output_type (pos 2)

-- Some list has the status.
unfoldable pub some_status : PoisPerList → List Text → Text → Bool
some_status pois [] wanted = false
some_status pois (key ∷ keys) wanted =
    text_eq (status pois key) wanted || some_status pois keys wanted

unfoldable pub get_balance_bucket : Option Manager → Txo → Text
get_balance_bucket manager txo =
    let keys = get_active_list_keys manager in
    if not (is_blank txo.spend_txid)
    then bucket_spent
    else if not (has_all_keys txo.pois keys)
    then (if is_shield_commitment_type txo.commitment_type
        then bucket_shield_pending
        else if is_change txo.output_type
        then bucket_missing_internal
        else bucket_missing_external)
    else if has_valid_pois_active_lists manager txo.pois
    then bucket_spendable
    else if some_status txo.pois keys status_shield_blocked
    then bucket_shield_blocked
    else if is_shield_commitment_type txo.commitment_type
    then bucket_shield_pending
    else if some_status txo.pois keys status_proof_submitted
    then bucket_proof_submitted
    else if is_change txo.output_type
    then bucket_missing_internal
    else bucket_missing_external
