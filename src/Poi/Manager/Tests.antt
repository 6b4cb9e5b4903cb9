-- ===== src/Poi/Manager/Tests.antt =====
-- The theorems on the POI manager at concrete inputs: one active list, one that only gathers.
use railgun_go.Common.{
  ◌≡◌, ◌↔◌, refl, true, false, Option, none, some, [], ◌∷◌, codes, text_eq, is_blank,
}
use railgun_go.Poi.Manager.{
  PoiList, Manager, Txo, SentCommitment, PoisPerList, get_balance_bucket, bucket_spendable,
  get_all_list_keys, contains_text, has_all_keys, has_each, validate_poi_status_for_lists,
  each_allowed, has_valid_pois_all_lists,
}
use railgun_go.Poi.Manager.Submit.{
  get_list_keys_can_generate_spent_pois, should_retrieve_sent_commitment_pois,
  should_generate_spent_pois_sent_commitment,
}
use railgun_go.Poi.Manager.Buckets.{ActiveValid, get_balance_bucket-spendable}
use railgun_go.Poi.Manager.Needed.{
  InputsValid, AllDone, get_list_keys_can_generate_spent_pois_iff, should_generate-should_retrieve,
}

abbrev active_list : PoiList
active_list = record { key = codes "a"; type = codes "Active"; name = []; description = [] }

abbrev gather_list : PoiList
gather_list = record { key = codes "g"; type = codes "Gather"; name = []; description = [] }

abbrev manager : Option Manager
manager =
    some (record { lists = active_list ∷ gather_list ∷ []; node = none; launch_blocks = λ c. none })

abbrev valid_pois : PoisPerList
valid_pois = some (λ key. some (codes "Valid"))

abbrev txo : Txo
txo = record {
  spend_txid = [];
  pois = valid_pois;
  commitment_type = codes "TransactCommitmentV2";
  output_type = none;
  value = some 5;
  blinded_commitment = codes "0x01";
  block_number = 9;
  transact_creation_railgun_txid = [];
}

abbrev sent : SentCommitment
sent = record {
  pois = valid_pois;
  value = some 5;
  blinded_commitment = codes "0x01";
  railgun_txid = [];
}

-- Worth nothing, and on no list.
abbrev nothing_sent : SentCommitment
nothing_sent = record sent { value = some 0; pois = none }

get_balance_bucket-spendable_example :
    (get_balance_bucket manager txo ≡ bucket_spendable)
    ↔ ((is_blank txo.spend_txid ≡ true) × ActiveValid manager txo.pois)
get_balance_bucket-spendable_example = get_balance_bucket-spendable manager txo

get_list_keys_can_generate_spent_pois_iff_example :
    (contains_text
        (get_list_keys_can_generate_spent_pois manager
          (txo ∷ [])
          (sent ∷ nothing_sent ∷ [])
          []
          false)
        (codes "a")
      ≡ true)
    ↔ ((contains_text (get_all_list_keys manager) (codes "a") ≡ true)
        × InputsValid (txo ∷ []) (codes "a")
        × (¬ AllDone (sent ∷ nothing_sent ∷ []) [] (codes "a")))
get_list_keys_can_generate_spent_pois_iff_example =
    get_list_keys_can_generate_spent_pois_iff manager (txo ∷ []) (sent ∷ nothing_sent ∷ []) []
      (codes "a")

not_retrieved : should_retrieve_sent_commitment_pois manager sent ≡ false
unfolding should_retrieve_sent_commitment_pois has_valid_pois_all_lists
    validate_poi_status_for_lists has_all_keys has_each each_allowed contains_text get_all_list_keys
    text_eq
not_retrieved = refl

should_generate-should_retrieve_example :
    should_generate_spent_pois_sent_commitment manager sent ≡ false
should_generate-should_retrieve_example = should_generate-should_retrieve manager sent not_retrieved
