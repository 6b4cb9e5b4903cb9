-- ===== src/Poi/Manager/Buckets.antt =====
-- pkg/poi/manager.go: `GetBalanceBucket`, and what the wallet may spend.
use railgun_go.Common.{
  ◌≡◌, ◌↔◌, refl, sym, true, Option, none, some, List, [], ◌∷◌, Text, All, is_blank, text_eq_refl,
  text_eq, text_eq→eq, Bool-cases, false, ◌⊎◌, inl, inr, arith,
}
use railgun_go.Poi.Manager.{
  Manager, Txo, PoiList, list_type_active, active_keys_of, PoisPerList, status, status_valid,
  text_or_empty, present, has_each, has_all_keys, contains_text, each_allowed,
  validate_poi_status_for_lists, has_valid_pois_active_lists, get_active_list_keys,
  get_balance_bucket, bucket_spendable,
}

-- Every list holds the commitment valid.
abbrev pub AllValid : PoisPerList → List Text → Type 0
AllValid pois keys = All (λ key. status pois key ≡ status_valid) keys

present-valid : (o : Option Text) → text_or_empty o ≡ status_valid → present o ≡ true
present-valid none h = cc
present-valid (some s) h = refl

has_each-AllValid :
    (pois : Text → Option Text) (keys : List Text)
    → AllValid (some pois) keys
    → has_each pois keys ≡ true
unfolding has_each
has_each-AllValid pois [] h = refl
has_each-AllValid pois (key ∷ keys) h =
    let here : present (pois key) ≡ true = present-valid (pois key) h.0 in
    ground (arith, here, has_each-AllValid pois keys h.1)

each_allowed-AllValid :
    (pois : PoisPerList) (keys : List Text)
    → (each_allowed pois (status_valid ∷ []) keys ≡ true) ↔ AllValid pois keys
unfolding each_allowed contains_text
each_allowed-AllValid pois [] = ((λ h. tt), (λ h. refl))
each_allowed-AllValid pois (key ∷ keys) =
    let rest = each_allowed-AllValid pois keys in
    (
      (λ h.
          (sym (text_eq→eq status_valid (status pois key) (ground arith)), rest.0 (ground arith))),
      (λ h. rw h.0 (ground (arith, text_eq_refl status_valid, rest.1 h.1))),
    )

has_all_keys-AllValid :
    (pois : PoisPerList) (keys : List Text) → AllValid pois keys → has_all_keys pois keys ≡ true
unfolding has_all_keys
has_all_keys-AllValid none [] h = refl
has_all_keys-AllValid none (key ∷ keys) h = cc (h.0)
has_all_keys-AllValid (some pois) keys h = has_each-AllValid pois keys h

pub validate_poi_status_for_lists-AllValid :
    (pois : PoisPerList) (keys : List Text)
    → (validate_poi_status_for_lists pois keys (status_valid ∷ []) ≡ true) ↔ AllValid pois keys
unfolding validate_poi_status_for_lists
validate_poi_status_for_lists-AllValid pois keys =
    let allowed = each_allowed-AllValid pois keys in
    ((λ h. allowed.0 (ground arith)), (λ h. rw (has_all_keys-AllValid pois keys h) (allowed.1 h)))

-- Each list of the manager is of another type than Active, or holds the commitment valid.
abbrev pub ActiveValid : Option Manager → PoisPerList → Type 0
ActiveValid none pois = Unit
ActiveValid (some manager) pois =
    All
      (λ (list : PoiList).
        (text_eq list.type list_type_active ≡ false) ⊎ (status pois list.key ≡ status_valid))
      manager.lists

active_keys_of-AllValid :
    (pois : PoisPerList) (lists : List PoiList)
    → AllValid pois (active_keys_of lists)
      ↔ All
          (λ (list : PoiList).
            (text_eq list.type list_type_active ≡ false) ⊎ (status pois list.key ≡ status_valid))
          lists
unfolding active_keys_of
active_keys_of-AllValid pois [] = ((λ h. tt), (λ h. tt))
active_keys_of-AllValid pois (list ∷ lists) =
    let rest = active_keys_of-AllValid pois lists in
    elim (Bool-cases (text_eq list.type list_type_active)) [
      | inl active ↦ rw active (
        (λ h. (inr h.0, rest.0 h.1)),
        (λ h. elim h.0 [ inl other ↦ cc | inr valid ↦ (valid, rest.1 h.1) ]),
      )
      | inr other ↦ rw other ((λ h. (inl refl, rest.0 h)), (λ h. rest.1 h.1))
    ]

get_active_list_keys-ActiveValid :
    (manager : Option Manager) (pois : PoisPerList)
    → AllValid pois (get_active_list_keys manager) ↔ ActiveValid manager pois
unfolding get_active_list_keys
get_active_list_keys-ActiveValid none pois = ((λ h. tt), (λ h. tt))
get_active_list_keys-ActiveValid (some manager) pois = active_keys_of-AllValid pois manager.lists

-- `GetBalanceBucket` puts a UTXO into the bucket Spendable exactly when it is not spent and every
-- list of the manager whose type is Active has the status Valid for it.
pub get_balance_bucket-spendable :
    (manager : Option Manager) (txo : Txo)
    → (get_balance_bucket manager txo ≡ bucket_spendable)
      ↔ ((is_blank txo.spend_txid ≡ true) × ActiveValid manager txo.pois)
unfolding get_balance_bucket has_valid_pois_active_lists
get_balance_bucket-spendable manager txo =
    let valid = validate_poi_status_for_lists-AllValid txo.pois (get_active_list_keys manager) in
    let active = get_active_list_keys-ActiveValid manager txo.pois in
    (
      (λ h. (ground arith, active.0 (valid.0 (ground arith)))),
      (λ h. ground (
        arith,
        valid.1 (active.1 h.1),
        h.0,
        has_all_keys-AllValid txo.pois (get_active_list_keys manager) (active.1 h.1),
      )),
    )
