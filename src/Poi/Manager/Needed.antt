-- ===== src/Poi/Manager/Needed.antt =====
-- pkg/poi/manager.go: the lists that need a proof of what was spent.
use railgun_go.Common.{
  ◌≡◌, ◌↔◌, ◌⊎◌, ℕ, refl, ap, Bool-cases, inl, inr, Bool, true, false, not, ◌&&◌, ◌||◌, Option,
  none, some, List, [], ◌∷◌, Text, All, is_blank, text_eq, text_eq_refl, text_eq→eq, arith,
}
use railgun_go.Poi.Manager.{
  Manager, Txo, SentCommitment, UnshieldPoiEvent, PoisPerList, status, status_valid,
  status_proof_submitted, contains_text, has_all_keys, validate_poi_status_for_lists,
  has_valid_pois_all_lists, get_all_list_keys,
}
use railgun_go.Poi.Manager.Buckets.{AllValid, validate_poi_status_for_lists-AllValid}
use railgun_go.Poi.Manager.Submit.{
  is_done, big_int_is_zero, filter_keys, inputs_valid, keep_known, input_pois, sent_done,
  unshields_done, none_left, get_all_list_keys_with_valid_input_pois,
  get_list_keys_can_generate_spent_pois, find_lists_for_new_pois,
  should_retrieve_sent_commitment_pois, should_generate_spent_pois_sent_commitment,
}

pub contains_text-filter_keys :
    (test : Text → Bool) (keys : List Text) (key : Text)
    → contains_text (filter_keys test keys) key ≡ (contains_text keys key && test key)
unfolding contains_text filter_keys
contains_text-filter_keys test [] key = refl
contains_text-filter_keys test (k ∷ keys) key = elim (Bool-cases (text_eq k key)) [
  | inl same ↦
      let at_key : test k ≡ test key = ap test (text_eq→eq k key same) in
      ground (arith, same, at_key, contains_text-filter_keys test keys key)
  | inr other ↦ ground (arith, other, contains_text-filter_keys test keys key)
]

-- The list holds the commitment of each spent UTXO valid, where its statuses are known.
abbrev pub InputsValid : List Txo → Text → Type 0
InputsValid txos key = All (λ txo. (txo.pois ≡ none) ⊎ (status txo.pois key ≡ status_valid)) txos

keep_known-valid :
    (pois : PoisPerList) (rest : List PoisPerList) (key : Text)
    → (inputs_valid (keep_known pois rest) key ≡ true)
      ↔ (((pois ≡ none) ⊎ (status pois key ≡ status_valid)) × (inputs_valid rest key ≡ true))
unfolding inputs_valid
keep_known-valid none rest key = ((λ h. (inl refl, h)), (λ h. h.1))
keep_known-valid (some pois) rest key = (
  (λ h. (inr (text_eq→eq (status (some pois) key) status_valid (ground arith)), ground arith)),
  (λ h. elim h.0 [
    | inl absent ↦ cc
    | inr valid ↦ rw valid (ground (arith, text_eq_refl status_valid, h.1))
  ]),
)

inputs_valid-InputsValid :
    (txos : List Txo) (key : Text)
    → (inputs_valid (input_pois txos) key ≡ true) ↔ InputsValid txos key
unfolding inputs_valid input_pois
inputs_valid-InputsValid [] key = ((λ h. tt), (λ h. refl))
inputs_valid-InputsValid (txo ∷ txos) key =
    let here = keep_known-valid txo.pois (input_pois txos) key in
    let rest = inputs_valid-InputsValid txos key in
    ((λ h. ((here.0 h).0, rest.0 (here.0 h).1)), (λ h. here.1 (h.0, rest.1 h.1)))

none_left-done :
    (sent : List SentCommitment) (unshields : List UnshieldPoiEvent) (key : Text)
    → none_left sent unshields ≡ true
    → (sent_done sent key && unshields_done unshields key) ≡ true
unfolding sent_done unshields_done
none_left-done [] [] key h = refl
none_left-done [] (u ∷ us) key h = cc
none_left-done (s ∷ ss) us key h = cc

contains_text-generated :
    (manager : Option Manager) (spent : List Txo) (sent : List SentCommitment)
    (unshields : List UnshieldPoiEvent) (key : Text)
    → contains_text (get_list_keys_can_generate_spent_pois manager spent sent unshields false) key
      ≡ (contains_text (get_all_list_keys manager) key
          && inputs_valid (input_pois spent) key
          && not (sent_done sent key && unshields_done unshields key))
unfolding get_list_keys_can_generate_spent_pois get_all_list_keys_with_valid_input_pois
    contains_text
contains_text-generated manager spent sent unshields key =
    elim (Bool-cases (none_left sent unshields)) [
      | inl nothing ↦ rw nothing (ground (arith, none_left-done sent unshields key nothing))
      | inr something ↦
          rw something (rw contains_text-filter_keys (rw contains_text-filter_keys (ground arith)))
    ]

-- The list has the commitment as valid, or as submitted.
abbrev pub IsDone : PoisPerList → Text → Type 0
IsDone pois key = (status pois key ≡ status_valid) ⊎ (status pois key ≡ status_proof_submitted)

-- Every sent commitment that is worth something is done, and every unshield event.
abbrev pub AllDone : List SentCommitment → List UnshieldPoiEvent → Text → Type 0
AllDone sent unshields key =
    All (λ (s : SentCommitment). (s.value ≡ none) ⊎ (s.value ≡ some 0) ⊎ IsDone s.pois key) sent
    × All (λ (u : UnshieldPoiEvent). IsDone u.pois key) unshields

is_done-IsDone :
    (pois : PoisPerList) (key : Text) → (is_done (status pois key) ≡ true) ↔ IsDone pois key
unfolding is_done
is_done-IsDone pois key = (
  (λ h. elim (Bool-cases (text_eq (status pois key) status_valid)) [
    | inl valid ↦ inl (text_eq→eq (status pois key) status_valid valid)
    | inr other ↦
        inr (text_eq→eq (status pois key) status_proof_submitted (ground (arith, h, other)))
  ]),
  (λ h. elim h [
    | inl valid ↦ rw valid (ground (arith, text_eq_refl status_valid))
    | inr submitted ↦ rw submitted (ground (arith, text_eq_refl status_proof_submitted))
  ]),
)

big_int_is_zero-none :
    (value : Option ℕ) → (big_int_is_zero value ≡ true) ↔ ((value ≡ none) ⊎ (value ≡ some 0))
big_int_is_zero-none none = ((λ h. inl refl), (λ h. refl))
big_int_is_zero-none (some v) = (
  (λ h. let zero : v ≡ 0 = ground (arith, h) in inr (ap some zero)),
  (λ h. elim h [ inl absent ↦ cc | inr zero ↦ let same : v ≡ 0 = cc in ground (arith, same) ]),
)

sent_done-All :
    (sent : List SentCommitment) (key : Text)
    → (sent_done sent key ≡ true)
      ↔ All (λ (s : SentCommitment). (s.value ≡ none) ⊎ (s.value ≡ some 0) ⊎ IsDone s.pois key) sent
unfolding sent_done
sent_done-All [] key = ((λ h. tt), (λ h. refl))
sent_done-All (s ∷ sent) key =
    let rest = sent_done-All sent key in
    let here = is_done-IsDone s.pois key in
    let zero = big_int_is_zero-none s.value in
    (
      (λ h. (
        elim (Bool-cases (big_int_is_zero s.value)) [
          | inl nothing ↦ elim (zero.0 nothing) [
            | inl absent ↦ inl absent
            | inr is_zero ↦ inr (inl is_zero)
          ]
          | inr something ↦ inr (inr (here.0 (ground (arith, h, something))))
        ],
        rest.0 (ground (arith, h)),
      )),
      (λ h. elim h.0 [
        | inl absent ↦ ground (arith, zero.1 (inl absent), rest.1 h.1)
        | inr (inl is_zero) ↦ ground (arith, zero.1 (inr is_zero), rest.1 h.1)
        | inr (inr done) ↦ ground (arith, here.1 done, rest.1 h.1)
      ]),
    )

unshields_done-All :
    (unshields : List UnshieldPoiEvent) (key : Text)
    → (unshields_done unshields key ≡ true)
      ↔ All (λ (u : UnshieldPoiEvent). IsDone u.pois key) unshields
unfolding unshields_done
unshields_done-All [] key = ((λ h. tt), (λ h. refl))
unshields_done-All (u ∷ unshields) key =
    let rest = unshields_done-All unshields key in
    let here = is_done-IsDone u.pois key in
    (
      (λ h. (here.0 (ground (arith, h)), rest.0 (ground (arith, h)))),
      (λ h. ground (arith, here.1 h.0, rest.1 h.1)),
    )

unshields_done-AllDone :
    (sent : List SentCommitment) (unshields : List UnshieldPoiEvent) (key : Text)
    → ((sent_done sent key && unshields_done unshields key) ≡ false)
      ↔ (¬ AllDone sent unshields key)
unshields_done-AllDone sent unshields key =
    let first = sent_done-All sent key in
    let second = unshields_done-All unshields key in
    (
      (λ h all. let a = first.1 all.0 in let b = second.1 all.1 in cc (rw (a, b) at h)),
      (λ h. elim (Bool-cases (sent_done sent key && unshields_done unshields key)) [
        | inl done ↦ absurd (h (first.0 (ground (arith, done)), second.0 (ground (arith, done))))
        | inr pending ↦ pending
      ]),
    )

-- For proofs that are not legacy, `GetListKeysCanGenerateSpentPOIs` returns a key exactly when it
-- is the key of a list, the list holds each spent UTXO with known statuses valid, and not all is
-- done: some sent commitment that is worth something, or some unshield event, has another status
-- there than Valid and ProofSubmitted.
pub get_list_keys_can_generate_spent_pois_iff :
    (manager : Option Manager) (spent : List Txo) (sent : List SentCommitment)
    (unshields : List UnshieldPoiEvent) (key : Text)
    → (contains_text (get_list_keys_can_generate_spent_pois manager spent sent unshields false) key
        ≡ true)
      ↔ ((contains_text (get_all_list_keys manager) key ≡ true)
          × InputsValid spent key
          × (¬ AllDone sent unshields key))
unfolding get_list_keys_can_generate_spent_pois get_all_list_keys_with_valid_input_pois
get_list_keys_can_generate_spent_pois_iff manager spent sent unshields key =
    let bools = contains_text-generated manager spent sent unshields key in
    let inputs = inputs_valid-InputsValid spent key in
    let pending = unshields_done-AllDone sent unshields key in
    (
      (λ h. (
        ground (arith, bools, h),
        inputs.0 (ground (arith, bools, h)),
        pending.0 (ground (arith, bools, h)),
      )),
      (λ h. ground (arith, bools, h.0, inputs.1 h.1, pending.1 h.2)),
    )

is_done-status :
    (pois : PoisPerList) (keys : List Text)
    → AllValid pois keys
    → filter_keys (λ key. not (is_done (status pois key))) keys ≡ []
unfolding filter_keys is_done
is_done-status pois [] h = refl
is_done-status pois (key ∷ keys) h =
    rw h.0 (ground (arith, text_eq_refl status_valid, is_done-status pois keys h.1))

no_keys : (keys : List Text) → has_all_keys none keys ≡ true → keys ≡ []
unfolding has_all_keys
no_keys [] h = refl
no_keys (key ∷ keys) h = cc

find_lists-valid :
    (manager : Option Manager) (pois : PoisPerList)
    → has_valid_pois_all_lists pois (get_all_list_keys manager) ≡ true
    → find_lists_for_new_pois manager pois ≡ []
unfolding has_valid_pois_all_lists find_lists_for_new_pois
find_lists-valid manager none h =
    no_keys (get_all_list_keys manager) (unfold validate_poi_status_for_lists in ground arith)
find_lists-valid manager (some pois) h =
    is_done-status (some pois) (get_all_list_keys manager)
      ((validate_poi_status_for_lists-AllValid (some pois) (get_all_list_keys manager)).0 h)

-- No proof is generated for a sent commitment whose statuses need not be retrieved.
pub should_generate-should_retrieve :
    (manager : Option Manager) (sent : SentCommitment)
    → should_retrieve_sent_commitment_pois manager sent ≡ false
    → should_generate_spent_pois_sent_commitment manager sent ≡ false
unfolding should_retrieve_sent_commitment_pois should_generate_spent_pois_sent_commitment
should_generate-should_retrieve manager sent h =
    elim (Bool-cases (is_blank sent.blinded_commitment || big_int_is_zero sent.value)) [
      | inl nothing ↦ rw nothing refl
      | inr something ↦
          let valid : has_valid_pois_all_lists sent.pois (get_all_list_keys manager) ≡ true =
            ground (arith, something) in
          rw something (rw (find_lists-valid manager sent.pois valid) refl)
    ]
