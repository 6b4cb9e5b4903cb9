-- ===== src/Wallet/SpentEvents/Marked.antt =====
-- pkg/wallet/poi_submission.go: the lists that need a proof after others were submitted.
use railgun_go.Common.{
  ◌≡◌, refl, sym, ◌∙◌, true, false, not, ◌&&◌, ◌||◌, Bool, Bool-cases, inl, inr, Option, none, some,
  List, [], ◌∷◌, Text, is_blank, text_eq, text_eq→eq, text_eq_refl, arith,
}
use mathlib.Core.Path.{subst}
use railgun_go.Poi.Manager.{
  Manager, PoisPerList, status, status_valid, status_proof_submitted, contains_text,
  get_all_list_keys, text_or_empty,
}
use railgun_go.Poi.Manager.Submit.{is_done, find_lists_for_new_pois}
use railgun_go.Poi.Manager.Needed.{contains_text-filter_keys}
use railgun_go.Wallet.SpentEvents.{mark_list, mark_lists, known_statuses, mark_pois_proof_submitted}

-- A list that is marked: its key is given, and is not empty.
abbrev pub marked : List Text → Text → Bool
marked keys key = contains_text keys key && not (is_blank key)

proof_submitted-done : is_done status_proof_submitted ≡ true
unfolding is_done text_eq
proof_submitted-done = refl

mark_self :
    (pois : Text → Option Text) (key : Text)
    → is_done (status (some (mark_list pois key)) key)
      ≡ (is_done (status (some pois) key) || not (is_blank key))
unfolding mark_list is_done
mark_self pois key = elim (Bool-cases (is_blank key)) [
  | inl blank ↦ rw (blank, text_eq_refl key) (ground arith)
  | inr named ↦ elim (Bool-cases (text_eq (text_or_empty (pois key)) status_valid)) [
    | inl valid ↦ rw (text_eq_refl key, named, valid) (ground arith)
    | inr other ↦ rw (text_eq_refl key, named, other) (proof_submitted-done ∙ ground arith)
  ]
]

nothing_done : is_done [] ≡ false
unfolding is_done text_eq
nothing_done = refl

mark_other :
    (pois : Text → Option Text) (k key : Text)
    → text_eq k key ≡ false
    → mark_list pois k key ≡ pois key
unfolding mark_list
mark_other pois k key other = rw other refl

mark_list-done :
    (pois : Text → Option Text) (k key : Text)
    → is_done (status (some (mark_list pois k)) key)
      ≡ (is_done (status (some pois) key) || (text_eq k key && not (is_blank key)))
mark_list-done pois k key = elim (Bool-cases (text_eq k key)) [
  | inl same ↦ rw same (
      subst
        (λ j.
          is_done (status (some (mark_list pois j)) key)
          ≡ (is_done (status (some pois) key) || not (is_blank key)))
        (sym (text_eq→eq k key same)) (mark_self pois key))
  | inr other ↦ rw (mark_other pois k key other, other) (ground arith)
]

mark_lists-done :
    (pois : Text → Option Text) (keys : List Text) (key : Text)
    → is_done (status (some (mark_lists pois keys)) key)
      ≡ (is_done (status (some pois) key) || marked keys key)
unfolding mark_lists contains_text
mark_lists-done pois [] key = ground arith
mark_lists-done pois (k ∷ keys) key =
    mark_lists-done (mark_list pois k) keys key ∙ rw (mark_list-done pois k key) (ground arith)

find_lists-contains :
    (manager : Option Manager) (pois : PoisPerList) (key : Text)
    → contains_text (find_lists_for_new_pois manager pois) key
      ≡ (contains_text (get_all_list_keys manager) key && not (is_done (status pois key)))
unfolding find_lists_for_new_pois
find_lists-contains manager none key = ground (arith, nothing_done)
find_lists-contains manager (some pois) key =
    contains_text-filter_keys (λ k. not (is_done (status (some pois) k)))
      (get_all_list_keys manager) key

mark_pois-done :
    (pois : PoisPerList) (keys : List Text) (key : Text)
    → is_done (status (mark_pois_proof_submitted pois keys) key)
      ≡ (is_done (status pois key) || marked keys key)
unfolding mark_pois_proof_submitted
mark_pois-done none keys key = mark_lists-done (known_statuses none) keys key
mark_pois-done (some pois) keys key = mark_lists-done (known_statuses (some pois)) keys key

-- After statuses are marked as submitted for some list keys, exactly those of the lists that
-- needed a new proof still need one that are not among the keys; an empty key marks nothing.
pub find_lists_for_new_pois-mark_pois_proof_submitted :
    (manager : Option Manager) (pois : PoisPerList) (keys : List Text) (key : Text)
    → contains_text (find_lists_for_new_pois manager (mark_pois_proof_submitted pois keys)) key ≡ (
        contains_text (find_lists_for_new_pois manager pois) key
        && not (contains_text keys key && not (is_blank key)))
find_lists_for_new_pois-mark_pois_proof_submitted manager pois keys key =
    find_lists-contains manager (mark_pois_proof_submitted pois keys) key
    ∙ rw (mark_pois-done pois keys key) (ground (arith, find_lists-contains manager pois key))
