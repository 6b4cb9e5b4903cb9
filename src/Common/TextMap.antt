-- ===== src/Common/TextMap.antt =====
-- Go maps with string keys, as association lists. The order of the list is the order in which a
-- `range` visits the entries.
use mathlib.Core.Path.{◌≡◌, refl, ap, ◌∙◌}
use mathlib.Core.Logic.{inl, inr}
use mathlib.Core.Option.{Option, none, some}
use mathlib.Core.List.{List, [], ◌∷◌}
use native.Mathlib.Omega.{arith}
use railgun_go.Common.Tests.{Bool-cases, if◌then◌else◌}
use railgun_go.Common.Lists.{Text, text_eq, text_eq→eq, text_eq_refl, text_eq_sym}

abbrev pub TextMap {ℓ} : Type ℓ → Type ℓ
TextMap V = List (Text × V)

module _ {ℓ} {V : Type ℓ} where
  unfoldable pub find : Text → TextMap V → Option V
  find key [] = none
  find key ((other, value) ∷ entries) = if text_eq other key then some value else find key entries

  unfoldable pub put : Text → V → TextMap V → TextMap V
  put key value [] = (key, value) ∷ []
  put key value ((other, old) ∷ entries) =
      if text_eq other key then (key, value) ∷ entries else (other, old) ∷ put key value entries

  abbrev pub cons_some : Text → Option V → TextMap V → TextMap V
  cons_some key none entries = entries
  cons_some key (some value) entries = (key, value) ∷ entries

  abbrev pub values_of : TextMap V → List V
  values_of [] = []
  values_of ((key, value) ∷ entries) = value ∷ values_of entries

  -- Each entry is changed or dropped.
  unfoldable pub change_entries : (V → Option V) → TextMap V → TextMap V
  change_entries change [] = []
  change_entries change ((key, value) ∷ entries) =
      cons_some key (change value) (change_entries change entries)

  abbrev pub changed : (V → Option V) → Option V → Option V
  changed change none = none
  changed change (some value) = change value

  -- Each key stands in the list once.
  abbrev pub IsTextMap : TextMap V → Type ℓ
  IsTextMap [] = Unit
  IsTextMap ((key, value) ∷ entries) = (find key entries ≡ none) × IsTextMap entries

  pub find-put :
      (key at_key : Text) (value : V) (entries : TextMap V)
      → find at_key (put key value entries)
        ≡ (if text_eq key at_key then some value else find at_key entries)
  unfolding find put
  find-put key at_key value [] = refl
  find-put key at_key value ((other, old) ∷ entries) = elim (Bool-cases (text_eq other key)) [
    | inl same ↦ rw (← text_eq→eq other key same) (rw (text_eq_refl other) (ground arith))
    | inr new ↦ elim (Bool-cases (text_eq other at_key)) [
      | inl here ↦
          rw (← text_eq→eq other at_key here)
            (ground (arith, new, text_eq_sym key other, text_eq_refl other))
      | inr there ↦ ground (arith, new, there, find-put key at_key value entries)
    ]
  ]

  find-cons_some :
      (key at_key : Text) (value : Option V) (entries : TextMap V)
      → find at_key entries ≡ none
      → find key (cons_some at_key value entries)
        ≡ (if text_eq at_key key then value else find key entries)
  unfolding find
  find-cons_some key at_key none entries absent = elim (Bool-cases (text_eq at_key key)) [
    | inl same ↦ rw (← text_eq→eq at_key key same) (rw (text_eq_refl at_key) absent)
    | inr other ↦ rw other refl
  ]
  find-cons_some key at_key (some value) entries absent = refl

  pub find-change_entries :
      (change : V → Option V) (key : Text) (entries : TextMap V)
      → IsTextMap entries
      → find key (change_entries change entries) ≡ changed change (find key entries)
  unfolding change_entries find
  find-change_entries change key [] h = refl
  find-change_entries change key ((other, value) ∷ entries) h =
      let absent : find other (change_entries change entries) ≡ none =
        find-change_entries change other entries h.1 ∙ ap (changed change) h.0 in
      find-cons_some key other (change value) (change_entries change entries) absent
      ∙ ground (arith, find-change_entries change key entries h.1)

  cons_some-IsTextMap :
      (key : Text) (value : Option V) (entries : TextMap V)
      → find key entries ≡ none
      → IsTextMap entries
      → IsTextMap (cons_some key value entries)
  cons_some-IsTextMap key none entries absent h = h
  cons_some-IsTextMap key (some value) entries absent h = (absent, h)

  pub change_entries-IsTextMap :
      (change : V → Option V) (entries : TextMap V)
      → IsTextMap entries
      → IsTextMap (change_entries change entries)
  unfolding change_entries
  change_entries-IsTextMap change [] h = tt
  change_entries-IsTextMap change ((key, value) ∷ entries) h =
      cons_some-IsTextMap key (change value) (change_entries change entries)
        (find-change_entries change key entries h.1 ∙ ap (changed change) h.0)
        (change_entries-IsTextMap change entries h.1)

  pub put-IsTextMap :
      (key : Text) (value : V) (entries : TextMap V)
      → IsTextMap entries
      → IsTextMap (put key value entries)
  unfolding put find
  put-IsTextMap key value [] h = (refl, tt)
  put-IsTextMap key value ((other, old) ∷ entries) h = elim (Bool-cases (text_eq other key)) [
    | inl same ↦ rw same (rw (text_eq→eq other key same) at h)
    | inr new ↦ rw new (
      find-put key other value entries ∙ ground (arith, new, text_eq_sym key other, h.0),
      put-IsTextMap key value entries h.1,
    )
  ]
