-- ===== src/Common/Map.antt =====
-- Go maps with integer keys, as association lists. The order of the list is the order in which a
-- `range` visits the entries; Go leaves it open.
use railgun_go.Common.Tests.{◌==◌, ==_iff, Bool-cases, if◌then◌else◌}
use mathlib.Core.Logic.{inl, inr}
use Prim.Native.Nat.{ℕ}
use mathlib.Core.Path.{◌≡◌, refl, subst}
use mathlib.Core.Bool.{Bool, false, ◌||◌}
use mathlib.Core.Option.{Option, none, some}
use mathlib.Core.List.{List, [], ◌∷◌}
use native.Mathlib.Omega.{arith}

abbrev pub Map {ℓ} : Type ℓ → Type ℓ
Map V = List (ℕ × V)

module _ {ℓ} {V : Type ℓ} where
  unfoldable pub lookup : ℕ → Map V → Option V
  lookup k [] = none
  lookup k ((j, v) ∷ m) = if j == k then some v else lookup k m

  unfoldable pub delete : ℕ → Map V → Map V
  delete k [] = []
  delete k ((j, v) ∷ m) = let rest = delete k m in if j == k then rest else (j, v) ∷ rest

  unfoldable pub insert : ℕ → V → Map V → Map V
  insert k v [] = (k, v) ∷ []
  insert k v ((j, w) ∷ m) = if j == k then (k, v) ∷ m else (j, w) ∷ insert k v m

  unfoldable pub keys : Map V → List ℕ
  keys [] = []
  keys ((j, v) ∷ m) = j ∷ keys m

  pub lookup-insert :
      (new at_key : ℕ) (entry : V) (entries : Map V)
      → lookup at_key (insert new entry entries)
        ≡ (if new == at_key then some entry else lookup at_key entries)
  unfolding insert lookup
  lookup-insert new at_key entry [] = refl
  lookup-insert new at_key entry ((key, old) ∷ entries) =
      ground (arith, lookup-insert new at_key entry entries)

  pub lookup-delete :
      (k j : ℕ) (m : Map V) → lookup j (delete k m) ≡ (if k == j then none else lookup j m)
  unfolding lookup delete
  lookup-delete k j [] = ground arith
  lookup-delete k j ((i, w) ∷ m) = ground (arith, lookup-delete k j m)

unfoldable pub contains : List ℕ → ℕ → Bool
contains [] k = false
contains (j ∷ js) k = j == k || contains js k

module _ {ℓ} {V : Type ℓ} where
  -- Each key stands in the list once.
  abbrev pub IsMap : Map V → Type ℓ
  IsMap [] = Unit
  IsMap ((j, v) ∷ m) = (lookup j m ≡ none) × IsMap m

  pub insert-IsMap : (k : ℕ) (v : V) (m : Map V) → IsMap m → IsMap (insert k v m)
  unfolding insert lookup
  insert-IsMap k v [] h = (refl, tt)
  insert-IsMap k v ((j, w) ∷ m) h = elim (Bool-cases (j == k)) [
    | inl same ↦ rw same (rw ((==_iff j k).0 same) at h)
    | inr new ↦ rw new (ground (arith, lookup-insert k j v m, h.0), insert-IsMap k v m h.1)
  ]

  -- The entries that pass a test.
  unfoldable pub filter_entries : (V → Bool) → Map V → Map V
  filter_entries p [] = []
  filter_entries p ((j, v) ∷ m) =
      let rest = filter_entries p m in if p v then (j, v) ∷ rest else rest

  abbrev pub keep : (V → Bool) → Option V → Option V
  keep p none = none
  keep p (some v) = if p v then some v else none

  pub lookup-filter_entries :
      (p : V → Bool) (k : ℕ) (m : Map V)
      → IsMap m
      → lookup k (filter_entries p m) ≡ keep p (lookup k m)
  unfolding filter_entries lookup
  lookup-filter_entries p k [] h = refl
  lookup-filter_entries p k ((j, v) ∷ m) h = ground (arith, lookup-filter_entries p k m h.1, h.0)

  pub filter_entries-IsMap : (p : V → Bool) (m : Map V) → IsMap m → IsMap (filter_entries p m)
  unfolding filter_entries
  filter_entries-IsMap p [] h = tt
  filter_entries-IsMap p ((j, v) ∷ m) h = elim (Bool-cases (p v)) [
    | inl in_it ↦
        rw in_it (rw (lookup-filter_entries p j m h.1, h.0) refl, filter_entries-IsMap p m h.1)
    | inr out ↦ rw out (filter_entries-IsMap p m h.1)
  ]

module _ {ℓ κ} {V : Type ℓ} (P : ℕ → V → Type κ) where
  -- Every entry satisfies the predicate.
  abbrev pub Entries : Map V → Type κ
  Entries [] = Unit
  Entries ((k, v) ∷ m) = P k v × Entries m

  pub insert-Entries : (k : ℕ) (v : V) (m : Map V) → P k v → Entries m → Entries (insert k v m)
  unfolding insert
  insert-Entries k v [] p h = (p, tt)
  insert-Entries k v ((j, w) ∷ m) p h = elim (Bool-cases (j == k)) [
    | inl same ↦ rw same (p, h.1)
    | inr new ↦ rw new (h.0, insert-Entries k v m p h.1)
  ]

  pub filter_entries-Entries : (f : V → Bool) (m : Map V) → Entries m → Entries (filter_entries f m)
  unfolding filter_entries
  filter_entries-Entries f [] h = tt
  filter_entries-Entries f ((j, v) ∷ m) h = elim (Bool-cases (f v)) [
    | inl in_it ↦ rw in_it (h.0, filter_entries-Entries f m h.1)
    | inr out ↦ rw out (filter_entries-Entries f m h.1)
  ]

  pub lookup-Entries : (k : ℕ) (v : V) (m : Map V) → Entries m → lookup k m ≡ some v → P k v
  unfolding lookup
  lookup-Entries k v [] h e = cc
  lookup-Entries k v ((j, w) ∷ m) h e = elim (Bool-cases (j == k)) [
    | inl same ↦
        let found : w ≡ v = cc (rw same at e) in
        subst (λ i. P i v) ((==_iff j k).0 same) (subst (P j) found h.0)
    | inr new ↦ lookup-Entries k v m h.1 (rw new at e)
  ]
