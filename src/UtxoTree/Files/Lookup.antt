-- ===== src/UtxoTree/Files/Lookup.antt =====
-- pkg/utxotree/store.go: the last leaf of a list at a position, and sorting.
use mathlib.Core.Path.{subst}
use railgun_go.Common.{
  ℕ, ◌≡◌, refl, ap, sym, ◌∙◌, true, false, ◌==◌, ◌&&◌, Bool-cases, inl, inr, Option, Bool, none,
  some, List, [], ◌∷◌, ◌++◌, if◌then◌else◌, arith,
}
use railgun_go.UtxoTree.{Leaf}
use railgun_go.UtxoTree.Store.{Leaves, put_leaf, put_leaves, before, insert_sorted, sort_leaves}
use railgun_go.UtxoTree.Store.Laws.{leaf_at, lookup-put_leaf}

abbrev pub at : ℕ → ℕ → Leaf → Bool
at tree index leaf = leaf.tree == tree && leaf.index == index

abbrev pub or_else : Option Leaf → Option Leaf → Option Leaf
or_else none other = other
or_else (some leaf) other = some leaf

-- The last leaf of a list at a position.
abbrev pub last_at : ℕ → ℕ → List Leaf → Option Leaf
last_at tree index [] = none
last_at tree index (leaf ∷ leaves) =
    or_else (last_at tree index leaves) (if at tree index leaf then some leaf else none)

pub or_else-if :
    (o : Option Leaf) (b : Bool) (x : Leaf) (rest : Option Leaf)
    → or_else o (if b then some x else rest) ≡ or_else (or_else o (if b then some x else none)) rest
or_else-if (some y) b x rest = refl
or_else-if none true x rest = refl
or_else-if none false x rest = refl

pub or_else-none : (o p : Option Leaf) → or_else o p ≡ none → (o ≡ none) × (p ≡ none)
or_else-none none p h = (refl, h)
or_else-none (some x) p h = cc

pub or_none : (o : Option Leaf) → o ≡ or_else o none
or_none none = refl
or_none (some x) = refl

pub or_else_assoc : (o p q : Option Leaf) → or_else (or_else o p) q ≡ or_else o (or_else p q)
or_else_assoc none p q = refl
or_else_assoc (some x) p q = refl

pub leaf_at-put_leaves :
    (tree index : ℕ) (leaves : List Leaf) (store : Leaves)
    → leaf_at tree index (put_leaves leaves store)
      ≡ or_else (last_at tree index leaves) (leaf_at tree index store)
unfolding put_leaves
leaf_at-put_leaves tree index [] store = refl
leaf_at-put_leaves tree index (leaf ∷ leaves) store =
    leaf_at-put_leaves tree index leaves (put_leaf leaf store)
    ∙ ap (or_else (last_at tree index leaves)) (lookup-put_leaf leaf store tree index)
    ∙ or_else-if (last_at tree index leaves) (at tree index leaf) leaf (leaf_at tree index store)

pub last_at-append :
    (tree index : ℕ) (xs ys : List Leaf)
    → last_at tree index (xs ++ ys) ≡ or_else (last_at tree index ys) (last_at tree index xs)
last_at-append tree index [] ys = or_none (last_at tree index ys)
last_at-append tree index (x ∷ xs) ys =
    ap (λ o. or_else o (if at tree index x then some x else none)) (last_at-append tree index xs ys)
    ∙ or_else_assoc (last_at tree index ys) (last_at tree index xs) _

-- No two leaves have one position.
abbrev pub AreDistinct : List Leaf → Type 0
AreDistinct [] = Unit
AreDistinct (leaf ∷ leaves) = (last_at leaf.tree leaf.index leaves ≡ none) × AreDistinct leaves

-- Nothing else stands where `x` stands.
pub first :
    (tree index : ℕ) (x : Leaf) (ys : List Leaf)
    → last_at x.tree x.index ys ≡ none
    → last_at tree index (x ∷ ys) ≡ (if at tree index x then some x else last_at tree index ys)
first tree index x ys h = elim (Bool-cases (at tree index x)) [
  | inl here ↦
      let t : x.tree ≡ tree = ground arith in
      let i : x.index ≡ index = ground arith in
      let none_left : last_at tree index ys ≡ none =
        subst (λ j. last_at tree j ys ≡ none) i (subst (λ r. last_at r x.index ys ≡ none) t h) in
      rw (here, none_left) refl
  | inr elsewhere ↦ rw elsewhere (sym (or_none (last_at tree index ys)))
]

pub swap :
    (tree index : ℕ) (x y : Leaf) (ys : List Leaf)
    → (if at x.tree x.index y then some y else none) ≡ none
    → last_at x.tree x.index ys ≡ none
    → or_else
        (if at tree index x then some x else last_at tree index ys)
        (if at tree index y then some y else none)
      ≡ (if at tree index x
          then some x
          else or_else (last_at tree index ys) (if at tree index y then some y else none))
swap tree index x y ys apart free = elim (Bool-cases (at tree index x)) [
  | inl here ↦ rw here refl
  | inr elsewhere ↦ rw elsewhere refl
]

pub last_at-insert_sorted :
    (tree index : ℕ) (x : Leaf) (ys : List Leaf)
    → last_at x.tree x.index ys ≡ none
    → last_at tree index (insert_sorted x ys)
      ≡ (if at tree index x then some x else last_at tree index ys)
unfolding insert_sorted
last_at-insert_sorted tree index x [] h = refl
last_at-insert_sorted tree index x (y ∷ ys) h =
    let (free, apart) = or_else-none (last_at x.tree x.index ys) _ h in
    elim (Bool-cases (before y x)) [
      | inl later ↦ rw later (
          ap (λ o. or_else o (if at tree index y then some y else none))
            (last_at-insert_sorted tree index x ys free)
          ∙ swap tree index x y ys apart free)
      | inr here ↦ rw here (first tree index x (y ∷ ys) h)
    ]

pub last_at-sort_leaves :
    (tree index : ℕ) (xs : List Leaf)
    → AreDistinct xs
    → last_at tree index (sort_leaves xs) ≡ last_at tree index xs
unfolding sort_leaves
last_at-sort_leaves tree index [] h = refl
last_at-sort_leaves tree index (x ∷ xs) h =
    last_at-insert_sorted tree index x (sort_leaves xs)
      (last_at-sort_leaves x.tree x.index xs h.1 ∙ h.0)
    ∙ ap (λ o. if at tree index x then some x else o) (last_at-sort_leaves tree index xs h.1)
    ∙ sym (first tree index x xs h.0)
