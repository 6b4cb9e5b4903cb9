-- ===== src/UtxoTree/Level.antt =====
-- pkg/utxotree/store.go: one round of `buildTreeLevels` computes every node of the next level.
use railgun_go.Common.{
  ℕ, ◌+◌, ◌*◌, ◌/◌, ◌<◌, ◌≡◌, refl, sym, ◌∙◌, Bool, true, false, ◌==◌, ◌||◌, ==_iff, Bool-cases,
  inl, inr, none, List, [], ◌∷◌, Text, text_eq, text_eq→eq, ok, if◌then◌else◌, arith,
}
use railgun_go.Common.Map
use railgun_go.Common.Map.{Map, contains}
use railgun_go.Merkle.{Hash, IsFieldHash}
use railgun_go.UtxoTree.{Level, hash_hex_pair, zero_hash, node_in, next_level, store_node}
use railgun_go.UtxoTree.Zeros.{Readable, IsZeroTable, hash_hex_pair_lem}

-- The parents that the loop has seen after the indices.
abbrev seen_after : List ℕ → List ℕ → List ℕ
seen_after [] seen = seen
seen_after (index ∷ indices) seen =
    seen_after indices (if contains seen (index / 2) then seen else index / 2 ∷ seen)

module _ (poseidon : Hash) (zeros : List Text) (nodes : Level) (level : ℕ) where
  -- The parent `p` of two nodes of the level has the hash `s`.
  abbrev Parent : ℕ → Text → Type 0
  Parent p s =
      hash_hex_pair poseidon (node_in zeros nodes level (p * 2))
        (node_in zeros nodes level (p * 2 + 1))
      ≡ ok s

  -- What holds of the next level once the parents in `seen` are done.
  record Done (seen : List ℕ) (next : Level) : Type 0 where
    at_seen : (p : ℕ) → contains seen p ≡ true → Parent p (node_in zeros next (level + 1) p)
    at_other : (p : ℕ) → contains seen p ≡ false → Map.lookup p next ≡ none

  node_in-store_self :
      (p : ℕ) (s : Text) (next : Level)
      → Map.lookup p next ≡ none
      → node_in zeros (store_node poseidon zeros level p s next) (level + 1) p ≡ s
  unfolding node_in
  node_in-store_self p s next e = elim (Bool-cases (text_eq s (zero_hash zeros (level + 1)))) [
    | inl same ↦ rw (same, e) (sym (text_eq→eq s (zero_hash zeros (level + 1)) same))
    | inr new ↦ rw new (ground (arith, Map.lookup-insert p p s next))
  ]

  lookup-store_ne :
      (p q : ℕ) (s : Text) (next : Level)
      → (p == q) ≡ false
      → Map.lookup q (store_node poseidon zeros level p s next) ≡ Map.lookup q next
  lookup-store_ne p q s next ne = ground (arith, Map.lookup-insert p q s next)

  node_in-store_ne :
      (p q : ℕ) (s : Text) (next : Level)
      → (p == q) ≡ false
      → node_in zeros (store_node poseidon zeros level p s next) (level + 1) q
        ≡ node_in zeros next (level + 1) q
  unfolding node_in
  node_in-store_ne p q s next ne = rw (lookup-store_ne p q s next ne)

  Done-store :
      (p : ℕ) (s : Text) (seen : List ℕ) (next : Level)
      → contains seen p ≡ false
      → Parent p s
      → Done seen next
      → Done (p ∷ seen) (store_node poseidon zeros level p s next)
  unfolding contains
  Done-store p s seen next new parent done = record {
    at_seen = λ q h. elim (Bool-cases (p == q)) [
      | inl e ↦ rw (← (==_iff p q).0 e, node_in-store_self p s next (done.at_other p new)) parent
      | inr ne ↦ rw (node_in-store_ne p q s next ne) (done.at_seen q (ground arith))
    ];
    at_other =
        λ q h. rw (lookup-store_ne p q s next (ground arith)) (done.at_other q (ground arith));
  }

  module _ (field : IsFieldHash poseidon)
      (readable : (i : ℕ) → Readable (node_in zeros nodes level i)) where
    -- The round succeeds, and every parent that it has met is done.
    next_level-Done :
        (indices seen : List ℕ) (next : Level)
        → Done seen next
        → (r : Level) × (next_level poseidon zeros level nodes indices seen next ≡ ok r)
          × Done (seen_after indices seen) r
    unfolding next_level
    next_level-Done [] seen next done = (next, refl, done)
    next_level-Done (index ∷ indices) seen next done =
        elim (Bool-cases (contains seen (index / 2))) [
          | inl old ↦ rw old (next_level-Done indices seen next done)
          | inr new ↦
              let p : ℕ = index / 2 in
              let l = readable (p * 2) in
              let r = readable (p * 2 + 1) in
              let (h, s, e, pair, w) =
                hash_hex_pair_lem field (node_in zeros nodes level (p * 2))
                  (node_in zeros nodes level (p * 2 + 1)) l.0 r.0 l.1 r.1 in
              rw (new, pair)
                (next_level-Done indices (p ∷ seen) (store_node poseidon zeros level p s next)
                  (Done-store p s seen next new pair done))
        ]

-- The loop sees exactly the parents of the indices it visits.
abbrev has_parent : List ℕ → ℕ → Bool
has_parent [] p = false
has_parent (index ∷ indices) p = (index / 2) == p || has_parent indices p

contains-seen_after :
    (indices seen : List ℕ) (p : ℕ)
    → contains (seen_after indices seen) p ≡ (contains seen p || has_parent indices p)
unfolding contains
contains-seen_after [] seen p = ground arith
contains-seen_after (index ∷ indices) seen p = elim (Bool-cases (contains seen (index / 2))) [
  | inl old ↦ rw old (contains-seen_after indices seen p ∙ absorb old)
  | inr new ↦ rw new (contains-seen_after indices (index / 2 ∷ seen) p ∙ ground arith)
]
  where
    absorb :
        contains seen (index / 2) ≡ true
        → (contains seen p || has_parent indices p)
          ≡ (contains seen p || has_parent (index ∷ indices) p)
    absorb old = elim (Bool-cases (index / 2 == p)) [
      | inl e ↦ let c : contains seen p ≡ true = rw (← (==_iff (index / 2) p).0 e) old in rw c
      | inr ne ↦ rw ne
    ]

-- A parent that is not seen has no node below it.
lookup_of_no_parent :
    (nodes : Level) (p i : ℕ)
    → has_parent (Map.keys nodes) p ≡ false
    → i / 2 ≡ p
    → Map.lookup i nodes ≡ none
unfolding Map.keys Map.lookup
lookup_of_no_parent [] p i h e = refl
lookup_of_no_parent ((j, s) ∷ nodes) p i h e = ground (arith, lookup_of_no_parent nodes p i)

module _ {poseidon : Hash} (field : IsFieldHash poseidon) {zeros : List Text}
    (table : IsZeroTable poseidon zeros) (nodes : Level) (level : ℕ) (l : level < 16)
    (readable : (i : ℕ) → Readable (node_in zeros nodes level i)) where
  no_child :
      (r : Level) (p : ℕ)
      → Map.lookup p r ≡ none
      → Map.lookup (p * 2) nodes ≡ none
      → Map.lookup (p * 2 + 1) nodes ≡ none
      → Parent poseidon zeros nodes level p (node_in zeros r (level + 1) p)
  unfolding node_in
  no_child r p above left right = rw (above, left, right) (table.step level l)

  -- One round computes each node of the next level from the two nodes below it.
  pub next_level_lem :
      (r : Level) × (next_level poseidon zeros level nodes (Map.keys nodes) [] [] ≡ ok r)
      × ((p : ℕ)
          → hash_hex_pair poseidon
              (node_in zeros nodes level (p * 2))
              (node_in zeros nodes level (p * 2 + 1))
            ≡ ok (node_in zeros r (level + 1) p))
  unfolding contains
  next_level_lem =
      let (r, e, done) =
        next_level-Done poseidon zeros nodes level field readable (Map.keys nodes) [] []
          (record { at_seen = λ p h. cc; at_other = λ p h. unfold Map.lookup in refl }) in
      let met = contains-seen_after (Map.keys nodes) [] in
      (
        r,
        e,
        λ p. elim (Bool-cases (has_parent (Map.keys nodes) p)) [
          | inl child ↦ done.at_seen p (met p ∙ child)
          | inr below ↦
              no_child r p (done.at_other p (met p ∙ below))
                (lookup_of_no_parent nodes p (p * 2) below (omega arith))
                (lookup_of_no_parent nodes p (p * 2 + 1) below (omega arith))
        ],
      )
