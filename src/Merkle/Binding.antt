-- ===== src/Merkle/Binding.antt =====
-- pkg/merkletree/merkletree.go: a root binds the leaf at a position, unless the two ways up to it
-- show a collision of the hash.
use railgun_go.Common.{
  ℕ, ◌+◌, ◌*◌, ◌%◌, ◌^◌, ◌<◌, ◌≡◌, ◌⊎◌, refl, ap, sym, ◌∙◌, true, false, ◌==◌, Bool-cases, inl, inr,
  List, [], ◌∷◌, Text, length, text_eq_refl, Result, ok, >>=-eq-ok, if◌then◌else◌, arith,
}
use native.Mathlib.Decide.{ℕ_discrete}
use railgun_go.Common.Int.{ℤ, pos, bit}
use native.Mathlib.Nat.{mod-eq_of_lt}
use railgun_go.Crypto.Bytes.{hex_to_big_int, big_int_to_hex, snark_prime}
use railgun_go.Crypto.Bytes.RoundTrip.{hex_to_big_int-big_int_to_hex}
use railgun_go.Merkle.{
  Hash, IsFieldHash, MerkleProof, hash_left_right, root_loop, calculate_root, verify_proof,
  normalize_hex,
}

-- A recomputed root that is the proof's own is accepted.
pub verify_of_root :
    (poseidon : Hash) (proof : MerkleProof)
    → calculate_root poseidon proof ≡ ok proof.root
    → verify_proof poseidon proof ≡ ok true
unfolding verify_proof
verify_of_root poseidon proof e = rw e (ap ok (text_eq_refl (normalize_hex proof.root)))

ℤ-discrete : Discrete ℤ
ℤ-discrete = hlevel ℕ_discrete

module _ (poseidon : Hash) (indices : ℤ) where
  -- The pair that is hashed at a level.
  abbrev pub inputs : ℕ → ℤ → ℤ → List ℤ
  inputs i element current =
      if bit indices i == 1 then element ∷ current ∷ [] else current ∷ element ∷ []

  -- Two ways up from a level with the given numbers and siblings: at some level the pairs that they
  -- hash differ in the number from below and have one hash.
  abbrev pub Collision : ℕ → ℤ → List Text → ℤ → List Text → Type 0
  Collision i c (e ∷ es) c' (e' ∷ es') =
      (v : ℤ) × (v' : ℤ) × (m : ℤ) × (m' : ℤ) × (hex_to_big_int e ≡ ok v)
      × (hex_to_big_int e' ≡ ok v')
      × (poseidon (inputs i v c) ≡ ok m)
      × (poseidon (inputs i v' c') ≡ ok m')
      × (((¬ (c ≡ c')) × (m ≡ m')) ⊎ Collision (i + 1) m es m' es')
  Collision i c _ c' _ = ⊥

  -- One round of the loop.
  abbrev round : ℕ → ℤ → ℤ → Result ℤ
  round i element current =
      if bit indices i == 1
      then hash_left_right poseidon element current
      else hash_left_right poseidon current element

  round-inputs : (i : ℕ) (e c : ℤ) → round i e c ≡ poseidon (inputs i e c)
  unfolding hash_left_right
  round-inputs i e c = elim (Bool-cases (bit indices i == 1)) [
    | inl odd ↦ rw odd refl
    | inr even ↦ rw even refl
  ]

  loop-binding :
      (es es' : List Text) (i : ℕ) (c c' n : ℤ)
      → length es ≡ length es'
      → root_loop poseidon indices i c es ≡ ok n
      → root_loop poseidon indices i c' es' ≡ ok n
      → (c ≡ c') ⊎ Collision i c es c' es'
  unfolding root_loop
  loop-binding [] [] i c c' n l h h' = inl (cc)
  loop-binding [] (e' ∷ es') i c c' n l h h' = absurd (omega arith)
  loop-binding (e ∷ es) [] i c c' n l h h' = absurd (omega arith)
  loop-binding (e ∷ es) (e' ∷ es') i c c' n l h h' =
      let (v, read, r) = >>=-eq-ok (hex_to_big_int e) _ h in
      let (m, step, rest) = >>=-eq-ok (round i v c) _ r in
      let (v', read', r') = >>=-eq-ok (hex_to_big_int e') _ h' in
      let (m', step', rest') = >>=-eq-ok (round i v' c') _ r' in
      let hashed : poseidon (inputs i v c) ≡ ok m = sym (round-inputs i v c) ∙ step in
      let hashed' : poseidon (inputs i v' c') ≡ ok m' = sym (round-inputs i v' c') ∙ step' in
      elim (ℤ-discrete c c') [
        | yes same ↦ inl same
        | no differ ↦ inr (
          v,
          v',
          m,
          m',
          read,
          read',
          hashed,
          hashed',
          elim (loop-binding es es' (i + 1) m m' n (omega arith) rest rest') [
            | inl same ↦ inl (differ, same)
            | inr collision ↦ inr collision
          ],
        )
      ]

-- What 32 bytes print is read back, for a number that fits.
printed-read :
    (h : ℕ) (s : Text)
    → h < snark_prime
    → big_int_to_hex (pos h) 32 false ≡ ok s
    → hex_to_big_int s ≡ ok (pos h)
printed-read h s small e =
    let (t, print, read) = hex_to_big_int-big_int_to_hex h 32 false (omega arith) in
    let same : t ≡ s = cc (print, e) in
    let whole : h % 16 ^ (32 * 2) ≡ h = mod-eq_of_lt (omega arith) in rw (← same) (rw whole at read)

module _ {poseidon : Hash} (field : IsFieldHash poseidon) where
  round-small :
      (indices : ℤ) (i : ℕ) (e c n : ℤ)
      → round poseidon indices i e c ≡ ok n
      → (h : ℕ) × (n ≡ pos h) × (h < snark_prime)
  unfolding hash_left_right
  round-small indices i e c n r = elim (Bool-cases (bit indices i == 1)) [
    | inl odd ↦ let (h, p, l) = field.on_pair e c in (h, cc (rw odd at r, p), l)
    | inr even ↦ let (h, p, l) = field.on_pair c e in (h, cc (rw even at r, p), l)
  ]

  loop-small :
      (indices : ℤ) (es : List Text) (e : Text) (i : ℕ) (c n : ℤ)
      → root_loop poseidon indices i c (e ∷ es) ≡ ok n
      → (h : ℕ) × (n ≡ pos h) × (h < snark_prime)
  unfolding root_loop
  loop-small indices [] e i c n r =
      let (v, read, r') = >>=-eq-ok (hex_to_big_int e) _ r in
      let (m, step, same) = >>=-eq-ok (round poseidon indices i v c) _ r' in
      round-small indices i v c n (step ∙ same)
  loop-small indices (e' ∷ es) e i c n r =
      let (v, read, r') = >>=-eq-ok (hex_to_big_int e) _ r in
      let (m, step, rest) = >>=-eq-ok (round poseidon indices i v c) _ r' in
      loop-small indices es e' (i + 1) m n rest

  -- What a successful `CalculateRoot` has done.
  record Run (p : MerkleProof) (root : Text) : Type 0 where
    indices : ℤ
    start : ℤ
    final : ℕ
    indices_read : hex_to_big_int p.indices ≡ ok indices
    leaf_read : hex_to_big_int p.leaf ≡ ok start
    looped : root_loop poseidon indices 0 start p.elements ≡ ok (pos final)
    root_read : hex_to_big_int root ≡ ok (pos final)

  calculate_root-Run :
      (p : MerkleProof) (root : Text)
      → 0 < length p.elements
      → calculate_root poseidon p ≡ ok root
      → Run p root
  unfolding calculate_root
  calculate_root-Run p root l e =
      let (i, read_i, e1) = >>=-eq-ok (hex_to_big_int p.indices) _ e in
      let (v, read_v, e2) = >>=-eq-ok (hex_to_big_int p.leaf) _ e1 in
      let (n, loop, e3) = >>=-eq-ok (root_loop poseidon i 0 v p.elements) _ e2 in
      let (h, same, small) = elements-small i v n p.elements l loop in
      record {
        indices = i;
        start = v;
        final = h;
        indices_read = read_i;
        leaf_read = read_v;
        looped = rw (← same) loop;
        root_read = printed-read h root small (rw same at e3);
      }
    where
      elements-small :
          (i v n : ℤ) (es : List Text)
          → 0 < length es
          → root_loop poseidon i 0 v es ≡ ok n
          → (h : ℕ) × (n ≡ pos h) × (h < snark_prime)
      elements-small i v n [] l loop = absurd (omega arith)
      elements-small i v n (e' ∷ es) l loop = loop-small i es e' 0 v n loop

  -- Two proofs for one position and of one depth, 1 or more, that lead to one root have leaves
  -- with the same number, or at some level the pairs that the two computations hash differ in the
  -- number from below and have one hash. The hash is any that maps two numbers into the field.
  pub calculate_root-binding :
      (p q : MerkleProof) (root : Text)
      → p.indices ≡ q.indices
      → length p.elements ≡ length q.elements
      → 0 < length p.elements
      → calculate_root poseidon p ≡ ok root
      → calculate_root poseidon q ≡ ok root
      → ((v : ℤ) × (hex_to_big_int p.leaf ≡ ok v) × (hex_to_big_int q.leaf ≡ ok v))
        ⊎ ((indices : ℤ) × (v : ℤ) × (w : ℤ) × (hex_to_big_int p.indices ≡ ok indices)
            × (hex_to_big_int p.leaf ≡ ok v)
            × (hex_to_big_int q.leaf ≡ ok w)
            × Collision poseidon indices 0 v p.elements w q.elements)
  calculate_root-binding p q root at depth l e e' =
      let a = calculate_root-Run p root l e in
      let b = calculate_root-Run q root (omega arith) e' in
      let same_indices : b.indices ≡ a.indices = cc (a.indices_read, b.indices_read, at) in
      let same_final : pos b.final ≡ pos a.final = cc (a.root_read, b.root_read) in
      let looped : root_loop poseidon a.indices 0 b.start q.elements ≡ ok (pos a.final) =
        cc (b.looped, same_indices, same_final) in
      elim (loop-binding poseidon a.indices p.elements q.elements 0 a.start b.start (pos a.final)
        depth a.looped looped) [
          | inl same ↦ inl (a.start, a.leaf_read, rw same b.leaf_read)
          | inr collision ↦
              inr (a.indices, a.start, b.start, a.indices_read, a.leaf_read, b.leaf_read, collision)
        ]
