-- ===== src/UtxoTree/Zeros.antt =====
-- pkg/utxotree/store.go: `hashHexPair` and the table of zero hashes.
use native.Mathlib.Nat.{mod-eq_of_lt}
use native.Mathlib.Numerals.{add-one}
use railgun_go.Common.{
  ℕ, zero, suc, ◌+◌, ◌*◌, ◌^◌, ◌%◌, ◌<◌, ◌≡◌, refl, ap, ◌∙◌, false, List, [], ◌∷◌, Text, length,
  get_or, ok, arith,
}
use railgun_go.Common.Int.{ℤ, pos}
use railgun_go.Crypto.Bytes.{hex_to_big_int, big_int_to_hex, merkle_zero_value}
use railgun_go.Crypto.Bytes.RoundTrip.{hex_to_big_int-big_int_to_hex}
use railgun_go.Merkle.{Hash, IsFieldHash, tree_depth}
use railgun_go.UtxoTree.{hash_hex_pair, zero_hashes_above, zero_hashes, zero_hash}

-- A text that `HexToBigInt` reads.
abbrev pub Readable : Text → Type 0
Readable s = (v : ℤ) × (hex_to_big_int s ≡ ok v)

-- A node's text and the number that it writes.
pub record Written (h : ℕ) (s : Text) : Type 0 where
  pub printed : big_int_to_hex (pos h) 32 false ≡ ok s
  pub read : hex_to_big_int s ≡ ok (pos h)

pub Written-lt : (h : ℕ) → h < 2 ^ 256 → (s : Text) × Written h s
Written-lt h l =
    let (s, p, r) = hex_to_big_int-big_int_to_hex h 32 false (omega arith) in
    let e : h % 16 ^ (32 * 2) ≡ h = mod-eq_of_lt (omega arith) in
    (s, record { printed = p; read = r ∙ ap (λ n. ok (pos n)) e })

-- A table of zero hashes: each entry is the hash of two copies of the one below.
pub record IsZeroTable (poseidon : Hash) (zeros : List Text) : Type 0 where
  pub depth : length zeros ≡ 17
  pub bottom : Readable (zero_hash zeros 0)
  pub step :
      (level : ℕ)
      → level < 16
      → hash_hex_pair poseidon (zero_hash zeros level) (zero_hash zeros level)
        ≡ ok (zero_hash zeros (level + 1))

abbrev Steps : Hash → List Text → Type 0
Steps poseidon zeros =
    (i : ℕ)
    → suc i < length zeros
    → hash_hex_pair poseidon (get_or zeros i []) (get_or zeros i []) ≡ ok (get_or zeros (suc i) [])

zero_hash_in :
    (zeros : List Text) (level : ℕ)
    → level < length zeros
    → zero_hash zeros level ≡ get_or zeros level []
unfolding zero_hash
zero_hash_in zeros level h = ground arith

Steps→IsZeroTable :
    (poseidon : Hash) (s : Text) (rest : List Text)
    → Readable s
    → length rest ≡ tree_depth
    → Steps poseidon (s ∷ rest)
    → IsZeroTable poseidon (s ∷ rest)
Steps→IsZeroTable poseidon s rest r len steps = record {
  depth = ap suc len;
  bottom = (r.0, rw (zero_hash_in (s ∷ rest) 0 (omega arith)) r.1);
  step = λ level h.
      rw
        (
          zero_hash_in (s ∷ rest) level (omega arith),
          zero_hash_in (s ∷ rest) (level + 1) (omega arith),
        )
        (rw add-one (steps level (omega arith)));
}

Steps-cons :
    (poseidon : Hash) (last s : Text) (rest : List Text)
    → hash_hex_pair poseidon last last ≡ ok s
    → Steps poseidon (s ∷ rest)
    → Steps poseidon (last ∷ s ∷ rest)
Steps-cons poseidon last s rest pair steps zero h = pair
Steps-cons poseidon last s rest pair steps (suc i) h = steps i (omega arith)

module _ {poseidon : Hash} (field : IsFieldHash poseidon) where
  -- Two readable nodes have a hash, which is readable again.
  pub hash_hex_pair_lem :
      (left right : Text) (a b : ℤ)
      → hex_to_big_int left ≡ ok a
      → hex_to_big_int right ≡ ok b
      → (h : ℕ) × (s : Text) × (poseidon (a ∷ b ∷ []) ≡ ok (pos h))
        × (hash_hex_pair poseidon left right ≡ ok s)
        × Written h s
  unfolding hash_hex_pair
  hash_hex_pair_lem left right a b l r =
      let (h, e, small) = field.on_pair a b in
      let (s, w) = Written-lt h (omega arith) in (h, s, e, rw (l, r, e) w.printed, w)

  -- The hash of two readable nodes is readable.
  pub hash_hex_pair-Readable :
      (left right s : Text)
      → Readable left
      → Readable right
      → hash_hex_pair poseidon left right ≡ ok s
      → Readable s
  hash_hex_pair-Readable left right s l r e =
      let (h, t, p, pair, w) = hash_hex_pair_lem left right l.0 r.0 l.1 r.1 in
      let same : t ≡ s = cc (pair, e) in (pos h, rw (← same) w.read)

  -- The table above `last` is computed, and each entry is the hash of two copies of the one below.
  zero_hashes_above-Steps :
      (n : ℕ) (last : Text) (v : ℤ)
      → hex_to_big_int last ≡ ok v
      → (rest : List Text) × (zero_hashes_above poseidon n last ≡ ok rest)
        × (length rest ≡ n)
        × Steps poseidon (last ∷ rest)
  unfolding zero_hashes_above
  zero_hashes_above-Steps zero last v e = ([], refl, refl, λ i h. absurd (omega arith))
  zero_hashes_above-Steps (suc n) last v e =
      let (h, s, p, pair, w) = hash_hex_pair_lem last last v v e e in
      let (rest, above, len, steps) = zero_hashes_above-Steps n s (pos h) w.read in
      (s ∷ rest, rw (pair, above), ap suc len, Steps-cons poseidon last s rest pair steps)

  -- With a hash that maps two numbers into the field the table of zero hashes is computed, so that
  -- `ZeroHash` does not panic.
  pub zero_hashes-IsZeroTable :
      (zeros : List Text) × (zero_hashes poseidon ≡ ok zeros) × IsZeroTable poseidon zeros
  unfolding zero_hashes
  zero_hashes-IsZeroTable =
      let (s, w) = Written-lt merkle_zero_value (omega arith) in
      let (rest, above, len, steps) =
        zero_hashes_above-Steps tree_depth s (pos merkle_zero_value) w.read in
      (
        s ∷ rest,
        rw (w.printed, above),
        Steps→IsZeroTable poseidon s rest (pos merkle_zero_value, w.read) len steps,
      )

  pub IsZeroTable-zero_hashes :
      (zeros : List Text) → zero_hashes poseidon ≡ ok zeros → IsZeroTable poseidon zeros
  IsZeroTable-zero_hashes zeros e =
      let (computed, e', table) = zero_hashes-IsZeroTable in
      let same : computed ≡ zeros = cc (e, e') in rw (← same) table
