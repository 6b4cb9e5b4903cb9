-- ===== src/Chain/Laws.antt =====
-- pkg/chain/chain.go: network ids tell chains apart, and chains stay registered.
use railgun_go.Common.{
  ℕ, ◌+◌, ◌*◌, ◌^◌, ◌≡◌, ◌≤◌, ◌<◌, refl, ap, sym, ◌∙◌, ==_refl, ==_iff, Bool-cases, inl, inr, true,
  ◌||◌, List, [], ◌∷◌, ◌++◌, ok, arith,
}
use railgun_go.Common.Int.{eq_ℤ, ℤ, pos, negsuc}
use railgun_go.Chain.{
  Chain, full_network_id_hex, full_network_id_uint64, same_chain, supports_v3, add_supports_v3,
}

eq_ℤ_refl : (a : ℤ) → eq_ℤ a a ≡ true
eq_ℤ_refl (pos a) = ==_refl a
eq_ℤ_refl (negsuc a) = ==_refl a

supports_v3-append :
    (chains : List Chain) (chain other : Chain)
    → supports_v3 (chains ++ chain ∷ []) other
      ≡ (supports_v3 chains other || (same_chain other chain))
unfolding supports_v3
supports_v3-append [] chain other = ground arith
supports_v3-append (c ∷ chains) chain other = ground (arith, supports_v3-append chains chain other)

eq_ℤ-eq : (a b : ℤ) → eq_ℤ a b ≡ true → a ≡ b
eq_ℤ-eq (pos a) (pos b) e = ap pos ((==_iff a b).0 e)
eq_ℤ-eq (negsuc a) (negsuc b) e = ap negsuc ((==_iff a b).0 e)
eq_ℤ-eq (pos a) (negsuc b) e = cc
eq_ℤ-eq (negsuc a) (pos b) e = cc

-- After `AddSupportsV3`, the supported chains are those that were before and the one that was
-- added; adding it again changes nothing.
pub supports_v3-add_supports_v3 :
    (chains : List Chain) (chain other : Chain)
    → (supports_v3 (add_supports_v3 chains chain) other
        ≡ (supports_v3 chains other || (same_chain other chain)))
      × (add_supports_v3 (add_supports_v3 chains chain) chain ≡ add_supports_v3 chains chain)
unfolding add_supports_v3
supports_v3-add_supports_v3 chains chain other = elim (Bool-cases (supports_v3 chains chain)) [
  | inl known ↦ rw known (
      rw known (
        elim (Bool-cases (same_chain other chain)) [
          | inl same ↦
              let i : other.id ≡ chain.id = ground arith in
              let t : other.type ≡ chain.type = eq_ℤ-eq other.type chain.type (ground arith) in
              let supported : supports_v3 chains other ≡ true = rw (i, t) known in
              rw (same, supported) refl
          | inr different ↦ rw different (ground arith)
        ],
        refl,
      ))
  | inr new ↦
      let now : supports_v3 (chains ++ chain ∷ []) chain ≡ true =
        ground (arith, supports_v3-append chains chain chain, eq_ℤ_refl chain.type) in
      rw new (supports_v3-append chains chain other, rw now refl)
]

-- What an id is made of.
full_network_id_uint64_parts :
    (type : ℤ) (id n : ℕ)
    → full_network_id_uint64 (record { type = type; id = id }) ≡ ok n
    → (t : ℕ) × (type ≡ pos t) × (t ≤ 255) × (id < 2 ^ 56) × (n ≡ t * 2 ^ 56 + id)
unfolding full_network_id_uint64 full_network_id_hex
full_network_id_uint64_parts (pos t) id n e = (t, refl, ground arith, ground arith, ground arith)
full_network_id_uint64_parts (negsuc t) id n e = cc

-- Two chains with one network id have the same type and id, and a network id is below 2^64.
pub full_network_id_uint64-injective :
    (chain other : Chain) (n : ℕ)
    → full_network_id_uint64 chain ≡ ok n
    → full_network_id_uint64 other ≡ ok n
    → (n < 2 ^ 64) × (chain.type ≡ other.type) × (chain.id ≡ other.id)
full_network_id_uint64-injective chain other n e f =
    let (t, a, b, c, d) = full_network_id_uint64_parts chain.type chain.id n e in
    let (t', a', b', c', d') = full_network_id_uint64_parts other.type other.id n f in
    let same : t ≡ t' = omega (arith, b, b', c, c', d, d') in
    (omega (arith, b, c, d), a ∙ ap pos same ∙ sym a', omega (arith, c, c', d, d', same))
