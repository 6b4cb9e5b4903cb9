-- ===== src/Chain/Tests.antt =====
-- The theorems on chains at concrete inputs.
use railgun_go.Common.{◌^◌, ◌<◌, ◌≡◌, refl, false, ◌||◌, [], ◌∷◌, ok, err, chain_id_exceeds_uint56}
use railgun_go.Common.Int.{pos}
use railgun_go.Chain.{
  Chain, full_network_id_hex, full_network_id_uint64, supports_v3, add_supports_v3,
}
use railgun_go.Chain.Laws.{supports_v3-add_supports_v3, full_network_id_uint64-injective}

abbrev polygon : Chain
polygon = record { type = pos 0; id = 137 }

abbrev sepolia : Chain
sepolia = record { type = pos 0; id = 11155111 }

polygon_id : full_network_id_uint64 polygon ≡ ok 137
unfolding full_network_id_uint64 full_network_id_hex
polygon_id = refl

too_large : full_network_id_hex (record { type = pos 0; id = 2 ^ 56 }) ≡ err chain_id_exceeds_uint56
unfolding full_network_id_hex
too_large = refl

supports_v3-add_supports_v3_example :
    (supports_v3 (add_supports_v3 (polygon ∷ []) sepolia) polygon
      ≡ (supports_v3 (polygon ∷ []) polygon || false))
    × (add_supports_v3 (add_supports_v3 (polygon ∷ []) sepolia) sepolia
        ≡ add_supports_v3 (polygon ∷ []) sepolia)
supports_v3-add_supports_v3_example = supports_v3-add_supports_v3 (polygon ∷ []) sepolia polygon

full_network_id_uint64-injective_example :
    (137 < 2 ^ 64) × (polygon.type ≡ polygon.type) × (polygon.id ≡ polygon.id)
full_network_id_uint64-injective_example =
    full_network_id_uint64-injective polygon polygon 137 polygon_id polygon_id
