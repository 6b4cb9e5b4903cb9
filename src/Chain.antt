-- ===== src/Chain.antt =====
-- pkg/chain/chain.go: network ids, and the list of chains that support V3, which is global state.
pub mod Laws
mod Tests
use railgun_go.Common.{
  ℕ, zero, suc, ◌+◌, ◌*◌, ◌^◌, ltb, leb, ◌==◌, if◌then◌else◌, Bool, true, false, ◌&&◌, ◌||◌, not,
  List, [], ◌∷◌, ◌++◌, Text, Result, ok, err, ◌>>=◌, ◌>>◌, guard, chain_type_exceeds_uint8,
  chain_id_exceeds_uint56, v3_not_supported,
}
use railgun_go.Common.Int.{ℤ, pos, negsuc, pos_part, is_negative, eq_ℤ}
use railgun_go.Crypto.Bytes.{text_16, fit}

-- `ID` is a uint64.
pub record Chain : Type 0 where
  pub type : ℤ
  pub id : ℕ

-- `%02x%014x`: neither number has more digits than that.
unfoldable pub full_network_id_hex : Chain → Result Text
full_network_id_hex chain = do
  guard (not (is_negative chain.type || ltb 255 (pos_part chain.type))) chain_type_exceeds_uint8
  guard (not (leb (2 ^ 56) chain.id)) chain_id_exceeds_uint56
  ok (
      fit 2 (text_16 (suc (pos_part chain.type)) (pos_part chain.type))
      ++ fit 14 (text_16 (suc chain.id) chain.id))

-- `uint64(chain.Type)<<56 | chain.ID`: the two have no bit in common.
unfoldable pub full_network_id_uint64 : Chain → Result ℕ
full_network_id_uint64 chain = do
  hex ← full_network_id_hex chain
  ok (pos_part chain.type * 2 ^ 56 + chain.id)

-- Equality of the structs.
abbrev pub same_chain : Chain → Chain → Bool
same_chain chain other = chain.id == other.id && eq_ℤ chain.type other.type

unfoldable pub supports_v3 : List Chain → Chain → Bool
supports_v3 [] chain = false
supports_v3 (supporting ∷ chains) chain = same_chain chain supporting || supports_v3 chains chain

unfoldable pub assert_supports_v3 : List Chain → Chain → Result (Unit {0})
assert_supports_v3 chains chain = guard (supports_v3 chains chain) v3_not_supported

unfoldable pub add_supports_v3 : List Chain → Chain → List Chain
add_supports_v3 chains chain = if supports_v3 chains chain then chains else chains ++ chain ∷ []
