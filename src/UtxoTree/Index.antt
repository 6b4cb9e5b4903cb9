-- ===== src/UtxoTree/Index.antt =====
-- pkg/utxotree/store.go: the leaves of commitment events, and how they are put into a memory store,
-- which takes them all at once. A commitment is its six fields that the code reads; V2 and V3
-- commitments both have them. On an error the number of leaves that the code returns is left out.
use railgun_go.Common.{
  ℕ, List, [], ◌∷◌, ◌++◌, length, Option, some, Text, Result, ok, ◌>>=◌, ◌>>◌, Context, live,
  required, store_required,
}
use railgun_go.Common.Int.{ℤ}
use railgun_go.UtxoTree.{Leaf, leaf_from_commitment}
use railgun_go.UtxoTree.Store.{Leaves, upsert_leaves}

pub record Commitment : Type 0 where
  pub hash : Text
  pub txid : Text
  pub commitment_type : Text
  pub block_number : ℕ
  pub utxo_tree : ℤ
  pub utxo_index : ℤ

unfoldable pub leaf_from_v2_commitment : Commitment → Result Leaf
leaf_from_v2_commitment c =
    leaf_from_commitment c.hash c.txid c.commitment_type c.block_number c.utxo_tree c.utxo_index

unfoldable pub leaf_from_v3_commitment : Commitment → Result Leaf
leaf_from_v3_commitment c =
    leaf_from_commitment c.hash c.txid c.commitment_type c.block_number c.utxo_tree c.utxo_index

module _ (leaf_of : Commitment → Result Leaf) where
  -- The inner loop: the context is looked at before each commitment.
  unfoldable pub event_leaves : Context → List Commitment → Result (List Leaf)
  event_leaves ctx [] = ok []
  event_leaves ctx (commitment ∷ commitments) = do
    live ctx
    leaf ← leaf_of commitment
    leaves ← event_leaves ctx commitments
    ok (leaf ∷ leaves)

  unfoldable pub commitment_leaves : Context → List (List Commitment) → Result (List Leaf)
  commitment_leaves ctx [] = ok []
  commitment_leaves ctx (event ∷ events) = do
    leaves ← event_leaves ctx event
    rest ← commitment_leaves ctx events
    ok (leaves ++ rest)

  unfoldable pub index_commitment_events :
      Context → Option Leaves → List (List Commitment) → Result (ℕ × Leaves)
  index_commitment_events ctx store events = do
    present ← required store store_required
    leaves ← commitment_leaves ctx events
    after ← upsert_leaves ctx (some present) leaves
    ok (length leaves, after)

unfoldable pub index_v2_commitment_events :
    Context → Option Leaves → List (List Commitment) → Result (ℕ × Leaves)
index_v2_commitment_events = index_commitment_events leaf_from_v2_commitment

unfoldable pub index_v3_commitment_events :
    Context → Option Leaves → List (List Commitment) → Result (ℕ × Leaves)
index_v3_commitment_events = index_commitment_events leaf_from_v3_commitment
