-- ===== src/UtxoTree/Files.antt =====
-- pkg/utxotree/store.go: `FileStore`, which keeps the leaves in one file. Each operation reads the
-- file, works on the leaves, and writes all of them back. JSON is a parameter, `Codec`, and so is
-- whether the operating system lets the store write.
pub mod Lookup
pub mod Listing
pub mod Texts
pub mod Changes
pub mod Refine
pub mod Tests
use railgun_go.Common.{
  ℕ, Bool, Option, List, [], ◌∷◌, ◌++◌, Text, Result, ok, err, ◌>>=◌, ◌>>◌, guard, Context, live,
  required, store_required, path_required, read_failed,
}
use railgun_go.Common.Map
use railgun_go.Merkle.{Hash, MerkleProof}
use railgun_go.UtxoTree.{Leaf, validate_leaf, proof_from_leaves, root_of_leaves}
use railgun_go.UtxoTree.Store.{
  Leaves, tree_leaves, put_leaf, put_leaves, validate_leaves, sorted_leaves, rollback,
}

-- `json.MarshalIndent` and `json.Unmarshal` of a `fileState`.
pub record Codec : Type 0 where
  pub marshal : List Leaf → Result Text
  pub unmarshal : Text → Result (List Leaf)

-- What `os.ReadFile` finds.
pub data File : Type 0 where
  missing unreadable : File
  content : Text → File

-- A file store: whether its path is set, the file, and whether a new file can be made and renamed.
pub record FileStore : Type 0 where
  pub has_path : Bool
  pub file : File
  pub write : Result (Unit {0})

module _ (codec : Codec) where
  unfoldable pub parse_file : File → Result Leaves
  parse_file missing = ok []
  parse_file unreadable = err read_failed
  parse_file (content []) = ok []
  parse_file (content (c ∷ bytes)) = do
    leaves ← codec.unmarshal (c ∷ bytes)
    validate_leaves leaves
    ok (put_leaves leaves [])

  unfoldable pub load_locked : FileStore → Result Leaves
  load_locked store = do guard store.has_path path_required; parse_file store.file

  unfoldable pub save_locked : FileStore → Leaves → Result FileStore
  save_locked store leaves = do
    guard store.has_path path_required
    bytes ← codec.marshal (sorted_leaves leaves)
    store.write
    ok (record store { file = content (bytes ++ b'\n' ∷ []) })

  unfoldable pub load : Option FileStore → Result Leaves
  load store = do present ← required store store_required; load_locked present

  -- No update of a caller fails.
  unfoldable pub update : Option FileStore → (Leaves → Leaves) → Result FileStore
  update store change = do
    present ← required store store_required
    leaves ← load_locked present
    save_locked present (change leaves)

  unfoldable pub file_upsert_leaf : Context → Option FileStore → Leaf → Result FileStore
  file_upsert_leaf ctx store leaf = do live ctx; validate_leaf leaf; update store (put_leaf leaf)

  unfoldable pub file_upsert_leaves : Context → Option FileStore → List Leaf → Result FileStore
  file_upsert_leaves ctx store leaves = do
    live ctx
    validate_leaves leaves
    update store (put_leaves leaves)

  unfoldable pub file_get_leaf : Context → Option FileStore → ℕ → ℕ → Result (Option Leaf)
  file_get_leaf ctx store tree index = do
    live ctx
    leaves ← load store
    ok (Map.lookup index (tree_leaves tree leaves))

  unfoldable pub file_list_leaves : Context → Option FileStore → Result (List Leaf)
  file_list_leaves ctx store = do live ctx; leaves ← load store; ok (sorted_leaves leaves)

  unfoldable pub file_rollback_to_block : Context → Option FileStore → ℕ → Result FileStore
  file_rollback_to_block ctx store from_block = do live ctx; update store (rollback from_block)

  module _ (poseidon : Hash) (zeros : List Text) where
    unfoldable pub file_root : Context → Option FileStore → ℕ → Result Text
    file_root ctx store tree = do
      live ctx
      leaves ← load store
      root_of_leaves poseidon zeros (tree_leaves tree leaves)

    unfoldable pub file_proof : Context → Option FileStore → ℕ → ℕ → Result MerkleProof
    file_proof ctx store tree index = do
      live ctx
      leaves ← load store
      proof_from_leaves poseidon zeros (tree_leaves tree leaves) index
