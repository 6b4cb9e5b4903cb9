-- ===== src/UtxoTree/Files/Changes.antt =====
-- pkg/utxotree/store.go: the calls that write to a store, and what it is for two stores to be alike.
use railgun_go.Common.{
  Bool, All, ℕ, ◌≡◌, some, List, [], ◌∷◌, ◌++◌, Text, Result, ok, err, ◌>>=◌, Context,
}
use railgun_go.UtxoTree.{Leaf}
use railgun_go.UtxoTree.Store.{Leaves, upsert_leaf, upsert_leaves, get_leaf, rollback_to_block}
use railgun_go.UtxoTree.Files.Texts.{IsTextLeaf}
use railgun_go.UtxoTree.Files.{
  Codec, FileStore, file_upsert_leaf, file_upsert_leaves, file_get_leaf, file_rollback_to_block,
}

-- JSON writes every list of leaves. It reads back leaves of which all strings are valid UTF-8, which
-- `is_text` stands for, a final newline aside; of any others it replaces what is not.
pub record IsCodec (codec : Codec) (is_text : Text → Bool) : Type 0 where
  pub writes : (leaves : List Leaf) → (bytes : Text) × (codec.marshal leaves ≡ ok bytes)
  pub reads :
      (leaves : List Leaf) (bytes : Text)
      → All (IsTextLeaf is_text) leaves
      → codec.marshal leaves ≡ ok bytes
      → codec.unmarshal (bytes ++ b'\n' ∷ []) ≡ ok leaves

-- One call of a store that writes.
pub data Change : Type 0 where
  upsert : Context → Leaf → Change
  upsert_all : Context → List Leaf → Change
  roll_back : Context → ℕ → Change

-- The strings of the leaves that a call puts in are valid UTF-8.
abbrev pub IsTextChange : (Text → Bool) → Change → Type 0
IsTextChange is_text (upsert ctx leaf) = IsTextLeaf is_text leaf
IsTextChange is_text (upsert_all ctx leaves) = All (IsTextLeaf is_text) leaves
IsTextChange is_text (roll_back ctx from_block) = Unit

abbrev pub apply_memory : Change → Leaves → Result Leaves
apply_memory (upsert ctx leaf) store = upsert_leaf ctx (some store) leaf
apply_memory (upsert_all ctx leaves) store = upsert_leaves ctx (some store) leaves
apply_memory (roll_back ctx from_block) store = rollback_to_block ctx (some store) from_block

abbrev pub run_memory : List Change → Leaves → Result Leaves
run_memory [] store = ok store
run_memory (change ∷ changes) store = apply_memory change store >>= run_memory changes

module _ (codec : Codec) where
  abbrev pub apply_file : Change → FileStore → Result FileStore
  apply_file (upsert ctx leaf) store = file_upsert_leaf codec ctx (some store) leaf
  apply_file (upsert_all ctx leaves) store = file_upsert_leaves codec ctx (some store) leaves
  apply_file (roll_back ctx from_block) store =
      file_rollback_to_block codec ctx (some store) from_block

  abbrev pub run_file : List Change → FileStore → Result FileStore
  run_file [] store = ok store
  run_file (change ∷ changes) store = apply_file change store >>= run_file changes

  -- Both fail with one error, or both give stores in which `GetLeaf` finds the same.
  abbrev pub Alike : Result FileStore → Result Leaves → Type 0
  Alike (err e) (err d) = e ≡ d
  Alike (ok store) (ok leaves) =
      (ctx : Context) (tree index : ℕ)
      → file_get_leaf codec ctx (some store) tree index ≡ get_leaf ctx (some leaves) tree index
  Alike (ok store) (err e) = ⊥
  Alike (err e) (ok leaves) = ⊥
