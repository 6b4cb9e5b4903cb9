-- ===== src/UtxoTree/Files/Refine.antt =====
-- pkg/utxotree/store.go: the methods of `FileStore` do what those of `MemoryStore` do.
use mathlib.Core.Path.{subst}
use railgun_go.Common.{
  ℕ, Bool, All, ◌≡◌, refl, ap, sym, ◌∙◌, true, inl, inr, none, some, List, [], ◌∷◌, ◌++◌, ◌==◌,
  ◌&&◌, if◌then◌else◌, Text, Result, ok, err, ◌>>=◌, Result-cases, Context,
}
use railgun_go.Common.Map
use railgun_go.UtxoTree.{Leaf, validate_leaf}
use railgun_go.UtxoTree.Store.{
  Leaves, tree_leaves, put_leaf, put_leaves, upsert_leaf, upsert_leaves, validate_leaves, get_leaf,
  is_kept, sorted_leaves, rollback, rollback_to_block,
}
use railgun_go.UtxoTree.Store.Laws.{
  leaf_at, IsStore, put_leaf-IsStore, put_leaves-IsStore, rollback-IsStore, tree_leaves-IsTree,
  tree_leaves-rollback, lookup-put_leaf,
}
use railgun_go.UtxoTree.Files.{
  Codec, missing, content, FileStore, parse_file, load_locked, save_locked, load, update,
  file_upsert_leaf, file_upsert_leaves, file_get_leaf, file_rollback_to_block,
}
use railgun_go.UtxoTree.Files.Lookup.{last_at, or_else, leaf_at-put_leaves}
use railgun_go.UtxoTree.Files.Listing.{leaf_at-sorted_leaves, validate_leaves-sorted_leaves}
use railgun_go.UtxoTree.Files.Texts.{
  IsTextLeaf, EachText, put_leaf-EachText, put_leaves-EachText, rollback-EachText,
  sorted_leaves-EachText,
}
use railgun_go.UtxoTree.Files.Changes.{
  IsCodec, IsTextChange, Change, upsert, upsert_all, roll_back, apply_memory, run_memory,
  apply_file, run_file, Alike,
}

abbrev SameLeaves : Leaves → Leaves → Type 0
SameLeaves a b = (tree index : ℕ) → leaf_at tree index a ≡ leaf_at tree index b

module _ (codec : Codec) (is_text : Text → Bool) where
  -- The file holds the leaves, which are texts, and the store can write.
  abbrev IsFile : FileStore → Leaves → Type 0
  IsFile store leaves =
      (store.has_path ≡ true)
      × (store.write ≡ ok tt)
      × IsStore leaves
      × (held : Leaves) × (load_locked codec store ≡ ok held)
      × IsStore held
      × EachText is_text held
      × SameLeaves held leaves

  -- The same errors, or stores of which one's file holds the other's leaves.
  abbrev Related : Result FileStore → Result Leaves → Type 0
  Related (err e) (err d) = e ≡ d
  Related (ok store) (ok leaves) = IsFile store leaves
  Related (ok store) (err e) = ⊥
  Related (err e) (ok leaves) = ⊥

  module _ (law : IsCodec codec is_text) where
    parse_file-saved :
        (leaves : List Leaf) (bytes : Text)
        → All (IsTextLeaf is_text) leaves
        → codec.marshal leaves ≡ ok bytes
        → validate_leaves leaves ≡ ok tt
        → parse_file codec (content (bytes ++ b'\n' ∷ [])) ≡ ok (put_leaves leaves [])
    unfolding parse_file
    parse_file-saved leaves [] t e v = rw (law.reads leaves [] t e, v) refl
    parse_file-saved leaves (c ∷ bytes) t e v = rw (law.reads leaves (c ∷ bytes) t e, v) refl

    -- A change that keeps well-formed stores and texts, and makes like stores of like ones, does to
    -- the file what it does in memory.
    update-IsFile :
        (store : FileStore) (leaves : Leaves) (change : Leaves → Leaves)
        → ((s : Leaves) → IsStore s → IsStore (change s))
        → ((s : Leaves) → EachText is_text s → EachText is_text (change s))
        → ((a b : Leaves)
            → IsStore a
            → IsStore b
            → SameLeaves a b
            → SameLeaves (change a) (change b))
        → IsFile store leaves
        → Related (update codec (some store) change) (ok (change leaves))
    unfolding update save_locked load_locked
    update-IsFile store leaves change keeps keeps_text respects
          (path, writable, well, held, loaded, held_well, texts, same) =
        let (bytes, written) = law.writes (sorted_leaves (change held)) in
        let valid = validate_leaves-sorted_leaves (change held) (keeps held held_well) in
        let text = sorted_leaves-EachText is_text (change held) (keeps_text held texts) in
        let saved : update codec (some store) change
            ≡ ok (record store { file = content (bytes ++ b'\n' ∷ []) }) =
          rw (loaded, path, written, writable) refl in
        subst (λ r. Related r (ok (change leaves))) (sym saved)
          (
            path,
            writable,
            keeps leaves well,
            put_leaves (sorted_leaves (change held)) [],
            rw path (parse_file-saved (sorted_leaves (change held)) bytes text written valid),
            put_leaves-IsStore (sorted_leaves (change held)) [] valid (tt, tt),
            put_leaves-EachText is_text (sorted_leaves (change held)) [] text tt,
            λ tree index.
                leaf_at-sorted_leaves tree index (change held) (keeps held held_well)
                ∙ respects held leaves held_well well same tree index,
          )

    upsert-IsFile :
        (ctx : Context) (leaf : Leaf) (store : FileStore) (leaves : Leaves)
        → IsTextLeaf is_text leaf
        → IsFile store leaves
        → Related (apply_file codec (upsert ctx leaf) store) (apply_memory (upsert ctx leaf) leaves)
    unfolding file_upsert_leaf upsert_leaf
    upsert-IsFile (some e) leaf store leaves t h = refl
    upsert-IsFile none leaf store leaves t h = elim (Result-cases (validate_leaf leaf)) [
      | inl (e, bad) ↦ rw bad refl
      | inr (u, good) ↦ rw good (
          update-IsFile store leaves (put_leaf leaf) (λ s. put_leaf-IsStore leaf s good)
            (λ s. put_leaf-EachText is_text leaf s t)
            (λ a b u v same tree index.
              lookup-put_leaf leaf a tree index
              ∙ ap (λ o. if leaf.tree == tree && leaf.index == index then some leaf else o)
                  (same tree index)
              ∙ sym (lookup-put_leaf leaf b tree index))
            h)
    ]

    upsert_all-IsFile :
        (ctx : Context) (added : List Leaf) (store : FileStore) (leaves : Leaves)
        → All (IsTextLeaf is_text) added
        → IsFile store leaves
        → Related
            (apply_file codec (upsert_all ctx added) store)
            (apply_memory (upsert_all ctx added) leaves)
    unfolding file_upsert_leaves upsert_leaves
    upsert_all-IsFile (some e) added store leaves t h = refl
    upsert_all-IsFile none added store leaves t h = elim (Result-cases (validate_leaves added)) [
      | inl (e, bad) ↦ rw bad refl
      | inr (u, good) ↦ rw good (
          update-IsFile store leaves (put_leaves added) (λ s. put_leaves-IsStore added s good)
            (λ s. put_leaves-EachText is_text added s t)
            (λ a b u v same tree index.
              leaf_at-put_leaves tree index added a
              ∙ ap (or_else (last_at tree index added)) (same tree index)
              ∙ sym (leaf_at-put_leaves tree index added b))
            h)
    ]

    leaf_at-rollback :
        (from_block tree index : ℕ) (s : Leaves)
        → IsStore s
        → leaf_at tree index (rollback from_block s)
          ≡ Map.keep (is_kept from_block) (leaf_at tree index s)
    leaf_at-rollback from_block tree index s h =
        ap (Map.lookup index) (tree_leaves-rollback from_block tree s h.0)
        ∙ Map.lookup-filter_entries (is_kept from_block) index (tree_leaves tree s)
            (tree_leaves-IsTree tree s h).0

    roll_back-IsFile :
        (ctx : Context) (from_block : ℕ) (store : FileStore) (leaves : Leaves)
        → IsFile store leaves
        → Related
            (apply_file codec (roll_back ctx from_block) store)
            (apply_memory (roll_back ctx from_block) leaves)
    unfolding file_rollback_to_block rollback_to_block
    roll_back-IsFile (some e) from_block store leaves h = refl
    roll_back-IsFile none from_block store leaves h =
        update-IsFile store leaves (rollback from_block) (rollback-IsStore from_block)
          (rollback-EachText is_text from_block)
          (λ a b u v same tree index.
            leaf_at-rollback from_block tree index a u
            ∙ ap (Map.keep (is_kept from_block)) (same tree index)
            ∙ sym (leaf_at-rollback from_block tree index b v))
          h

    apply-Related :
        (change : Change) (store : FileStore) (leaves : Leaves)
        → IsTextChange is_text change
        → IsFile store leaves
        → Related (apply_file codec change store) (apply_memory change leaves)
    apply-Related (upsert ctx leaf) store leaves t h = upsert-IsFile ctx leaf store leaves t h
    apply-Related (upsert_all ctx added) store leaves t h =
        upsert_all-IsFile ctx added store leaves t h
    apply-Related (roll_back ctx from_block) store leaves t h =
        roll_back-IsFile ctx from_block store leaves h

    >>=-Related :
        (a : Result FileStore) (b : Result Leaves) (f : FileStore → Result FileStore)
        (g : Leaves → Result Leaves)
        → ((store : FileStore) (leaves : Leaves)
            → IsFile store leaves
            → Related (f store) (g leaves))
        → Related a b
        → Related (a >>= f) (b >>= g)
    >>=-Related (ok store) (ok leaves) f g h r = h store leaves r
    >>=-Related (err e) (err d) f g h r = r
    >>=-Related (ok store) (err d) f g h r = elim r [ ]
    >>=-Related (err e) (ok leaves) f g h r = elim r [ ]

    run-Related :
        (changes : List Change) (store : FileStore) (leaves : Leaves)
        → All (IsTextChange is_text) changes
        → IsFile store leaves
        → Related (run_file codec changes store) (run_memory changes leaves)
    run-Related [] store leaves t h = h
    run-Related (change ∷ changes) store leaves t h =
        >>=-Related (apply_file codec change store) (apply_memory change leaves)
          (run_file codec changes) (run_memory changes) (λ s l. run-Related changes s l t.1)
          (apply-Related change store leaves t.0 h)

    get_leaf-IsFile :
        (store : FileStore) (leaves : Leaves) (ctx : Context) (tree index : ℕ)
        → IsFile store leaves
        → file_get_leaf codec ctx (some store) tree index ≡ get_leaf ctx (some leaves) tree index
    unfolding file_get_leaf get_leaf load
    get_leaf-IsFile store leaves (some e) tree index h = refl
    get_leaf-IsFile store leaves none tree index
          (path, writable, well, held, loaded, held_well, texts, same) =
        rw loaded (ap ok (same tree index))

    Related-Alike : (a : Result FileStore) (b : Result Leaves) → Related a b → Alike codec a b
    Related-Alike (err e) (err d) r = r
    Related-Alike (ok store) (err d) r = r
    Related-Alike (err e) (ok leaves) r = r
    Related-Alike (ok store) (ok leaves) r =
        λ ctx tree index. get_leaf-IsFile store leaves ctx tree index r

    -- A new file store that can write, with a JSON codec that reads back what it wrote of valid
    -- UTF-8, and a new memory store, after the same calls of `UpsertLeaf`, `UpsertLeaves` and
    -- `RollbackToBlock`, with leaves whose strings are valid UTF-8: the calls fail with the same
    -- error, or `GetLeaf` returns the same of both for every context and position.
    pub run_file-Alike :
        (store : FileStore) (changes : List Change)
        → All (IsTextChange is_text) changes
        → store.has_path ≡ true
        → store.write ≡ ok tt
        → store.file ≡ missing
        → Alike codec (run_file codec changes store) (run_memory changes [])
    unfolding load_locked parse_file
    run_file-Alike store changes texts path writable new =
        Related-Alike (run_file codec changes store) (run_memory changes []) (
          run-Related changes store [] texts
            (path, writable, (tt, tt), [], rw (path, new) refl, (tt, tt), tt, λ tree index. refl))
