-- ===== src/Events/Checkpoint/Files.antt =====
-- pkg/events/checkpoint.go: `FileCheckpointStore`, which keeps the checkpoints in one file. Each
-- operation reads the file and writes all of it back. JSON is a parameter, and so is whether the
-- operating system lets the store write.
mod Tests
use mathlib.Core.Path.{subst}
use railgun_go.Common.{
  ℕ, leb, not, ◌≡◌, refl, ap, sym, ◌∙◌, Bool-cases, inl, inr, if◌then◌else◌, Bool, true, false,
  Option, none, some, List, [], ◌∷◌, ◌++◌, Text, text_eq, is_blank, Result, ok, err, ◌>>=◌, ◌>>◌,
  >>=-eq-ok, guard, Context, live, path_required, checkpoint_key_required, read_failed,
}
use railgun_go.Common.TextMap.{TextMap, find, put, find-put}
use railgun_go.UtxoTree.Files.{File, missing, unreadable, content}

-- `json.MarshalIndent` and `json.Unmarshal` of a map of checkpoints; a JSON null reads as no entries.
pub record CheckpointCodec : Type 0 where
  pub marshal : TextMap ℕ → Result Text
  pub unmarshal : Text → Result (TextMap ℕ)

abbrev pub AreTexts : (Text → Bool) → TextMap ℕ → Type 0
AreTexts is_text [] = Unit
AreTexts is_text ((key, next) ∷ entries) = (is_text key ≡ true) × AreTexts is_text entries

put-AreTexts :
    (is_text : Text → Bool) (key : Text) (next : ℕ) (entries : TextMap ℕ)
    → is_text key ≡ true
    → AreTexts is_text entries
    → AreTexts is_text (put key next entries)
unfolding put
put-AreTexts is_text key next [] h t = (h, tt)
put-AreTexts is_text key next ((other, value) ∷ entries) h t =
    elim (Bool-cases (text_eq other key)) [
      | inl same ↦ rw same (h, t.1)
      | inr differs ↦ rw differs (t.0, put-AreTexts is_text key next entries h t.1)
    ]

-- A map whose keys are valid UTF-8, which `is_text` stands for, is read back as one with the same
-- values, a final newline aside. What is read has such keys: JSON replaces what is not.
pub record IsCheckpointCodec (codec : CheckpointCodec) (is_text : Text → Bool) : Type 0 where
  pub texts :
      (bytes : Text) (read : TextMap ℕ) → codec.unmarshal bytes ≡ ok read → AreTexts is_text read
  pub reads :
      (entries : TextMap ℕ) (bytes : Text)
      → AreTexts is_text entries
      → codec.marshal entries ≡ ok bytes
      → (read : TextMap ℕ) × (codec.unmarshal (bytes ++ b'\n' ∷ []) ≡ ok read)
        × ((key : Text) → find key read ≡ find key entries)

pub record FileCheckpointStore : Type 0 where
  pub has_path : Bool
  pub file : File
  pub write : Result (Unit {0})

module _ (codec : CheckpointCodec) where
  unfoldable pub load_all : File → Result (TextMap ℕ)
  load_all missing = ok []
  load_all unreadable = err read_failed
  load_all (content []) = ok []
  load_all (content (c ∷ bytes)) = codec.unmarshal (c ∷ bytes)

  unfoldable pub save_all : FileCheckpointStore → TextMap ℕ → Result FileCheckpointStore
  save_all store entries = do
    bytes ← codec.marshal entries
    store.write
    ok (record store { file = content (bytes ++ b'\n' ∷ []) })

  unfoldable pub file_load_checkpoint : Context → FileCheckpointStore → Text → Result (Option ℕ)
  file_load_checkpoint ctx store key = do
    live ctx
    guard store.has_path path_required
    entries ← load_all store.file
    ok (find key entries)

  unfoldable pub file_save_checkpoint :
      Context → FileCheckpointStore → Text → ℕ → Result FileCheckpointStore
  file_save_checkpoint ctx store key next = do
    live ctx
    guard store.has_path path_required
    entries ← load_all store.file
    save_all store (put key next entries)

  -- The checkpoint is lowered, or stays where it is.
  abbrev pub save_lower :
      FileCheckpointStore → Text → ℕ → TextMap ℕ → Option ℕ → Result FileCheckpointStore
  save_lower store key next entries none = save_all store (put key next entries)
  save_lower store key next entries (some current) =
      if leb current next then ok store else save_all store (put key next entries)

  unfoldable pub file_rollback_checkpoint :
      Context → FileCheckpointStore → Text → ℕ → Result FileCheckpointStore
  file_rollback_checkpoint ctx store key next = do
    live ctx
    guard store.has_path path_required
    guard (not (is_blank key)) checkpoint_key_required
    entries ← load_all store.file
    save_lower store key next entries (find key entries)

  module _ {is_text : Text → Bool} (law : IsCheckpointCodec codec is_text) where
    load_all-AreTexts :
        (file : File) (entries : TextMap ℕ) → load_all file ≡ ok entries → AreTexts is_text entries
    unfolding load_all
    load_all-AreTexts missing entries e = let same : [] ≡ entries = cc e in rw (← same) tt
    load_all-AreTexts unreadable entries e = cc
    load_all-AreTexts (content []) entries e = let same : [] ≡ entries = cc e in rw (← same) tt
    load_all-AreTexts (content (c ∷ bytes)) entries e = law.texts (c ∷ bytes) entries e

    load_all-saved :
        (entries : TextMap ℕ) (bytes : Text)
        → AreTexts is_text entries
        → codec.marshal entries ≡ ok bytes
        → (read : TextMap ℕ) × (load_all (content (bytes ++ b'\n' ∷ [])) ≡ ok read)
          × ((key : Text) → find key read ≡ find key entries)
    unfolding load_all
    load_all-saved entries [] t e = law.reads entries [] t e
    load_all-saved entries (c ∷ bytes) t e = law.reads entries (c ∷ bytes) t e

    save_all-load :
        (store after : FileCheckpointStore) (entries : TextMap ℕ) (key : Text)
        → AreTexts is_text entries
        → store.has_path ≡ true
        → save_all store entries ≡ ok after
        → file_load_checkpoint none after key ≡ ok (find key entries)
    unfolding save_all file_load_checkpoint
    save_all-load store after entries key t path e =
        let (bytes, written, e1) = >>=-eq-ok (codec.marshal entries) _ e in
        let (u, allowed, e2) = >>=-eq-ok store.write _ e1 in
        let (read, loaded, same) = load_all-saved entries bytes t written in
        let saved : record store { file = content (bytes ++ b'\n' ∷ []) } ≡ after = cc e2 in
        subst
          (λ s.
            (guard s.has_path path_required >> (load_all s.file >>= λ m. ok (find key m)))
            ≡ ok (find key entries))
          saved (rw (path, loaded) (ap ok (same key)))

    -- With a JSON codec that reads back the values that it wrote under keys of valid UTF-8, and
    -- reads no other keys: after `SaveCheckpoint` of the file store under such a key,
    -- `LoadCheckpoint` finds the checkpoint under its key and returns for every other key what it
    -- returned before, errors included.
    pub file_load_checkpoint-file_save_checkpoint :
        (before after : FileCheckpointStore) (key other : Text) (next : ℕ)
        → is_text key ≡ true
        → file_save_checkpoint none before key next ≡ ok after
        → file_load_checkpoint none after other
          ≡ (if text_eq key other then ok (some next) else file_load_checkpoint none before other)
    unfolding file_save_checkpoint file_load_checkpoint
    file_load_checkpoint-file_save_checkpoint before after key other next named e =
        elim (Bool-cases before.has_path) [
          | inr nowhere ↦ cc (rw nowhere at e)
          | inl path ↦
              let (u, allowed, e0) = >>=-eq-ok (guard before.has_path path_required) _ e in
              let (entries, loaded, e1) = >>=-eq-ok (load_all before.file) _ e0 in
              let texts =
                put-AreTexts is_text key next entries named
                  (load_all-AreTexts before.file entries loaded) in
              let found = save_all-load before after (put key next entries) other texts path e1 in
              found
              ∙ rw (path, loaded, find-put key other next entries)
                  (elim (Bool-cases (text_eq key other)) [
                    | inl same ↦ rw same refl
                    | inr differs ↦ rw differs refl
                  ])
        ]
