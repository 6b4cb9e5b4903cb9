-- ===== src/Events/Checkpoint/Files/Tests.antt =====
-- The file store of checkpoints at a concrete input, with a codec for one entry in place of JSON.
use railgun_go.Common.{
  ℕ, Bool, Bool-cases, inl, inr, ltb, ◌&&◌, ◌≡◌, refl, ap, true, none, some, [], ◌∷◌, ◌++◌, Text,
  codes, text_eq, if◌then◌else◌, Result, ok, err, read_failed,
}
use railgun_go.Common.TextMap.{TextMap, find, put}
use railgun_go.UtxoTree.Files.{missing, content}
use railgun_go.Events.Checkpoint.Files.{
  CheckpointCodec, AreTexts, IsCheckpointCodec, FileCheckpointStore, load_all, save_all,
  file_load_checkpoint, file_save_checkpoint, file_load_checkpoint-file_save_checkpoint,
}

abbrev but_last : Text → Text
but_last [] = []
but_last (c ∷ []) = []
but_last (c ∷ d ∷ s) = c ∷ but_last (d ∷ s)

but_last-append : (s : Text) (c : ℕ) → but_last (s ++ c ∷ []) ≡ s
but_last-append [] c = refl
but_last-append (d ∷ []) c = refl
but_last-append (d ∷ e ∷ s) c = ap (λ r. d ∷ r) (but_last-append (e ∷ s) c)

-- Of ASCII codes only.
abbrev is_ascii : Text → Bool
is_ascii [] = true
is_ascii (c ∷ s) = ltb c 128 && is_ascii s

abbrev write_entries : TextMap ℕ → Result Text
write_entries [] = ok []
write_entries ((key, next) ∷ []) = ok (1 ∷ next ∷ key)
write_entries (entry ∷ other ∷ entries) = err read_failed

abbrev read_entries : Text → Result (TextMap ℕ)
read_entries [] = ok []
read_entries (c ∷ []) = ok []
read_entries (c ∷ next ∷ key) =
    if is_ascii (but_last key) then ok ((but_last key, next) ∷ []) else err read_failed

abbrev codec : CheckpointCodec
codec = record { marshal = write_entries; unmarshal = read_entries }

read_back :
    (entries : TextMap ℕ) (bytes : Text)
    → AreTexts is_ascii entries
    → write_entries entries ≡ ok bytes
    → (read : TextMap ℕ) × (read_entries (bytes ++ b'\n' ∷ []) ≡ ok read)
      × ((key : Text) → find key read ≡ find key entries)
read_back [] bytes t e = let same : [] ≡ bytes = cc e in rw (← same) ([], refl, λ key. refl)
read_back ((key, next) ∷ []) bytes t e =
    let same : 1 ∷ next ∷ key ≡ bytes = cc e in
    rw (← same) ((key, next) ∷ [], rw (but_last-append key b'\n', t.0) refl, λ other. refl)
read_back (entry ∷ other ∷ entries) bytes t e = cc e

only_texts :
    (bytes : Text) (read : TextMap ℕ) → read_entries bytes ≡ ok read → AreTexts is_ascii read
only_texts [] read e = let same : [] ≡ read = cc e in rw (← same) tt
only_texts (c ∷ []) read e = let same : [] ≡ read = cc e in rw (← same) tt
only_texts (c ∷ next ∷ key) read e = elim (Bool-cases (is_ascii (but_last key))) [
  | inl ascii ↦
      let same : (but_last key, next) ∷ [] ≡ read = cc (rw ascii at e) in rw (← same) (ascii, tt)
  | inr other ↦ cc (rw other at e)
]

codec-IsCheckpointCodec : IsCheckpointCodec codec is_ascii
codec-IsCheckpointCodec = record { texts = only_texts; reads = read_back }

abbrev new_store : FileCheckpointStore
new_store = record { has_path = true; file = missing; write = ok tt }

abbrev saved_store : FileCheckpointStore
saved_store = record new_store { file = content (1 ∷ 7 ∷ codes "k" ++ b'\n' ∷ []) }

saved : file_save_checkpoint codec none new_store (codes "k") 7 ≡ ok saved_store
unfolding file_save_checkpoint load_all save_all put
saved = refl

file_load_checkpoint-file_save_checkpoint_example :
    file_load_checkpoint codec none saved_store (codes "k") ≡ (
      if text_eq (codes "k") (codes "k")
      then ok (some 7)
      else file_load_checkpoint codec none new_store (codes "k"))
file_load_checkpoint-file_save_checkpoint_example =
    file_load_checkpoint-file_save_checkpoint codec codec-IsCheckpointCodec new_store saved_store
      (codes "k") (codes "k") 7 refl saved
