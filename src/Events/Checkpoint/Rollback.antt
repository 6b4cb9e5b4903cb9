-- ===== src/Events/Checkpoint/Rollback.antt =====
-- pkg/events/checkpoint.go: what rolling a checkpoint back does to every key.
use mathlib.Core.Path.{subst}
use railgun_go.Common.{
  is_blank, ℕ, min, leb, ◌≡◌, ap, Bool-cases, Option-cases, inl, inr, if◌then◌else◌, Option, none,
  some, Text, text_eq, text_eq_refl, text_eq→eq, ok, arith,
}
use railgun_go.Events.Checkpoint.{
  Checkpoints, with_checkpoint, load_checkpoint, lowered, rollback_checkpoint, save_checkpoint,
  rollback_scan_checkpoint,
}

-- The lower of a checkpoint, if there is one, and a block.
abbrev pub lower : Option ℕ → ℕ → ℕ
lower none next = next
lower (some current) next = min current next

lowered_self :
    (before : Checkpoints) (key : Text) (next : ℕ)
    → lowered (before key) next key before key ≡ some (lower (before key) next)
unfolding with_checkpoint
lowered_self before key next = elim (Option-cases (before key)) [
  | inl new ↦ rw (new, text_eq_refl key)
  | inr (current, old) ↦ ground (arith, old, text_eq_refl key)
]

lowered-lower :
    (before : Checkpoints) (key other : Text) (next : ℕ)
    → lowered (before key) next key before other
      ≡ (if text_eq key other then some (lower (before other) next) else before other)
unfolding with_checkpoint
lowered-lower before key other next = elim (Bool-cases (text_eq key other)) [
  | inl same ↦ rw same (
      subst (λ o. lowered (before key) next key before o ≡ some (lower (before o) next))
        (text_eq→eq key other same) (lowered_self before key next))
  | inr ne ↦ elim (Option-cases (before key)) [
    | inl new ↦ rw (new, ne)
    | inr (current, old) ↦ ground (arith, old, ne)
  ]
]

-- What `LoadCheckpoint` finds after `RollbackCheckpoint` to a block: under the key the lower of
-- that block and the checkpoint that stood there, and under any other key what it found before.
pub load_checkpoint-rollback_checkpoint :
    (before after : Checkpoints) (key other : Text) (next : ℕ)
    → rollback_checkpoint none (some before) key next ≡ ok after
    → load_checkpoint none (some after) other
      ≡ ok (if text_eq key other then some (lower (before other) next) else before other)
unfolding rollback_checkpoint load_checkpoint
load_checkpoint-rollback_checkpoint before after key other next e =
    elim (Bool-cases (is_blank key)) [
      | inl blank ↦ cc (rw blank at e)
      | inr named ↦
          let same : lowered (before key) next key before ≡ after = cc (rw named at e) in
          rw (← same) (ap ok (lowered-lower before key other next))
    ]

-- With a context that is not cancelled, `RollbackScanCheckpoint` by way of `LoadCheckpoint` and
-- `SaveCheckpoint` does what the memory store's own `RollbackCheckpoint` does, errors included.
pub rollback_scan_checkpoint-rollback_checkpoint :
    (checkpoints : Checkpoints) (key : Text) (next : ℕ)
    → rollback_scan_checkpoint none (some checkpoints) key next
      ≡ rollback_checkpoint none (some checkpoints) key next
unfolding rollback_scan_checkpoint rollback_checkpoint load_checkpoint save_checkpoint
rollback_scan_checkpoint-rollback_checkpoint checkpoints key next =
    elim (Bool-cases (is_blank key)) [
      | inl blank ↦ rw blank
      | inr named ↦ elim (Option-cases (checkpoints key)) [
        | inl new ↦ rw (named, new)
        | inr (current, old) ↦ elim (Bool-cases (leb current next)) [
          | inl low ↦ rw (named, old, low)
          | inr high ↦ rw (named, old, high)
        ]
      ]
    ]
