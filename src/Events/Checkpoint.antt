-- ===== src/Events/Checkpoint.antt =====
-- pkg/events/checkpoint.go: `MemoryCheckpointStore`, and scans that go on from a checkpoint. A map
-- from keys to checkpoints is a function. A checkpoint is its `NextBlock`.
pub mod Rollback
pub mod Resume
pub mod Files
use mathlib.Core.Option
use railgun_go.Common.{
  is_blank, ℕ, ◌+◌, ◌-◌, ◌%◌, ◌^◌, ltb, leb, not, if◌then◌else◌, Bool, Option, none, some, List, [],
  ◌∷◌, Text, text_eq, Result, ok, err, ◌>>=◌, ◌>>◌, guard, Context, live, required, store_required,
  provider_required, checkpoint_key_required,
}
use railgun_go.Events.{V2AccumulatedEvents, Decoders, empty_events}
use railgun_go.Events.Scanner.{Provider, ScanRange, u64, scan_v2_events}

abbrev pub Checkpoints : Type 0
Checkpoints = Text → Option ℕ

pub record CheckpointedScan : Type 0 where
  pub key : Text
  pub addresses : List Text
  pub start_block : ℕ
  pub chunk_size : ℕ
  pub confirmations : ℕ

-- `CheckpointedLogProvider`: the answer of `BlockNumber`, and `FilterLogs`.
pub record LogNode : Type 0 where
  pub block_number : Result ℕ
  pub filter_logs : Provider

unfoldable pub with_checkpoint : Text → ℕ → Checkpoints → Checkpoints
with_checkpoint key next checkpoints other =
    if text_eq key other then some next else checkpoints other

unfoldable pub load_checkpoint : Context → Option Checkpoints → Text → Result (Option ℕ)
load_checkpoint ctx store key = do
  live ctx
  checkpoints ← required store store_required
  ok (checkpoints key)

unfoldable pub save_checkpoint : Context → Option Checkpoints → Text → ℕ → Result Checkpoints
save_checkpoint ctx store key next = do
  live ctx
  checkpoints ← required store store_required
  ok (with_checkpoint key next checkpoints)

abbrev pub lowered : Option ℕ → ℕ → Text → Checkpoints → Checkpoints
lowered none next key checkpoints = with_checkpoint key next checkpoints
lowered (some current) next key checkpoints =
    if leb current next then checkpoints else with_checkpoint key next checkpoints

unfoldable pub rollback_checkpoint : Context → Option Checkpoints → Text → ℕ → Result Checkpoints
rollback_checkpoint ctx store key next = do
  live ctx
  checkpoints ← required store store_required
  guard (not (is_blank key)) checkpoint_key_required
  ok (lowered (checkpoints key) next key checkpoints)

-- `RollbackScanCheckpoint` on a store that has no `RollbackCheckpoint` of its own.
unfoldable pub rollback_scan_checkpoint :
    Context → Option Checkpoints → Text → ℕ → Result Checkpoints
rollback_scan_checkpoint ctx store key next = do
  checkpoints ← required store store_required
  guard (not (is_blank key)) checkpoint_key_required
  found ← load_checkpoint ctx store key
  elim found [
    | none ↦ save_checkpoint ctx store key next
    | some current ↦ if leb current next then ok checkpoints else save_checkpoint ctx store key next
  ]

abbrev start_or : ℕ → Option ℕ → ℕ
start_or start none = start
start_or start (some next) = next

unfoldable pub checkpoint_start_block : Context → Option Checkpoints → CheckpointedScan → Result ℕ
checkpoint_start_block ctx store scan = do
  checkpoints ← required store store_required
  guard (not (is_blank scan.key)) checkpoint_key_required
  found ← load_checkpoint ctx store scan.key
  ok (start_or scan.start_block found)

unfoldable pub finalized_to_block : Option LogNode → ℕ → Result (Option ℕ)
finalized_to_block provider confirmations = do
  node ← required provider provider_required
  latest ← node.block_number
  ok (if ltb latest confirmations then none else some (latest - confirmations))

abbrev pub range_of : CheckpointedScan → ℕ → ℕ → ScanRange
range_of scan from to = record {
  addresses = scan.addresses;
  from_block = from;
  to_block = to;
  chunk_size = scan.chunk_size;
}

-- A result that a loop on fuel may not have reached, and what is done with it.
abbrev pub and_then : {A B : Type 0} → Option (Result A) → (A → Result B) → Option (Result B)
and_then none f = none
and_then (some m) f = some (m >>= f)

abbrev pub try : {A B : Type 0} → Result A → (A → Option (Result B)) → Option (Result B)
try (err e) f = some (err e)
try (ok a) f = f a

abbrev pub filter_of_node : LogNode → Provider
filter_of_node node = node.filter_logs

module _ {C N U : Type 0} (d : Decoders C N U) where
  -- The events, the checkpoint that is returned, and the store.
  abbrev pub Scanned : Type 0
  Scanned = V2AccumulatedEvents C N U × ℕ × Checkpoints

  -- The scan of the blocks `from` to `to`, and the new checkpoint.
  unfoldable pub scan_and_save :
      Context
      → Option Checkpoints
      → Option LogNode
      → CheckpointedScan
      → ℕ
      → ℕ
      → Option (Result Scanned)
  scan_and_save ctx store provider scan from to =
      and_then
        (scan_v2_events d (Option.map filter_of_node provider) (range_of scan from to)
          (to + 1 - from))
        (λ out. do
          checkpoints ← save_checkpoint ctx store scan.key ((to + 1) % u64)
          ok (out, (to + 1) % u64, checkpoints))

  abbrev unchanged : Option Checkpoints → ℕ → Option (Result Scanned)
  unchanged store from =
      some (do checkpoints ← required store store_required; ok (empty_events, from, checkpoints))

  unfoldable pub scan_v2_events_from_checkpoint :
      Context → Option LogNode → Option Checkpoints → CheckpointedScan → Option (Result Scanned)
  scan_v2_events_from_checkpoint ctx provider store scan =
      try (checkpoint_start_block ctx store scan) λ from.
        try (finalized_to_block provider scan.confirmations) λ finalized. elim finalized [
          | none ↦ unchanged store from
          | some to ↦
              if ltb to from
              then unchanged store from
              else scan_and_save ctx store provider scan from to
        ]
