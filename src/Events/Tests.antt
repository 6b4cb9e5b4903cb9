-- ===== src/Events/Tests.antt =====
-- The theorems on scans at concrete inputs: a log in every block, decoded to its block number.
use railgun_go.Common.{
  ℕ, ◌+◌, ◌-◌, ◌<◌, ◌≤◌, ◌≡◌, ◌⊎◌, refl, Option, none, some, List, [], ◌∷◌, Text, codes, text_eq,
  length, Result, ok, err, decode_failed, provider_failed, leb, if◌then◌else◌, true, caused, arith,
}
use railgun_go.Events.{
  ContractLog, V2AccumulatedEvents, Decoders, accumulate_v2_logs, accumulate_from, accumulate_log,
  append_events, empty_events, equal_fold, first_topic,
}
use railgun_go.Crypto.Bytes.{to_lower}
use railgun_go.Events.Scanner.{
  ScanRange, Provider, chunk_end, scan_log_chunks, v2_filter_topics, collect, scan_v2_events,
  scan_loop, scan_chunk,
}
use railgun_go.Events.Scanner.Bounds.{InRange, chunk_end_bounds, scan_log_chunks-total}
use railgun_go.Events.Scanner.Whole.{IsSource, causes, logs_between, scan_v2_events-whole}
use railgun_go.Events.Checkpoint.{
  Checkpoints, CheckpointedScan, LogNode, with_checkpoint, load_checkpoint, save_checkpoint,
  finalized_to_block, scan_and_save, rollback_checkpoint, rollback_scan_checkpoint,
  checkpoint_start_block, scan_v2_events_from_checkpoint,
}
use railgun_go.Events.Checkpoint.Rollback.{
  load_checkpoint-rollback_checkpoint, rollback_scan_checkpoint-rollback_checkpoint,
}
use railgun_go.Events.Checkpoint.Resume.{IsNode, scan_v2_events_from_checkpoint-resumes}

abbrev decoders : Decoders ℕ ℕ ℕ
decoders = record {
  shield_topic = codes "0xaa";
  transact_topic = codes "0xbb";
  unshield_topic = codes "0xcc";
  nullified_topic = codes "0xdd";
  parse_shield = λ log. ok log.block_number;
  parse_transact = λ log. ok log.block_number;
  parse_unshield = λ log. err decode_failed;
  parse_nullified = λ log. ok (log.index ∷ []);
}

abbrev logs_of : ℕ → List ContractLog
logs_of block =
    record {
      topics = codes "0xAA" ∷ [];
      bytes = [];
      transaction_hash = [];
      block_number = block;
      index = 0;
    }
    ∷ []

abbrev provider : Provider
provider filter =
    ok (logs_between logs_of filter.from_block (filter.to_block + 1 - filter.from_block))

abbrev scan : ScanRange
scan = record { addresses = []; from_block = 3; to_block = 7; chunk_size = 2 }

scan-InRange : InRange scan
scan-InRange = record { to = omega arith; size = omega arith }

source : IsSource provider [] (v2_filter_topics decoders) logs_of 7
source = record { answers = λ from to h l. refl }

chunk_end_bounds_example :
    (3 ≤ chunk_end scan 3)
    × (chunk_end scan 3 ≤ 7)
    × ((chunk_end scan 3 ≡ 7) ⊎ (chunk_end scan 3 + 1 ≡ 5))
    × ((scan.chunk_size ≡ 0) ⊎ (chunk_end scan 3 < 5))
chunk_end_bounds_example = chunk_end_bounds scan 3 scan-InRange (omega arith)

scan_log_chunks-total_example :
    (result : Result (V2AccumulatedEvents ℕ ℕ ℕ)) × (scan_log_chunks scan []
        (collect decoders)
        (some provider)
        5
        (record { commitment_events = []; nullifier_events = []; unshield_events = [] })
      ≡ some result)
scan_log_chunks-total_example =
    scan_log_chunks-total scan [] (collect decoders) (some provider)
      (record { commitment_events = []; nullifier_events = []; unshield_events = [] }) scan-InRange

scan_v2_events-whole_example :
    causes (scan_v2_events decoders (some provider) scan 5)
    ≡ some (caused (accumulate_v2_logs decoders (logs_between logs_of 3 5)))
scan_v2_events-whole_example =
    scan_v2_events-whole decoders scan provider logs_of source scan-InRange (omega arith)

abbrev key : Text
key = codes "scan"

abbrev checkpoints : Checkpoints
checkpoints = with_checkpoint key 9 (λ other. none)

rolled : rollback_checkpoint none (some checkpoints) key 4 ≡ ok (with_checkpoint key 4 checkpoints)
unfolding rollback_checkpoint with_checkpoint text_eq
rolled = refl

load_checkpoint-rollback_checkpoint_example :
    load_checkpoint none (some (with_checkpoint key 4 checkpoints)) key ≡ ok (some 4)
unfolding with_checkpoint text_eq
load_checkpoint-rollback_checkpoint_example =
    load_checkpoint-rollback_checkpoint checkpoints (with_checkpoint key 4 checkpoints) key key 4
      rolled

-- A node that fails when it is asked for blocks above its head.
abbrev provider_to : ℕ → Provider
provider_to latest filter =
    if leb filter.to_block latest then provider filter else err provider_failed

abbrev node : ℕ → LogNode
node latest = record { block_number = ok latest; filter_logs = provider_to latest }

provider_to-IsSource :
    (latest l to : ℕ)
    → ok latest ≡ ok l
    → to + 1 ≡ l
    → IsSource (provider_to latest) [] (v2_filter_topics decoders) logs_of to
provider_to-IsSource latest l last e confirmed = record {
  answers = λ from to h low.
      (let same : latest ≡ l = cc e in
        let inside : leb to latest ≡ true = ground (arith, same, confirmed, low) in rw inside refl);
}

abbrev checkpointed : CheckpointedScan
checkpointed = record {
  key = key;
  addresses = [];
  start_block = 3;
  chunk_size = 2;
  confirmations = 1;
}

abbrev unscanned : Checkpoints
unscanned other = none

abbrev events : List ℕ → V2AccumulatedEvents ℕ ℕ ℕ
events blocks = record { commitment_events = blocks; nullifier_events = []; unshield_events = [] }

node-IsNode : (latest : ℕ) → latest + 1 < 100 → IsNode decoders checkpointed logs_of (node latest)
node-IsNode latest h = record {
  source = provider_to-IsSource latest;
  head = λ l e. (let same : latest ≡ l = cc in omega (arith, same, h));
}

starts : checkpoint_start_block none (some unscanned) checkpointed ≡ ok 3
unfolding checkpoint_start_block load_checkpoint
starts = refl

abbrev first_scan : Option (Result (V2AccumulatedEvents ℕ ℕ ℕ × ℕ × Checkpoints))
first_scan =
    scan_v2_events_from_checkpoint decoders none (some (node 6)) (some unscanned) checkpointed

first_scan_lem :
    first_scan ≡ some (ok (events (3 ∷ 4 ∷ 5 ∷ []), 6, with_checkpoint key 6 unscanned))
unfolding text_eq with_checkpoint checkpoint_start_block load_checkpoint finalized_to_block
    scan_and_save save_checkpoint scan_v2_events_from_checkpoint scan_v2_events scan_log_chunks
    scan_loop scan_chunk chunk_end accumulate_v2_logs accumulate_from accumulate_log append_events
    empty_events equal_fold first_topic to_lower logs_between length
first_scan_lem = refl

abbrev second_scan : Option (Result (V2AccumulatedEvents ℕ ℕ ℕ × ℕ × Checkpoints))
second_scan =
    scan_v2_events_from_checkpoint decoders none (some (node 8))
      (some (with_checkpoint key 6 unscanned)) checkpointed

second_scan_lem :
    second_scan
    ≡ some (ok (events (6 ∷ 7 ∷ []), 8, with_checkpoint key 8 (with_checkpoint key 6 unscanned)))
unfolding text_eq with_checkpoint checkpoint_start_block load_checkpoint finalized_to_block
    scan_and_save save_checkpoint scan_v2_events_from_checkpoint scan_v2_events scan_log_chunks
    scan_loop scan_chunk chunk_end accumulate_v2_logs accumulate_from accumulate_log append_events
    empty_events equal_fold first_topic to_lower logs_between length
second_scan_lem = refl

scan_v2_events_from_checkpoint-resumes_example :
    (3 ≤ 8)
    × (accumulate_v2_logs decoders (logs_between logs_of 3 5)
        ≡ ok (append_events (events (3 ∷ 4 ∷ 5 ∷ [])) (events (6 ∷ 7 ∷ []))))
    × (checkpoint_start_block none
          (some (with_checkpoint key 8 (with_checkpoint key 6 unscanned)))
          checkpointed
        ≡ ok 8)
scan_v2_events_from_checkpoint-resumes_example =
    scan_v2_events_from_checkpoint-resumes decoders checkpointed logs_of (node 6) (node 8) unscanned
      (with_checkpoint key 6 unscanned) (with_checkpoint key 8 (with_checkpoint key 6 unscanned)) 3
      6 8 (events (3 ∷ 4 ∷ 5 ∷ [])) (events (6 ∷ 7 ∷ [])) (node-IsNode 6 (omega arith))
      (node-IsNode 8 (omega arith)) (omega arith) starts first_scan_lem second_scan_lem

rollback_scan_checkpoint-rollback_checkpoint_example :
    rollback_scan_checkpoint none (some checkpoints) key 4
    ≡ rollback_checkpoint none (some checkpoints) key 4
rollback_scan_checkpoint-rollback_checkpoint_example =
    rollback_scan_checkpoint-rollback_checkpoint checkpoints key 4
