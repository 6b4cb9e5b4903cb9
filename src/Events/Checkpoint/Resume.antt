-- ===== src/Events/Checkpoint/Resume.antt =====
-- pkg/events/checkpoint.go: a scan that resumes at a checkpoint goes on where the one before ended.
use mathlib.Core.Path.{subst}
use railgun_go.Common.{
  is_blank, ℕ, ◌+◌, ◌-◌, ◌%◌, ◌^◌, ◌<◌, ◌≤◌, ◌≡◌, refl, ap, sym, ◌∙◌, ltb, Bool-cases, inl, inr,
  false, Option, none, some, List, ◌++◌, text_eq_refl, Result, ok, err, caused, caused-ok,
  Result-cases, ◌>>=◌, arith,
}
use railgun_go.Events.{
  ContractLog, V2AccumulatedEvents, Decoders, empty_events, append_events, accumulate_v2_logs,
  accumulate_from,
}
use railgun_go.Events.Scanner.{v2_filter_topics, u64, scan_v2_events}
use railgun_go.Events.Scanner.Whole.{
  IsSource, causes, logs_between, logs_between_split, scan_v2_events-whole, append_events-empty,
  caused-accumulate_v2_logs,
}
use railgun_go.Events.Accumulator.{plain_from, plain_from-append, plain_from-split}
use railgun_go.Events.Checkpoint.{
  Checkpoints, CheckpointedScan, LogNode, with_checkpoint, load_checkpoint, save_checkpoint,
  checkpoint_start_block, finalized_to_block, range_of, and_then, scan_and_save,
  scan_v2_events_from_checkpoint, Scanned,
}

-- A saved checkpoint is where the next scan starts.
checkpoint_start_block-with_checkpoint :
    (before : Checkpoints) (scan : CheckpointedScan) (next : ℕ)
    → is_blank scan.key ≡ false
    → checkpoint_start_block none (some (with_checkpoint scan.key next before)) scan ≡ ok next
unfolding checkpoint_start_block load_checkpoint with_checkpoint
checkpoint_start_block-with_checkpoint before scan next named =
    rw (named, text_eq_refl scan.key) refl

named_key :
    (before : Checkpoints) (scan : CheckpointedScan) (from : ℕ)
    → checkpoint_start_block none (some before) scan ≡ ok from
    → is_blank scan.key ≡ false
unfolding checkpoint_start_block
named_key before scan from e = elim (Bool-cases (is_blank scan.key)) [
  | inl blank ↦ cc (rw blank at e)
  | inr named ↦ named
]

some-injective : {A : Type 0} {a b : A} → some a ≡ some b → a ≡ b
some-injective e = cc

module _ {C N U : Type 0} (d : Decoders C N U) (scan : CheckpointedScan)
    (logs_of : ℕ → List ContractLog) where
  -- A node that answers with the logs of the chain, in order, up to the last block that its head
  -- confirms.
  pub record IsNode (node : LogNode) : Type 0 where
    pub source :
        (latest to : ℕ)
        → node.block_number ≡ ok latest
        → to + scan.confirmations ≡ latest
        → IsSource node.filter_logs scan.addresses (v2_filter_topics d) logs_of to
    pub head : (latest : ℕ) → node.block_number ≡ ok latest → latest + 1 < 2 ^ 64

  -- What a scan has done: its events are those of the blocks from `from` to before `next`, and the
  -- next scan starts at `next`.
  abbrev pub Covers : ℕ → V2AccumulatedEvents C N U → ℕ → Checkpoints → Type 0
  Covers from out next after =
      (from ≤ next)
      × (accumulate_v2_logs d (logs_between logs_of from (next - from)) ≡ ok out)
      × (checkpoint_start_block none (some after) scan ≡ ok next)

  unchanged-Covers :
      (before after : Checkpoints) (from next : ℕ) (out : V2AccumulatedEvents C N U)
      → checkpoint_start_block none (some before) scan ≡ ok from
      → Path
          (Option (Result (Scanned d)))
          (some (ok (empty_events, from, before)))
          (some (ok (out, next, after)))
      → Covers from out next after
  unfolding accumulate_v2_logs logs_between accumulate_from
  unchanged-Covers before after from next out start e =
      let same : Path (Scanned d) (empty_events, from, before) (out, next, after) = cc in
      subst (λ s. Covers from s.0 s.1 s.2) same
        (omega arith, (let none_left : from - from ≡ 0 = omega arith in rw none_left refl), start)

  -- What is stored after a scan that succeeded.
  done-ok :
      {A B : Type 0} (m : Option (Result A)) (r : Result A) (f : A → Result B) (b : B)
      → causes m ≡ some (caused r)
      → and_then m f ≡ some (ok b)
      → (a : A) × (r ≡ ok a) × (f a ≡ ok b)
  done-ok none r f b h e = cc
  done-ok (some (err failure)) r f b h e = cc
  done-ok (some (ok a)) r f b h e =
      let decoded : caused r ≡ ok a = cc h in (a, caused-ok r decoded, some-injective e)

  saved-Covers :
      (node : LogNode) (before after : Checkpoints) (from to next : ℕ)
      (out : V2AccumulatedEvents C N U)
      → IsSource node.filter_logs scan.addresses (v2_filter_topics d) logs_of to
      → scan.chunk_size < 2 ^ 64
      → to + 1 < 2 ^ 64
      → is_blank scan.key ≡ false
      → from ≤ to
      → scan_and_save d none (some before) (some node) scan from to ≡ some (ok (out, next, after))
      → Covers from out next after
  unfolding scan_and_save save_checkpoint
  saved-Covers node before after from to next out source size small named h e =
      let wrap : (to + 1) % u64 ≡ to + 1 = omega (arith, small) in
      let whole =
        scan_v2_events-whole d (range_of scan from to) node.filter_logs logs_of source
          (record { to = omega (arith, small); size = size }) h in
      let (events, decoded, saved) =
        done-ok (scan_v2_events d (some node.filter_logs) (range_of scan from to) (to + 1 - from)) _
          _ (out, next, after) whole (rw wrap at e) in
      let same : Path (Scanned d) (events, to + 1, with_checkpoint scan.key (to + 1) before)
          (out, next, after) =
        cc saved in
      subst (λ s. Covers from s.0 s.1 s.2) same
        (
          omega (arith, h),
          decoded,
          checkpoint_start_block-with_checkpoint before scan (to + 1) named,
        )

  -- A scan that succeeds returns the events of the blocks from its start to before the checkpoint
  -- that it stores, and the next scan starts there.
  scan-Covers :
      (node : LogNode) (before after : Checkpoints) (from next : ℕ)
      (out : V2AccumulatedEvents C N U)
      → IsNode node
      → scan.chunk_size < 2 ^ 64
      → checkpoint_start_block none (some before) scan ≡ ok from
      → scan_v2_events_from_checkpoint d none (some node) (some before) scan
        ≡ some (ok (out, next, after))
      → Covers from out next after
  unfolding scan_v2_events_from_checkpoint finalized_to_block
  scan-Covers node before after from next out n size start e =
      elim (Result-cases node.block_number) [
        | inl (bad, failed) ↦ cc (rw (start, failed) at e)
        | inr (latest, head) ↦ elim (Bool-cases (ltb latest scan.confirmations)) [
          | inl young ↦
              unchanged-Covers before after from next out start (rw (start, head, young) at e)
          | inr deep ↦ elim (Bool-cases (ltb (latest - scan.confirmations) from)) [
            | inl done ↦
                unchanged-Covers before after from next out start
                  (rw (start, head, deep, done) at e)
            | inr more ↦
                let to : ℕ = latest - scan.confirmations in
                let small : to + 1 < 2 ^ 64 = omega (arith, n.head latest head) in
                let h : from ≤ to = ground arith in
                let confirmed : to + scan.confirmations ≡ latest = ground arith in
                saved-Covers node before after from to next out (n.source latest to head confirmed)
                  size small (named_key before scan from start) h
                  (rw (start, head, deep, more) at e)
          ]
        ]
      ]

  accumulate_v2_logs-append :
      (xs ys : List ContractLog) (out more : V2AccumulatedEvents C N U)
      → accumulate_v2_logs d xs ≡ ok out
      → accumulate_v2_logs d ys ≡ ok more
      → accumulate_v2_logs d (xs ++ ys) ≡ ok (append_events out more)
  accumulate_v2_logs-append xs ys out more e f =
      let first : plain_from d empty_events xs ≡ ok out =
        sym (caused-accumulate_v2_logs d xs) ∙ ap caused e in
      let second : plain_from d empty_events ys ≡ ok more =
        sym (caused-accumulate_v2_logs d ys) ∙ ap caused f in
      caused-ok (accumulate_v2_logs d (xs ++ ys)) (
        caused-accumulate_v2_logs d (xs ++ ys)
        ∙ plain_from-split d empty_events xs ys
        ∙ ap (λ m. m >>= λ out'. plain_from d out' ys) first
        ∙ ap (λ o. plain_from d o ys) (sym (append_events-empty d out))
        ∙ plain_from-append d out empty_events ys
        ∙ ap (λ m. m >>= λ events. ok (append_events out events)) second)

  -- Two scans from a checkpoint, one after the other, of nodes that have any heads below 2^64 - 1
  -- and answer in order for the blocks that their heads confirm: if both succeed, their events in
  -- order are those of the blocks from the first start to before the second checkpoint, so that
  -- none is missed or seen twice.
  pub scan_v2_events_from_checkpoint-resumes :
      (node later : LogNode) (before middle after : Checkpoints) (from next last : ℕ)
      (out more : V2AccumulatedEvents C N U)
      → IsNode node
      → IsNode later
      → scan.chunk_size < 2 ^ 64
      → checkpoint_start_block none (some before) scan ≡ ok from
      → scan_v2_events_from_checkpoint d none (some node) (some before) scan
        ≡ some (ok (out, next, middle))
      → scan_v2_events_from_checkpoint d none (some later) (some middle) scan
        ≡ some (ok (more, last, after))
      → (from ≤ last)
        × (accumulate_v2_logs d (logs_between logs_of from (last - from))
            ≡ ok (append_events out more))
        × (checkpoint_start_block none (some after) scan ≡ ok last)
  scan_v2_events_from_checkpoint-resumes node later before middle after from next last out more n l
        size start e f =
      let (low, first, again) = scan-Covers node before middle from next out n size start e in
      let (high, second, ready) = scan-Covers later middle after next last more l size again f in
      let sum : last - from ≡ (next - from) + (last - next) = omega (arith, low, high) in
      let joint : from + (next - from) ≡ next = omega (arith, low) in
      (
        omega (arith, low, high),
        (rw sum (
            rw (logs_between_split logs_of from (next - from) (last - next))
              (accumulate_v2_logs-append _ _ out more first (rw joint second)))),
        ready,
      )
