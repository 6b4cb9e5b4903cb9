-- ===== src/Events/Scanner/Whole.antt =====
-- pkg/events/scanner.go: a scan in chunks returns what one pass over all logs returns,
-- but for what is wrapped around errors.
use mathlib.Core.List.{append_assoc, append-nil}
use native.Mathlib.Nat.{zero-add, add-zero}
use railgun_go.Common.{
  ℕ, zero, suc, ◌+◌, ◌-◌, ◌<◌, ◌≤◌, ◌≡◌, ◌≢◌, refl, ap, sym, ◌∙◌, ltb, ◌==◌, Bool-cases, inl, inr,
  false, Option, none, some, handling, caused, caused-wrap, caused->>=, List, [], ◌++◌, length,
  Text, Result, ok, err, ◌>>=◌, arith,
}
use railgun_go.Events.{
  ContractLog, V2AccumulatedEvents, Decoders, empty_events, append_events, accumulate_v2_logs,
}
use railgun_go.Events.Accumulator.{
  plain_from, caused-accumulate_from, plain_from-append, plain_from-split,
}
use railgun_go.Events.Scanner.{
  ScanRange, ScannedLogChunk, Provider, chunk_end, scan_chunk, scan_loop, scan_log_chunks, go_on,
  collect, v2_filter_topics, scan_v2_events,
}
use railgun_go.Events.Scanner.Bounds.{InRange, chunk_end_bounds, next_chunk}

-- The logs of `count` blocks from `from` on, in order.
unfoldable pub logs_between : (ℕ → List ContractLog) → ℕ → ℕ → List ContractLog
logs_between logs_of from zero = []
logs_between logs_of from (suc count) = logs_of from ++ logs_between logs_of (from + 1) count

-- The provider answers each query that ends at the block `last` or before with the matching logs of
-- its blocks, in order.
pub record IsSource (provider : Provider) (addresses : List Text) (topics : List (List Text))
    (logs_of : ℕ → List ContractLog) (last : ℕ) : Type 0 where
  pub answers :
      (from to : ℕ)
      → from ≤ to
      → to ≤ last
      → provider
          (record { addresses = addresses; from_block = from; to_block = to; topics = topics })
        ≡ ok (logs_between logs_of from (to + 1 - from))

pub logs_between_split :
    (logs_of : ℕ → List ContractLog) (from m n : ℕ)
    → logs_between logs_of from (m + n)
      ≡ logs_between logs_of from m ++ logs_between logs_of (from + m) n
unfolding logs_between
logs_between_split logs_of from zero n = rw (zero-add, add-zero)
logs_between_split logs_of from (suc m) n =
    let grow : suc m + n ≡ suc (m + n) = omega arith in
    let shift : from + 1 + m ≡ from + suc m = omega arith in
    rw grow (
      ap (λ rest. logs_of from ++ rest) (rw shift at (logs_between_split logs_of (from + 1) m n))
      ∙ sym (
          append_assoc (logs_of from) (logs_between logs_of (from + 1) m)
            (logs_between logs_of (from + suc m) n)))

-- A result that a loop on fuel may not have reached, without what was wrapped around its error.
abbrev pub causes : {A : Type 0} → Option (Result A) → Option (Result A)
causes none = none
causes (some m) = some (caused m)

go_on-causes :
    {A : Type 0} (m : Result A) (k : A → Option (Result A)) (f : A → Result A)
    → ((t : A) → causes (k t) ≡ some (f t))
    → causes (go_on m k) ≡ some (caused m >>= f)
go_on-causes (ok t) k f h = h t
go_on-causes (err e) k f h = refl

>>=-ok : {A : Type 0} (m : Result A) → (m >>= λ t. ok t) ≡ m
>>=-ok (ok t) = refl
>>=-ok (err e) = refl

module _ {C N U : Type 0} (d : Decoders C N U) where
  pub append_events-empty : (out : V2AccumulatedEvents C N U) → append_events out empty_events ≡ out
  unfolding append_events empty_events
  append_events-empty out = simp append-nil

  pub caused-accumulate_v2_logs :
      (logs : List ContractLog)
      → caused (accumulate_v2_logs d logs) ≡ plain_from d empty_events logs
  unfolding accumulate_v2_logs
  caused-accumulate_v2_logs logs = caused-accumulate_from d empty_events 0 logs

  -- What one chunk adds is what going on over its logs gives.
  collect-caused :
      (out : V2AccumulatedEvents C N U) (logs : List ContractLog) (chunk : ScannedLogChunk)
      → caused (collect d out logs chunk) ≡ plain_from d out logs
  collect-caused out logs chunk =
      caused->>= (accumulate_v2_logs d logs) (λ events. ok (append_events out events))
      ∙ ap (λ m. m >>= λ events. ok (append_events out events)) (caused-accumulate_v2_logs logs)
      ∙ sym (plain_from-append d out empty_events logs)
      ∙ ap (λ o. plain_from d o logs) (append_events-empty out)

  module _ (scan : ScanRange) (provider : Provider) (logs_of : ℕ → List ContractLog)
      (source : IsSource provider scan.addresses (v2_filter_topics d) logs_of scan.to_block)
      (r : InRange scan) where
    -- The logs that a scan from `from` on has still to read.
    abbrev left : ℕ → List ContractLog
    left from = logs_between logs_of from (scan.to_block + 1 - from)

    abbrev round : ℕ → V2AccumulatedEvents C N U → Result (V2AccumulatedEvents C N U)
    round from out = scan_chunk scan (v2_filter_topics d) (collect d) provider from out

    chunk_reads :
        (from : ℕ) (out : V2AccumulatedEvents C N U)
        → from ≤ scan.to_block
        → caused (scan_chunk scan (v2_filter_topics d) (collect d) provider from out)
          ≡ plain_from d out (logs_between logs_of from (chunk_end scan from + 1 - from))
    unfolding scan_chunk
    chunk_reads from out h =
        let bounds = chunk_end_bounds scan from r h in
        rw (source.answers from (chunk_end scan from) bounds.0 bounds.1) (
          caused-wrap (handling from (chunk_end scan from)) _ (λ e. refl)
          ∙ collect-caused out (logs_between logs_of from (chunk_end scan from + 1 - from))
              (record {
                from_block = from;
                to_block = chunk_end scan from;
                logs = length (logs_between logs_of from (chunk_end scan from + 1 - from));
              }))

    left_split :
        (from : ℕ)
        → from ≤ scan.to_block
        → chunk_end scan from ≢ scan.to_block
        → left from
          ≡ logs_between logs_of from (chunk_end scan from + 1 - from)
            ++ left (chunk_end scan from + 1)
    left_split from h ne =
        let low = (chunk_end_bounds scan from r h).0 in
        let high = (chunk_end_bounds scan from r h).1 in
        let m : ℕ = chunk_end scan from + 1 - from in
        let n : ℕ = scan.to_block + 1 - (chunk_end scan from + 1) in
        let sum : scan.to_block + 1 - from ≡ m + n = omega (arith, low, high) in
        let at_end : from + m ≡ chunk_end scan from + 1 = omega (arith, low) in
        rw sum (rw at_end at (logs_between_split logs_of from m n))

    loop_lem :
        (fuel from : ℕ) (out : V2AccumulatedEvents C N U)
        → from ≤ scan.to_block
        → scan.to_block - from < fuel
        → causes (scan_loop scan (v2_filter_topics d) (collect d) provider fuel from out)
          ≡ some (plain_from d out (left from))
    unfolding scan_loop
    loop_lem zero from out h l = absurd (omega arith)
    loop_lem (suc fuel) from out h l = elim (Bool-cases (chunk_end scan from == scan.to_block)) [
      | inl last ↦
          let e : chunk_end scan from ≡ scan.to_block = ground arith in
          go_on-causes (round from out) _ (λ t. ok t) (λ t. rw last)
          ∙ ap some (>>=-ok (caused (round from out)) ∙ chunk_reads from out h)
          ∙ rw e
      | inr more ↦
          let ne : chunk_end scan from ≢ scan.to_block = ground arith in
          let (small, inside) = next_chunk scan from r h ne in
          let low = (chunk_end_bounds scan from r h).0 in
          let next : ℕ = chunk_end scan from + 1 in
          go_on-causes (round from out) _ (λ t. plain_from d t (left next))
            (λ t. rw (more, small) (loop_lem fuel next t inside (omega (arith, low))))
          ∙ ap some (
              ap (λ m. m >>= λ t. plain_from d t (left next)) (chunk_reads from out h)
              ∙ sym (plain_from-split d out _ (left next))
              ∙ ap (plain_from d out) (sym (left_split from h ne)))
    ]

    -- With a provider that answers in order up to the end of the range, a scan of it in chunks of
    -- any size returns what `AccumulateV2Logs` returns on all logs of the range: the same events,
    -- or errors of one cause, which each of the two wraps with the positions that it knows.
    pub scan_v2_events-whole :
        scan.from_block ≤ scan.to_block
        → causes (scan_v2_events d (some provider) scan (scan.to_block + 1 - scan.from_block))
          ≡ some (
              caused (
                accumulate_v2_logs d
                  (logs_between logs_of scan.from_block (scan.to_block + 1 - scan.from_block))))
    unfolding scan_v2_events scan_log_chunks
    scan_v2_events-whole h =
        let fine : ltb scan.to_block scan.from_block ≡ false = ground arith in
        rw fine (
          loop_lem (scan.to_block + 1 - scan.from_block) scan.from_block empty_events h
            (omega arith)
          ∙ ap some (
              sym (
                caused-accumulate_v2_logs
                  (logs_between logs_of scan.from_block (scan.to_block + 1 - scan.from_block)))))
