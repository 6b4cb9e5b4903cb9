-- ===== src/Events/Scanner.antt =====
-- pkg/events/scanner.go: a scan of the blocks from `from_block` to `to_block` in chunks. Block
-- numbers are uint64. The loop runs on fuel, one unit for each chunk; `none` means that it ran out.
pub mod Bounds
pub mod Whole
use railgun_go.Common.{
  ℕ, zero, suc, ◌+◌, ◌-◌, ◌%◌, ◌^◌, ltb, ◌==◌, ◌||◌, if◌then◌else◌, Bool, Option, none, some, List,
  [], ◌∷◌, Text, length, Result, ok, err, ◌>>=◌, ◌>>◌, Error, wrap, filtering, handling,
  block_range, provider_required,
}
use railgun_go.Events.{
  ContractLog, V2AccumulatedEvents, Decoders, empty_events, append_events, accumulate_v2_logs,
}

pub record LogFilter : Type 0 where
  pub addresses : List Text
  pub from_block : ℕ
  pub to_block : ℕ
  pub topics : List (List Text)

pub record ScanRange : Type 0 where
  pub addresses : List Text
  pub from_block : ℕ
  pub to_block : ℕ
  pub chunk_size : ℕ

pub record ScannedLogChunk : Type 0 where
  pub from_block : ℕ
  pub to_block : ℕ
  pub logs : ℕ

-- `LogProvider.FilterLogs`
abbrev pub Provider : Type 0
Provider = LogFilter → Result (List ContractLog)

abbrev pub u64 : ℕ
u64 = 2 ^ 64

-- The last block of the chunk that starts at `from`.
unfoldable pub chunk_end : ScanRange → ℕ → ℕ
chunk_end scan from =
    if ltb 0 scan.chunk_size
    then (let chunk_to = (from + scan.chunk_size - 1) % u64 in
        if ltb chunk_to from || ltb scan.to_block chunk_to then scan.to_block else chunk_to)
    else scan.to_block

abbrev pub filter_of : ScanRange → List (List Text) → ℕ → LogFilter
filter_of scan topics from = record {
  addresses = scan.addresses;
  from_block = from;
  to_block = chunk_end scan from;
  topics = topics;
}

-- An error ends the scan; otherwise it goes on.
abbrev pub go_on {ℓ} : {A : Type ℓ} → Result A → (A → Option (Result A)) → Option (Result A)
go_on (err e) k = some (err e)
go_on (ok a) k = k a

module _ {S : Type 0} (scan : ScanRange) (topics : List (List Text))
    (handle : S → List ContractLog → ScannedLogChunk → Result S) where
  -- One round: the logs of the chunk go to `handle`, which updates the state that it captures.
  unfoldable pub scan_chunk : Provider → ℕ → S → Result S
  scan_chunk provider from s = do
    logs ← wrap (filtering from (chunk_end scan from)) (provider (filter_of scan topics from))
    wrap (handling from (chunk_end scan from)) (
        handle s logs
          (record { from_block = from; to_block = chunk_end scan from; logs = length logs }))

  unfoldable pub scan_loop : Provider → ℕ → ℕ → S → Option (Result S)
  scan_loop provider zero from s = none
  scan_loop provider (suc fuel) from s =
      let rest = λ (t : S). scan_loop provider fuel ((chunk_end scan from + 1) % u64) t in
      let after = λ (t : S).
        let more = rest t in if chunk_end scan from == scan.to_block then some (ok t) else more in
      go_on (scan_chunk provider from s) after

  unfoldable pub scan_log_chunks : Option Provider → ℕ → S → Option (Result S)
  scan_log_chunks none fuel s = some (err provider_required)
  scan_log_chunks (some provider) fuel s =
      if ltb scan.to_block scan.from_block
      then some (err block_range)
      else scan_loop provider fuel scan.from_block s

module _ {C N U : Type 0} (d : Decoders C N U) where
  -- `v2FilterTopics`
  abbrev pub v2_filter_topics : List (List Text)
  v2_filter_topics =
      (d.shield_topic ∷ d.transact_topic ∷ d.unshield_topic ∷ d.nullified_topic ∷ []) ∷ []

  -- The two closures of `ScanV2Events` and `ScanV2EventChunks`: decode, then append.
  abbrev pub collect :
      V2AccumulatedEvents C N U
      → List ContractLog
      → ScannedLogChunk
      → Result (V2AccumulatedEvents C N U)
  collect out logs chunk = do events ← accumulate_v2_logs d logs; ok (append_events out events)

  unfoldable pub scan_v2_events :
      Option Provider → ScanRange → ℕ → Option (Result (V2AccumulatedEvents C N U))
  scan_v2_events provider scan fuel =
      scan_log_chunks scan v2_filter_topics collect provider fuel empty_events
