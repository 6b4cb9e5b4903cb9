-- ===== src/Events/Scanner/Bounds.antt =====
-- pkg/events/scanner.go: the chunks of a scan, and the rounds that it takes.
use railgun_go.Common.{
  ℕ, zero, suc, ◌+◌, ◌-◌, ◌%◌, ◌^◌, ◌<◌, ◌≤◌, ◌≡◌, ◌≢◌, ◌⊎◌, provider_required, block_range, refl,
  ltb, ◌==◌, Bool-cases, inl, inr, Option, none, some, List, Text, Result, ok, err, arith,
}
use railgun_go.Events.{ContractLog}
use railgun_go.Events.Scanner.{
  ScanRange, ScannedLogChunk, Provider, u64, chunk_end, scan_chunk, scan_loop, scan_log_chunks,
  go_on,
}

-- What uint64 gives: every number is below 2^64.
pub record InRange (scan : ScanRange) : Type 0 where
  pub to : scan.to_block < 2 ^ 64
  pub size : scan.chunk_size < 2 ^ 64

-- A chunk starts and ends within the range and is no longer than the chunk size; where it stops
-- short of the end it is exactly that long. The sum that wraps does not matter.
pub chunk_end_bounds :
    (scan : ScanRange) (from : ℕ)
    → InRange scan
    → from ≤ scan.to_block
    → (from ≤ chunk_end scan from)
      × (chunk_end scan from ≤ scan.to_block)
      × ((chunk_end scan from ≡ scan.to_block) ⊎ (chunk_end scan from + 1 ≡ from + scan.chunk_size))
      × ((scan.chunk_size ≡ 0) ⊎ (chunk_end scan from < from + scan.chunk_size))
unfolding chunk_end
chunk_end_bounds scan from r h = ground arith

-- The next chunk starts one block further, without wrapping.
pub next_chunk :
    (scan : ScanRange) (from : ℕ)
    → InRange scan
    → from ≤ scan.to_block
    → chunk_end scan from ≢ scan.to_block
    → ((chunk_end scan from + 1) % u64 ≡ chunk_end scan from + 1)
      × (chunk_end scan from + 1 ≤ scan.to_block)
next_chunk scan from r h ne = omega (arith, chunk_end_bounds scan from r h)

go_on-total :
    {S : Type 0} (first : Result S) (k : S → Option (Result S))
    → ((t : S) → (result : Result S) × (k t ≡ some result))
    → (result : Result S) × (go_on first k ≡ some result)
go_on-total (ok t) k total = total t
go_on-total (err e) k total = (err e, refl)

module _ {S : Type 0} (scan : ScanRange) (topics : List (List Text))
    (handle : S → List ContractLog → ScannedLogChunk → Result S) where
  scan_loop-total :
      (provider : Provider) (fuel from : ℕ) (s : S)
      → InRange scan
      → from ≤ scan.to_block
      → scan.to_block - from < fuel
      → (result : Result S) × (scan_loop scan topics handle provider fuel from s ≡ some result)
  unfolding scan_loop
  scan_loop-total provider zero from s r h l = absurd (omega arith)
  scan_loop-total provider (suc fuel) from s r h l =
      go_on-total (scan_chunk scan topics handle provider from s) _ (λ t.
        elim (Bool-cases (chunk_end scan from == scan.to_block)) [
          | inl last ↦ (ok t, rw last)
          | inr more ↦
              let ne : chunk_end scan from ≢ scan.to_block = ground arith in
              let (small, inside) = next_chunk scan from r h ne in
              let low = (chunk_end_bounds scan from r h).0 in
              let (result, e) =
                scan_loop-total provider fuel ((chunk_end scan from + 1) % u64) t r
                  (omega (arith, small, inside)) (omega (arith, small, low)) in
              (result, rw more e)
        ])

  -- With one unit of fuel for each block of the range every scan ends, whatever the provider and
  -- the handler return.
  pub scan_log_chunks-total :
      (provider : Option Provider) (s : S)
      → InRange scan
      → (result : Result S) × (scan_log_chunks scan topics handle provider
            (scan.to_block + 1 - scan.from_block)
            s
          ≡ some result)
  unfolding scan_log_chunks
  scan_log_chunks-total none s r = (err provider_required, refl)
  scan_log_chunks-total (some provider) s r =
      elim (Bool-cases (ltb scan.to_block scan.from_block)) [
        | inl bad ↦ (err block_range, rw bad)
        | inr fine ↦
            let (result, e) =
              scan_loop-total provider (scan.to_block + 1 - scan.from_block) scan.from_block s r
                (ground arith) (ground arith) in
            (result, rw fine e)
      ]
