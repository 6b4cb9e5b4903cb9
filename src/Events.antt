-- ===== src/Events.antt =====
-- pkg/events: decoding of V2 contract logs into events, and scans of a range of blocks. The ABI
-- decoders of single logs and the topics are a parameter, `Decoders`; the log provider is another.
pub mod Scanner
pub mod Checkpoint
pub mod Accumulator
mod Tests
use railgun_go.Common.{
  is_blank, ℕ, if◌then◌else◌, Bool, true, false, List, [], ◌∷◌, ◌++◌, map, Text, text_eq, Result,
  ok, err, ◌>>=◌, ◌+◌, wrap, at_log, shield_log, transact_log, unshield_log, nullified_log,
}
use railgun_go.Crypto.Bytes.{to_lower}

pub record ContractLog : Type 0 where
  pub topics : List Text
  pub bytes : Text
  pub transaction_hash : Text
  pub block_number : ℕ
  pub index : ℕ

module _ (C N U : Type 0) where
  pub record V2AccumulatedEvents : Type 0 where
    pub commitment_events : List C
    pub nullifier_events : List N
    pub unshield_events : List U

  -- The topics of the four events, and the decoders of their logs.
  pub record Decoders : Type 0 where
    pub shield_topic : Text
    pub transact_topic : Text
    pub unshield_topic : Text
    pub nullified_topic : Text
    pub parse_shield : ContractLog → Result C
    pub parse_transact : ContractLog → Result C
    pub parse_unshield : ContractLog → Result U
    pub parse_nullified : ContractLog → Result (List N)

-- `strings.EqualFold` of ASCII text
unfoldable pub equal_fold : Text → Text → Bool
unfolding to_lower
equal_fold a b = text_eq (map to_lower a) (map to_lower b)

unfoldable pub first_topic : ContractLog → Text
first_topic log = elim log.topics [ [] ↦ [] | topic ∷ topics ↦ topic ]

module _ {C N U : Type 0} where
  unfoldable pub empty_events : V2AccumulatedEvents C N U
  empty_events = record { commitment_events = []; nullifier_events = []; unshield_events = [] }

  -- `appendV2AccumulatedEvents`
  unfoldable pub append_events :
      V2AccumulatedEvents C N U → V2AccumulatedEvents C N U → V2AccumulatedEvents C N U
  append_events dst src = record {
    commitment_events = dst.commitment_events ++ src.commitment_events;
    nullifier_events = dst.nullifier_events ++ src.nullifier_events;
    unshield_events = dst.unshield_events ++ src.unshield_events;
  }

  module _ (d : Decoders C N U) where
    -- One round of the loop of `AccumulateV2Logs`, on the log at the index `i`.
    unfoldable pub accumulate_log :
        V2AccumulatedEvents C N U → ℕ → ContractLog → Result (V2AccumulatedEvents C N U)
    accumulate_log out i log =
        let topic = first_topic log in
        if is_blank topic
        then ok out
        else if equal_fold topic d.shield_topic
        then (do
          event ← wrap (at_log shield_log i) (d.parse_shield log)
          ok (record out { commitment_events = out.commitment_events ++ event ∷ [] }))
        else if equal_fold topic d.transact_topic
        then (do
          event ← wrap (at_log transact_log i) (d.parse_transact log)
          ok (record out { commitment_events = out.commitment_events ++ event ∷ [] }))
        else if equal_fold topic d.unshield_topic
        then (do
          event ← wrap (at_log unshield_log i) (d.parse_unshield log)
          ok (record out { unshield_events = out.unshield_events ++ event ∷ [] }))
        else if equal_fold topic d.nullified_topic
        then (do
          events ← wrap (at_log nullified_log i) (d.parse_nullified log)
          ok (record out { nullifier_events = out.nullifier_events ++ events }))
        else ok out

    unfoldable pub accumulate_from :
        V2AccumulatedEvents C N U → ℕ → List ContractLog → Result (V2AccumulatedEvents C N U)
    accumulate_from out i [] = ok out
    accumulate_from out i (log ∷ logs) = do
      out' ← accumulate_log out i log
      accumulate_from out' (i + 1) logs

    unfoldable pub accumulate_v2_logs : List ContractLog → Result (V2AccumulatedEvents C N U)
    unfolding empty_events
    accumulate_v2_logs logs = accumulate_from empty_events 0 logs
