-- ===== src/Wallet/SpentEvents.antt =====
-- pkg/wallet/poi_event_store.go: `MemorySpentPOIEventStore`, the commitments and unshields that the
-- wallet sent and that need proofs, by a key of their fields; pkg/wallet/poi_submission.go: their
-- marking as submitted. Of a submission only its list key is read.
pub mod Marked
use railgun_go.Common.{
  ℕ, ltb, leb, not, ◌==◌, ◌&&◌, ◌||◌, if◌then◌else◌, Bool, false, Option, none, some, List, [], ◌∷◌,
  ◌++◌, Text, is_blank, text_eq, text_ltb, sort_by, Result, ok, err, ◌>>=◌, ◌>>◌, guard, Context,
  live, required, store_required, event_key_required,
}
use railgun_go.Common.Int.{ℤ}
use railgun_go.Common.TextMap.{TextMap, put, values_of, change_entries}
use railgun_go.Poi.Manager.{PoisPerList, status, status_valid, status_proof_submitted}

pub record SentEvent (T : Type 0) : Type 0 where
  pub txid : Text
  pub railgun_txid : Text
  pub timestamp : Option ℕ
  pub block_number : ℕ
  pub commitment_hash : Text
  pub blinded_commitment : Text
  pub token_hash : Text
  pub token_data : T
  pub value : Option ℕ
  pub output_type : Option ℤ
  pub wallet_source : Text
  pub memo_text : Text
  pub sender_address : Text
  pub recipient_address : Text
  pub pois : PoisPerList

pub record UnshieldEvent : Type 0 where
  pub txid : Text
  pub railgun_txid : Text
  pub block_number : ℕ
  pub commitment_hash : Text
  pub pois : PoisPerList

pub record SpentEvents (T : Type 0) : Type 0 where
  pub sent_commitments : TextMap (SentEvent T)
  pub unshield_events : TextMap UnshieldEvent

-- `out[listKey] = ProofSubmitted`, unless the list holds it valid.
unfoldable pub mark_list : (Text → Option Text) → Text → Text → Option Text
mark_list pois key other =
    if text_eq key other && not (is_blank key || text_eq (status (some pois) key) status_valid)
    then some status_proof_submitted
    else pois other

abbrev pub known_statuses : PoisPerList → Text → Option Text
known_statuses none key = none
known_statuses (some pois) key = pois key

unfoldable pub mark_lists : (Text → Option Text) → List Text → Text → Option Text
mark_lists pois [] = pois
mark_lists pois (key ∷ keys) = mark_lists (mark_list pois key) keys

unfoldable pub mark_pois_proof_submitted : PoisPerList → List Text → PoisPerList
mark_pois_proof_submitted pois list_keys = some (mark_lists (known_statuses pois) list_keys)

-- The list keys of submissions, those that are not empty.
unfoldable pub submitted_poi_list_keys : List Text → List Text
submitted_poi_list_keys [] = []
submitted_poi_list_keys (key ∷ submissions) =
    let rest = submitted_poi_list_keys submissions in if is_blank key then rest else key ∷ rest

abbrev pub lexical : List (Text × Text) → Bool
lexical [] = false
lexical ((a, b) ∷ rest) = let later = lexical rest in if text_eq a b then later else text_ltb a b

abbrev pub unshield_before : UnshieldEvent → UnshieldEvent → Bool
unshield_before a b =
    if not (a.block_number == b.block_number)
    then ltb a.block_number b.block_number
    else lexical (
        (a.txid, b.txid)
        ∷ (a.railgun_txid, b.railgun_txid)
        ∷ (a.commitment_hash, b.commitment_hash)
        ∷ [])

-- `fmt.Sprintf` of the fields: the decimal block number, then the others, a zero byte before each.
abbrev pub joined : Text → List Text → Text
joined s [] = s
joined s (field ∷ fields) = s ++ 0 ∷ joined field fields

unfoldable pub unshield_poi_event_key : (ℕ → Text) → UnshieldEvent → Result Text
unshield_poi_event_key decimal event = do
  guard
      (not (
        is_blank event.txid
        && is_blank event.railgun_txid
        && is_blank event.commitment_hash
        && event.block_number == 0))
      event_key_required
  ok (
      joined (decimal event.block_number)
        (event.txid ∷ event.railgun_txid ∷ event.commitment_hash ∷ []))

abbrev pub marked_unshield : List Text → UnshieldEvent → Option UnshieldEvent
marked_unshield keys event =
    some (record event { pois = mark_pois_proof_submitted event.pois keys })

abbrev pub kept_unshield : ℕ → UnshieldEvent → Option UnshieldEvent
kept_unshield from_block event = if leb from_block event.block_number then none else some event

abbrev pub mark_each_unshield : List Text → List UnshieldEvent → List UnshieldEvent
mark_each_unshield keys [] = []
mark_each_unshield keys (event ∷ events) =
    record event { pois = mark_pois_proof_submitted event.pois keys }
    ∷ mark_each_unshield keys events

module _ {T : Type 0} where
  abbrev pub sent_before : SentEvent T → SentEvent T → Bool
  sent_before a b =
      if not (a.block_number == b.block_number)
      then ltb a.block_number b.block_number
      else lexical (
          (a.txid, b.txid)
          ∷ (a.railgun_txid, b.railgun_txid)
          ∷ (a.commitment_hash, b.commitment_hash)
          ∷ (a.blinded_commitment, b.blinded_commitment)
          ∷ [])

  unfoldable pub sent_commitment_poi_event_key : (ℕ → Text) → SentEvent T → Result Text
  sent_commitment_poi_event_key decimal event = do
    guard
        (not (
          is_blank event.txid
          && is_blank event.railgun_txid
          && is_blank event.commitment_hash
          && is_blank event.blinded_commitment
          && event.block_number == 0))
        event_key_required
    ok (
        joined (decimal event.block_number)
          (event.txid ∷ event.railgun_txid ∷ event.commitment_hash ∷ event.blinded_commitment ∷ []))

  unfoldable pub upsert_sent_commitment_poi_event :
      (ℕ → Text) → Context → Option (SpentEvents T) → SentEvent T → Result (SpentEvents T)
  upsert_sent_commitment_poi_event decimal ctx store event = do
    live ctx
    events ← required store store_required
    key ← sent_commitment_poi_event_key decimal event
    ok (record events { sent_commitments = put key event events.sent_commitments })

  unfoldable pub upsert_unshield_poi_event :
      (ℕ → Text) → Context → Option (SpentEvents T) → UnshieldEvent → Result (SpentEvents T)
  upsert_unshield_poi_event decimal ctx store event = do
    live ctx
    events ← required store store_required
    key ← unshield_poi_event_key decimal event
    ok (record events { unshield_events = put key event events.unshield_events })

  unfoldable pub list_sent_commitment_poi_events :
      Context → Option (SpentEvents T) → Result (List (SentEvent T))
  list_sent_commitment_poi_events ctx store = do
    live ctx
    events ← required store store_required
    ok (sort_by sent_before (values_of events.sent_commitments))

  unfoldable pub list_unshield_poi_events :
      Context → Option (SpentEvents T) → Result (List UnshieldEvent)
  list_unshield_poi_events ctx store = do
    live ctx
    events ← required store store_required
    ok (sort_by unshield_before (values_of events.unshield_events))

  abbrev pub marked_sent : List Text → SentEvent T → Option (SentEvent T)
  marked_sent keys event = some (record event { pois = mark_pois_proof_submitted event.pois keys })

  unfoldable pub mark_proof_submitted :
      Context → Option (SpentEvents T) → List Text → Result (SpentEvents T)
  mark_proof_submitted ctx store submissions = do
    live ctx
    events ← required store store_required
    ok (record {
      sent_commitments =
          change_entries (marked_sent (submitted_poi_list_keys submissions))
            events.sent_commitments;
      unshield_events =
          change_entries (marked_unshield (submitted_poi_list_keys submissions))
            events.unshield_events;
    })

  abbrev pub kept_sent : ℕ → SentEvent T → Option (SentEvent T)
  kept_sent from_block event = if leb from_block event.block_number then none else some event

  unfoldable pub rollback_spent_events :
      Context → Option (SpentEvents T) → ℕ → Result (SpentEvents T)
  rollback_spent_events ctx store from_block = do
    live ctx
    events ← required store store_required
    ok (record {
      sent_commitments = change_entries (kept_sent from_block) events.sent_commitments;
      unshield_events = change_entries (kept_unshield from_block) events.unshield_events;
    })

  abbrev pub mark_each_sent : List Text → List (SentEvent T) → List (SentEvent T)
  mark_each_sent keys [] = []
  mark_each_sent keys (event ∷ events) =
      record event { pois = mark_pois_proof_submitted event.pois keys } ∷ mark_each_sent keys events

  unfoldable pub mark_spent_poi_proof_submitted :
      List (SentEvent T) → List UnshieldEvent → List Text → List (SentEvent T) × List UnshieldEvent
  mark_spent_poi_proof_submitted sent unshields keys =
      (mark_each_sent keys sent, mark_each_unshield keys unshields)

  unfoldable pub apply_submitted_pre_transaction_poi_statuses :
      List (SentEvent T) → List UnshieldEvent → List Text → List (SentEvent T) × List UnshieldEvent
  apply_submitted_pre_transaction_poi_statuses sent unshields submissions =
      mark_spent_poi_proof_submitted sent unshields (submitted_poi_list_keys submissions)
