-- ===== src/Common/Errors.antt =====
-- Go's `(value, error)` results. The errors are told apart by their message, one constructor
-- each; one that is wrapped with `%w` has a constructor around it.
use mathlib.Core.Path.{◌≡◌, refl}
use mathlib.Core.Bool.{Bool, true, false}
use mathlib.Core.Option.{Option, none, some}
use Prim.Native.Nat.{ℕ}
use mathlib.Core.Logic.{◌⊎◌, inl, inr}

-- The kinds of logs that an accumulator names in its errors.
pub data LogKind : Type 0 where
  shield_log transact_log unshield_log nullified_log : LogKind

pub data Error : Type 0 where
  cancelled store_required empty_hex invalid_hex invalid_decimal nil_bigint negative_bigint : Error
  byte_length_not_positive index_exceeds_tree leaf_hash_required missing_leaf : Error
  negative_tree_or_index hash_arity : Error
  chain_type_exceeds_uint8 chain_id_exceeds_uint56 chain_id_negative : Error
  network_id_length v3_not_supported : Error
  provider_required block_range checkpoint_key_required handler_failed provider_failed : Error
  primary_value_required balance_too_low negative_change no_solutions : Error
  position_overflow value_required list_entry_required decode_failed nil_pointer wallet_required
        checkpoints_required manager_required txid_version_required nullifier_required missing_txo
        node_required too_many_commitments path_required read_failed event_key_required
        state_not_reorg txid_store_not_reorg txid_merkle_tree_not_reorg utxo_merkle_tree_not_reorg
        spent_poi_events_not_reorg hash_required proof_leaf_differs :
      Error
  -- "v2 shield log[%d]: %w" and the like, "filter logs %d-%d: %w", "handle logs %d-%d: %w"
  at_log : LogKind → ℕ → Error → Error
  filtering handling : ℕ → ℕ → Error → Error
  -- "leaves[%d]: %w"
  at_leaf : ℕ → Error → Error
  -- "commitment hash: %w", "utxo merkle leaf hash: %w" and "txid merkle leaf hash: %w",
  -- "txo commitment hash: %w", "utxo proof leaf: %w"
  in_commitment_hash in_leaf_hash in_txo_hash in_proof_leaf : Error → Error

-- `errors.Unwrap` as far as it goes.
abbrev pub cause : Error → Error
cause (at_log kind i e) = cause e
cause (filtering from to e) = cause e
cause (handling from to e) = cause e
cause (at_leaf i e) = cause e
cause (in_commitment_hash e) = cause e
cause (in_leaf_hash e) = cause e
cause (in_txo_hash e) = cause e
cause (in_proof_leaf e) = cause e
cause e = e

pub data Result {ℓ} (V : Type ℓ) : Type ℓ where
  err : Error → Result V
  ok : V → Result V

infixl 5 ◌>>=◌ ◌>>◌
-- The early return on `err != nil`.
abbrev pub ◌>>=◌ {ℓ κ} : {V : Type ℓ} {W : Type κ} → Result V → (V → Result W) → Result W
err failure >>= next = err failure
ok value >>= next = next value

-- The same for a call that returns an error only.
abbrev pub ◌>>◌ {ℓ} : {W : Type ℓ} → Result (Unit {0}) → Result W → Result W
check >> rest = check >>= λ done. rest

-- `if !test { return failure }`
abbrev pub guard : Bool → Error → Result (Unit {0})
guard false failure = err failure
guard true failure = ok tt

-- `if err != nil { return fmt.Errorf("...: %w", err) }`
abbrev pub wrap {ℓ} : {V : Type ℓ} → (Error → Error) → Result V → Result V
wrap wrapper (err failure) = err (wrapper failure)
wrap wrapper (ok value) = ok value

-- The result without what was wrapped around its error.
abbrev pub caused {ℓ} : {V : Type ℓ} → Result V → Result V
caused (err failure) = err (cause failure)
caused (ok value) = ok value

-- A `context.Context`: the error that `ctx.Err()` returns, if any.
abbrev pub Context : Type 0
Context = Option Error

abbrev pub live : Context → Result (Unit {0})
live none = ok tt
live (some e) = err e

-- A pointer receiver that the method checks for nil.
abbrev pub required {ℓ} : {A : Type ℓ} → Option A → Error → Result A
required none e = err e
required (some a) e = ok a

-- Inversion of a successful bind.
pub >>=-eq-ok {ℓ κ} :
    {V : Type ℓ} {W : Type κ} (first : Result V) (next : V → Result W) {last : W}
    → (first >>= next) ≡ ok last
    → (value : V) × (first ≡ ok value) × (next value ≡ ok last)
>>=-eq-ok (err failure) next e = cc
>>=-eq-ok (ok value) next e = (value, refl, e)

pub Result-cases {ℓ} :
    {A : Type ℓ} (m : Result A) → ((e : Error) × (m ≡ err e)) ⊎ ((a : A) × (m ≡ ok a))
Result-cases (ok a) = inr (a, refl)
Result-cases (err e) = inl (e, refl)

pub required-eq-ok {ℓ} :
    {A : Type ℓ} (o : Option A) (e : Error) {a : A} → required o e ≡ ok a → o ≡ some a
required-eq-ok none e h = cc
required-eq-ok (some a) e h = cc

pub caused-wrap {ℓ} :
    {V : Type ℓ} (wrapper : Error → Error) (m : Result V)
    → ((e : Error) → cause (wrapper e) ≡ cause e)
    → caused (wrap wrapper m) ≡ caused m
caused-wrap wrapper (ok v) h = refl
caused-wrap wrapper (err e) h = rw (h e) refl

pub wrap-ok {ℓ} :
    {V : Type ℓ} (wrapper : Error → Error) (m : Result V) {v : V} → wrap wrapper m ≡ ok v → m ≡ ok v
wrap-ok wrapper (ok v) h = h
wrap-ok wrapper (err e) h = cc

pub caused->>= {ℓ κ} :
    {V : Type ℓ} {W : Type κ} (m : Result V) (f : V → Result W)
    → caused (m >>= f) ≡ (caused m >>= λ v. caused (f v))
caused->>= (ok v) f = refl
caused->>= (err e) f = refl

pub caused-ok {ℓ} : {V : Type ℓ} (m : Result V) {v : V} → caused m ≡ ok v → m ≡ ok v
caused-ok (ok v) h = h
caused-ok (err e) h = cc
