-- ===== src/Events/Accumulator.antt =====
-- pkg/events/accumulator.go: decoding in pieces is decoding in one go, but for
-- the indices that errors name.
use mathlib.Core.List.{append_assoc}
use railgun_go.Common.{
  ℕ, ◌+◌, ◌++◌, caused, caused->>=, ◌≡◌, refl, ap, sym, ◌∙◌, List, [], ◌∷◌, Result, ok, err, ◌>>=◌,
  arith,
}
use railgun_go.Events.{
  ContractLog, V2AccumulatedEvents, Decoders, append_events, accumulate_log, accumulate_from,
}

pub >>=_assoc {ℓ κ ι} :
    {A : Type ℓ} {B : Type κ} {C : Type ι} (m : Result A) (f : A → Result B) (g : B → Result C)
    → (m >>= f >>= g) ≡ (m >>= λ a. f a >>= g)
>>=_assoc (ok a) f g = refl
>>=_assoc (err e) f g = refl

pub >>=_cong {ℓ κ} :
    {A : Type ℓ} {B : Type κ} (m : Result A) (f g : A → Result B)
    → ((a : A) → f a ≡ g a)
    → (m >>= f) ≡ (m >>= g)
>>=_cong (ok a) f g h = h a
>>=_cong (err e) f g h = refl

module _ {C N U : Type 0} (d : Decoders C N U) where
  accumulate_log-caused :
      (out : V2AccumulatedEvents C N U) (i j : ℕ) (log : ContractLog)
      → caused (accumulate_log d out i log) ≡ caused (accumulate_log d out j log)
  unfolding accumulate_log
  accumulate_log-caused out i j log = ground arith

  accumulate_log-append :
      (out acc : V2AccumulatedEvents C N U) (i : ℕ) (log : ContractLog)
      → accumulate_log d (append_events out acc) i log
        ≡ (accumulate_log d acc i log >>= λ events. ok (append_events out events))
  unfolding accumulate_log append_events
  accumulate_log-append out acc i log = simp append_assoc (ground arith)

  -- The loop of `AccumulateV2Logs` without what it wraps around errors.
  pub plain_from : V2AccumulatedEvents C N U → List ContractLog → Result (V2AccumulatedEvents C N U)
  plain_from out [] = ok out
  plain_from out (log ∷ logs) = caused (accumulate_log d out 0 log) >>= λ out'. plain_from out' logs

  pub caused-accumulate_from :
      (out : V2AccumulatedEvents C N U) (i : ℕ) (logs : List ContractLog)
      → caused (accumulate_from d out i logs) ≡ plain_from out logs
  unfolding accumulate_from plain_from
  caused-accumulate_from out i [] = refl
  caused-accumulate_from out i (log ∷ logs) =
      caused->>= (accumulate_log d out i log) (λ out'. accumulate_from d out' (i + 1) logs)
      ∙ ap (λ m. m >>= λ out'. caused (accumulate_from d out' (i + 1) logs))
          (accumulate_log-caused out i 0 log)
      ∙ >>=_cong (caused (accumulate_log d out 0 log)) _ _
          (λ out'. caused-accumulate_from out' (i + 1) logs)

  plain_log-append :
      (out acc : V2AccumulatedEvents C N U) (log : ContractLog)
      → caused (accumulate_log d (append_events out acc) 0 log)
        ≡ (caused (accumulate_log d acc 0 log) >>= λ events. ok (append_events out events))
  plain_log-append out acc log =
      ap caused (accumulate_log-append out acc 0 log)
      ∙ caused->>= (accumulate_log d acc 0 log) (λ events. ok (append_events out events))

  pub plain_from-append :
      (out acc : V2AccumulatedEvents C N U) (logs : List ContractLog)
      → plain_from (append_events out acc) logs
        ≡ (plain_from acc logs >>= λ events. ok (append_events out events))
  unfolding plain_from
  plain_from-append out acc [] = refl
  plain_from-append out acc (log ∷ logs) =
      ap (λ m. m >>= λ out'. plain_from out' logs) (plain_log-append out acc log)
      ∙ >>=_assoc (caused (accumulate_log d acc 0 log)) (λ events. ok (append_events out events))
          (λ out'. plain_from out' logs)
      ∙ >>=_cong (caused (accumulate_log d acc 0 log))
          (λ acc'. plain_from (append_events out acc') logs) _
          (λ acc'. plain_from-append out acc' logs)
      ∙ sym (
          >>=_assoc (caused (accumulate_log d acc 0 log)) (λ acc'. plain_from acc' logs)
            (λ events. ok (append_events out events)))

  pub plain_from-split :
      (out : V2AccumulatedEvents C N U) (xs ys : List ContractLog)
      → plain_from out (xs ++ ys) ≡ (plain_from out xs >>= λ out'. plain_from out' ys)
  unfolding plain_from
  plain_from-split out [] ys = refl
  plain_from-split out (x ∷ xs) ys =
      >>=_cong (caused (accumulate_log d out 0 x)) _ _ (λ out'. plain_from-split out' xs ys)
      ∙ sym (
          >>=_assoc (caused (accumulate_log d out 0 x)) (λ out'. plain_from out' xs)
            (λ out'. plain_from out' ys))
