-- ===== src/Broadcaster/Search.antt =====
-- pkg/broadcaster/search.go: the choice of a broadcaster. The order of a reliability is a parameter,
-- and so is the random index.
pub mod Sorted
pub mod Best
mod Tests
use railgun_go.Common.{
  ℕ, zero, suc, ◌+◌, ltb, leb, ◌==◌, if◌then◌else◌, Bool, true, false, ◌&&◌, ◌||◌, not, Option,
  none, some, List, [], ◌∷◌, ◌++◌, Text, is_blank, text_eq, length, get_elem?,
}
use railgun_go.Common.Int.{ℤ, pos, negsuc, ltb_ℤ, eq_ℤ, mul_ℕ, div_ℤ, add_ℤ, negate}
use railgun_go.Common.TextMap.{TextMap, find}
use railgun_go.Chain.{Chain}
use railgun_go.Crypto.Bytes.{set_string, trim_prefix}
use railgun_go.Broadcaster.{AddressFilter, filter_addresses, lower}
use railgun_go.Broadcaster.Fees.{
  CachedTokenFee, FeeCache, Config, cached_fee_expired, fees_for_token, fees_for_chain,
  get_authorized_fee, or_empty_map,
}

pub record SelectedBroadcaster (F : Type 0) : Type 0 where
  pub railgun_address : Text
  pub token_address : Text
  pub token_fee : CachedTokenFee F

abbrev pub plain : Text → Text
plain address = lower (trim_prefix b'0' b'X' (trim_prefix b'0' b'x' address))

unfoldable pub in_history : List Text → Text → Bool
in_history [] want = false
in_history (address ∷ history) want = text_eq (plain address) want || in_history history want

unfoldable pub relay_adapt_allowed : List Text → Text → Bool
relay_adapt_allowed history relay_adapt =
    if is_blank relay_adapt then false else in_history history (plain relay_adapt)

-- One round of the outer loop of the sorts: the element that comes to stand first, and the others.
unfoldable pub settle {ℓ} : {A : Type ℓ} → (A → A → Bool) → A → List A → A × List A
settle less x [] = (x, [])
settle less x (y ∷ ys) =
    let swap = less y x in
    let (first, rest) = settle less (if swap then y else x) ys in
    (first, (if swap then x else y) ∷ rest)

-- The rounds, as many as there are elements.
unfoldable pub exchange {ℓ} : {A : Type ℓ} → (A → A → Bool) → ℕ → List A → List A
exchange less zero xs = xs
exchange less (suc n) [] = []
exchange less (suc n) (x ∷ xs) =
    let (first, rest) = settle less x xs in first ∷ exchange less n rest

abbrev pub exchange_sort {ℓ} : {A : Type ℓ} → (A → A → Bool) → List A → List A
exchange_sort less xs = exchange less (length xs) xs

abbrev pub amount_or_zero : Option ℤ → ℤ
amount_or_zero none = pos 0
amount_or_zero (some n) = n

-- The bounds of a fee, if there are any.
abbrev pub Bounds : Type 0
Bounds = Option (ℤ × ℤ)

abbrev pub within : Bounds → Option ℤ → Bool
within none amount = true
within (some bounds) none = false
within (some (low, high)) (some amount) = not (ltb_ℤ amount low || ltb_ℤ high amount)

abbrev pub bounds_around : Config → Option ℤ → Bounds
bounds_around cfg none = none
bounds_around cfg (some amount) = some (
  add_ℤ amount (negate (div_ℤ (mul_ℕ amount cfg.authorized_fee_lower_percent) 100)),
  add_ℤ amount (div_ℤ (mul_ℕ amount cfg.authorized_fee_upper_percent) 100),
)

abbrev pub no_signer : List Text → Bool
no_signer [] = true
no_signer (signer ∷ signers) = false

abbrev pub tokens_of : {V : Type 0} → TextMap V → List Text
tokens_of [] = []
tokens_of ((token, value) ∷ entries) = token ∷ tokens_of entries

abbrev pub at_threshold : ℤ → Option ℤ → Bool
at_threshold threshold none = false
at_threshold threshold (some amount) = not (ltb_ℤ threshold amount)

abbrev pub percentage_or_default : ℤ → ℕ
percentage_or_default (pos zero) = 5
percentage_or_default (pos (suc n)) = suc n
percentage_or_default (negsuc n) = 5

module _ {F : Type 0} where
  -- The amount of a quote in the sorts.
  unfoldable pub amount_of : SelectedBroadcaster F → ℤ
  amount_of item = amount_or_zero (set_string 10 item.token_fee.fee_per_unit_gas)

  -- No bounds, bounds, or no authorized fee though it is wanted.
  unfoldable pub fee_bounds : Config → Option (CachedTokenFee F) → Bool → Option Bounds
  fee_bounds cfg authorized ignore_missing =
      if no_signer cfg.trusted_fee_signer then some none else elim authorized [
        | none ↦ if ignore_missing then some none else none
        | some fee ↦ some (bounds_around cfg (set_string 10 fee.fee_per_unit_gas))
      ]

  abbrev pub addresses_of : TextMap (TextMap (CachedTokenFee F)) → List Text
  addresses_of [] = []
  addresses_of ((address, fees) ∷ more) = address ∷ addresses_of more

  module _ (above : F → F → Bool) (network_key : Chain → Text) where
    abbrev pub more_reliable : SelectedBroadcaster F → SelectedBroadcaster F → Bool
    more_reliable a b = above a.token_fee.reliability b.token_fee.reliability

    unfoldable pub sort_by_reliability_desc :
        List (SelectedBroadcaster F) → List (SelectedBroadcaster F)
    sort_by_reliability_desc items = exchange_sort more_reliable items

    abbrev pub cheaper : SelectedBroadcaster F → SelectedBroadcaster F → Bool
    cheaper a b =
        ltb_ℤ (amount_of a) (amount_of b)
        || (not (ltb_ℤ (amount_of b) (amount_of a)) && more_reliable a b)

    unfoldable pub sort_by_ascending_fee :
        List (SelectedBroadcaster F) → List (SelectedBroadcaster F)
    sort_by_ascending_fee items = exchange_sort cheaper items

    unfoldable pub cached_fee_unavailable_or_expired :
        CachedTokenFee F → Chain → Bool → Config → ℕ → Bool
    cached_fee_unavailable_or_expired fee chain use_relay_adapt cfg now =
        if use_relay_adapt
          && not (relay_adapt_allowed (cfg.relay_adapt_history (network_key chain)) fee.relay_adapt)
        then true
        else if eq_ℤ fee.available_wallets (pos 0)
        then true
        else cached_fee_expired fee.expiration now

    module _ (cfg : Config) (chain : Chain) (token_address : Text) (use_relay_adapt : Bool)
        (now : ℕ) where
      unfoldable pub is_taken : Bounds → CachedTokenFee F → Bool
      is_taken bounds fee =
          not (cached_fee_unavailable_or_expired fee chain use_relay_adapt cfg now)
          && within bounds (set_string 10 fee.fee_per_unit_gas)

      unfoldable pub quotes_of :
          Bounds → Text → TextMap (CachedTokenFee F) → List (SelectedBroadcaster F)
      quotes_of bounds address [] = []
      quotes_of bounds address ((identifier, fee) ∷ fees) =
          let rest = quotes_of bounds address fees in
          if is_taken bounds fee
          then record { railgun_address = address; token_address = token_address; token_fee = fee }
            ∷ rest
          else rest

      unfoldable pub all_quotes :
          Bounds → TextMap (TextMap (CachedTokenFee F)) → List Text → List (SelectedBroadcaster F)
      all_quotes bounds by_broadcaster [] = []
      all_quotes bounds by_broadcaster (address ∷ addresses) =
          quotes_of bounds address (or_empty_map (find address by_broadcaster))
          ++ all_quotes bounds by_broadcaster addresses

      abbrev pub selected :
          Option Bounds
          → TextMap (TextMap (CachedTokenFee F))
          → List Text
          → List (SelectedBroadcaster F)
      selected none by_broadcaster addresses = []
      selected (some bounds) by_broadcaster addresses =
          sort_by_reliability_desc (all_quotes bounds by_broadcaster addresses)

      -- A nil list and an empty one are alike.
      unfoldable pub find_broadcasters_for_token :
          FeeCache F → AddressFilter → Bool → List (SelectedBroadcaster F)
      find_broadcasters_for_token cache filter ignore_missing =
          elim (fees_for_token network_key cache chain (lower token_address)) [
            | none ↦ []
            | some by_broadcaster ↦
                selected
                  (fee_bounds cfg (get_authorized_fee cache (lower token_address)) ignore_missing)
                  by_broadcaster (filter_addresses filter (addresses_of by_broadcaster))
          ]

      abbrev pub first_of : List (SelectedBroadcaster F) → Option (SelectedBroadcaster F)
      first_of [] = none
      first_of (item ∷ items) = some item

      unfoldable pub find_best_broadcaster :
          FeeCache F → AddressFilter → Option (SelectedBroadcaster F)
      find_best_broadcaster cache filter =
          first_of (sort_by_ascending_fee (find_broadcasters_for_token cache filter false))

      unfoldable pub supports_token : FeeCache F → AddressFilter → Bool
      supports_token cache filter = ltb 0 (length (find_broadcasters_for_token cache filter false))

      -- The quotes at a threshold or below.
      unfoldable pub eligible : ℤ → List (SelectedBroadcaster F) → List (SelectedBroadcaster F)
      eligible threshold [] = []
      eligible threshold (item ∷ items) =
          let rest = eligible threshold items in
          if at_threshold threshold (set_string 10 item.token_fee.fee_per_unit_gas)
          then item ∷ rest
          else rest

      -- `rand.Intn` of the number of quotes, if there are any.
      abbrev pub pick : (ℕ → ℕ) → List (SelectedBroadcaster F) → Option (SelectedBroadcaster F)
      pick random items = get_elem? items (random (length items))

      abbrev pub near_cheapest :
          (ℕ → ℕ) → ℕ → List (SelectedBroadcaster F) → Option (SelectedBroadcaster F)
      near_cheapest random percentage [] = none
      near_cheapest random percentage (item ∷ items) =
          elim (set_string 10 item.token_fee.fee_per_unit_gas) [
            | none ↦ none
            | some low ↦
                pick random (eligible (div_ℤ (mul_ℕ low (100 + percentage)) 100) (item ∷ items))
          ]

      unfoldable pub find_random_broadcaster_for_token :
          (ℕ → ℕ) → ℤ → FeeCache F → AddressFilter → Option (SelectedBroadcaster F)
      find_random_broadcaster_for_token random percentage cache filter =
          near_cheapest random (percentage_or_default percentage)
            (sort_by_ascending_fee (find_broadcasters_for_token cache filter false))

    unfoldable pub quotes_for_tokens :
        Config
        → Chain
        → Bool
        → ℕ
        → FeeCache F
        → AddressFilter
        → List Text
        → List (SelectedBroadcaster F)
    quotes_for_tokens cfg chain use_relay_adapt now cache filter [] = []
    quotes_for_tokens cfg chain use_relay_adapt now cache filter (token ∷ tokens) =
        find_broadcasters_for_token cfg chain token use_relay_adapt now cache filter false
        ++ quotes_for_tokens cfg chain use_relay_adapt now cache filter tokens

    unfoldable pub find_all_broadcasters_for_chain :
        Config → Chain → Bool → ℕ → FeeCache F → AddressFilter → List (SelectedBroadcaster F)
    find_all_broadcasters_for_chain cfg chain use_relay_adapt now cache filter =
        elim (fees_for_chain network_key cache chain) [
          | none ↦ []
          | some fees ↦
              sort_by_ascending_fee
                (quotes_for_tokens cfg chain use_relay_adapt now cache filter (tokens_of fees))
        ]
