-- ===== src/Broadcaster/Search/Best.antt =====
-- pkg/broadcaster/search.go: the quotes that are found, and the best of them.
use mathlib.Core.Path.{subst}
use railgun_go.Common.{
  ℕ, ◌+◌, ◌≡◌, refl, true, false, Bool, Bool-cases, Option-cases, inl, inr, Option, none, some,
  List, [], ◌∷◌, Text, All, All-append, arith,
}
use railgun_go.Common.Int.{ℤ, pos, negsuc, ltb_ℤ, eq_ℤ}
use railgun_go.Common.TextMap.{TextMap, find}
use railgun_go.Chain.{Chain}
use railgun_go.Crypto.Bytes.{set_string}
use railgun_go.Broadcaster.{AddressFilter, filter_addresses, passes, lower}
use railgun_go.Broadcaster.Fees.{
  CachedTokenFee, FeeCache, Config, cached_fee_expired, fees_for_token, or_empty_map,
}
use railgun_go.Broadcaster.Search.{
  SelectedBroadcaster, Bounds, amount_of, amount_or_zero, settle, exchange, cheaper, more_reliable,
  sort_by_ascending_fee, sort_by_reliability_desc, cached_fee_unavailable_or_expired, is_taken,
  quotes_of, all_quotes, selected, addresses_of, find_broadcasters_for_token, find_best_broadcaster,
  first_of,
}
use railgun_go.Broadcaster.Search.Sorted.{
  IsAtMost, Respects, settle-All, exchange-All, settle-IsLeast,
}

asym : (a b : ℤ) → ltb_ℤ a b ≡ true → ltb_ℤ b a ≡ false
asym (pos a) (pos b) h = ground (arith, h)
asym (pos a) (negsuc b) h = cc
asym (negsuc a) (pos b) h = refl
asym (negsuc a) (negsuc b) h = ground (arith, h)

module _ {F : Type 0} (above : F → F → Bool) (network_key : Chain → Text) where
  cheaper-Respects : Respects amount_of (cheaper above network_key)
  cheaper-Respects a b = elim (Bool-cases (ltb_ℤ (amount_of a) (amount_of b))) [
    | inl low ↦ ((λ h. asym (amount_of a) (amount_of b) low), (λ h. cc (rw low at h)))
    | inr high ↦ ((λ h. ground (arith, h, high)), (λ h. high))
  ]

  -- A quote that can be used: it has a wallet, lasts 40 seconds or more, and its address passes.
  abbrev pub IsQuote : ℕ → AddressFilter → SelectedBroadcaster F → Type 0
  IsQuote now filter item =
      (passes filter item.railgun_address ≡ true)
      × (eq_ℤ item.token_fee.available_wallets (pos 0) ≡ false)
      × (ltb_ℤ item.token_fee.expiration (pos (now + 40000)) ≡ false)

  -- What a quote asks for: a text that is no number counts as 0.
  abbrev pub asked : SelectedBroadcaster F → ℤ
  asked item = amount_or_zero (set_string 10 item.token_fee.fee_per_unit_gas)

  module _ (cfg : Config) (chain : Chain) (token_address : Text) (use_relay_adapt : Bool) (now : ℕ)
      (filter : AddressFilter) where
    is_taken-usable :
        (bounds : Bounds) (fee : CachedTokenFee F)
        → is_taken above network_key cfg chain token_address use_relay_adapt now bounds fee ≡ true
        → (eq_ℤ fee.available_wallets (pos 0) ≡ false)
          × (ltb_ℤ fee.expiration (pos (now + 40000)) ≡ false)
    unfolding is_taken cached_fee_expired cached_fee_unavailable_or_expired
    is_taken-usable bounds fee h = (ground (arith, h), ground (arith, h))

    quotes_of-All :
        (bounds : Bounds) (address : Text) (fees : TextMap (CachedTokenFee F))
        → passes filter address ≡ true
        → All (IsQuote now filter) (
            quotes_of above network_key cfg chain token_address use_relay_adapt now bounds address
              fees)
    unfolding quotes_of
    quotes_of-All bounds address [] through = tt
    quotes_of-All bounds address ((identifier, fee) ∷ fees) through =
        elim (Bool-cases
          (is_taken above network_key cfg chain token_address use_relay_adapt now bounds fee)) [
            | inl taken ↦
                let (wallets, fresh) = is_taken-usable bounds fee taken in
                rw taken ((through, wallets, fresh), quotes_of-All bounds address fees through)
            | inr left ↦ rw left (quotes_of-All bounds address fees through)
          ]

    all_quotes-All :
        (bounds : Bounds) (by_broadcaster : TextMap (TextMap (CachedTokenFee F)))
        (addresses : List Text)
        → All (λ address. passes filter address ≡ true) addresses
        → All (IsQuote now filter) (
            all_quotes above network_key cfg chain token_address use_relay_adapt now bounds
              by_broadcaster addresses)
    unfolding all_quotes
    all_quotes-All bounds by_broadcaster [] h = tt
    all_quotes-All bounds by_broadcaster (address ∷ addresses) h =
        All-append (IsQuote now filter) _ _
          (quotes_of-All bounds address (or_empty_map (find address by_broadcaster)) h.0)
          (all_quotes-All bounds by_broadcaster addresses h.1)

    filtered :
        (addresses : List Text)
        → All (λ address. passes filter address ≡ true) (filter_addresses filter addresses)
    unfolding filter_addresses
    filtered [] = tt
    filtered (address ∷ addresses) = elim (Bool-cases (passes filter address)) [
      | inl through ↦ rw through (through, filtered addresses)
      | inr out ↦ rw out (filtered addresses)
    ]

    selected-All :
        (bounds : Option Bounds) (by_broadcaster : TextMap (TextMap (CachedTokenFee F)))
        (addresses : List Text)
        → All (λ address. passes filter address ≡ true) addresses
        → All (IsQuote now filter) (
            selected above network_key cfg chain token_address use_relay_adapt now bounds
              by_broadcaster addresses)
    unfolding sort_by_reliability_desc
    selected-All none by_broadcaster addresses h = tt
    selected-All (some bounds) by_broadcaster addresses h =
        exchange-All (IsQuote now filter) (more_reliable above network_key) _ _
          (all_quotes-All bounds by_broadcaster addresses h)

    -- Every quote that `FindBroadcastersForToken` returns comes from an address that passes the
    -- filter, has a wallet, and does not expire within 40 seconds.
    pub find_broadcasters_for_token-All :
        (cache : FeeCache F) (ignore_missing : Bool)
        → All (IsQuote now filter) (
            find_broadcasters_for_token above network_key cfg chain token_address use_relay_adapt
              now cache filter ignore_missing)
    unfolding find_broadcasters_for_token
    find_broadcasters_for_token-All cache ignore_missing =
        elim (Option-cases (fees_for_token network_key cache chain (lower token_address))) [
          | inl nothing ↦ rw (All, nothing) tt
          | inr (by_broadcaster, found) ↦
              rw (All, found)
                (selected-All _ by_broadcaster _ (filtered (addresses_of by_broadcaster)))
        ]

    least_first :
        (items : List (SelectedBroadcaster F)) (best : SelectedBroadcaster F)
        → All (IsQuote now filter) items
        → first_of above network_key cfg chain token_address use_relay_adapt now
            (sort_by_ascending_fee above network_key items)
          ≡ some best
        → IsQuote now filter best × All (λ item. IsAtMost (amount_of best) (amount_of item)) items
    unfolding sort_by_ascending_fee exchange
    least_first [] best h e = cc
    least_first (x ∷ xs) best h e =
        let same : (settle (cheaper above network_key) x xs).0 ≡ best = cc e in
        subst
          (λ m.
            IsQuote now filter m × All (λ item. IsAtMost (amount_of m) (amount_of item)) (x ∷ xs))
          same
          (
            (settle-All (IsQuote now filter) (cheaper above network_key) x xs h.0 h.1).0,
            settle-IsLeast amount_of (cheaper above network_key) cheaper-Respects x xs,
          )

    -- A quote that `FindBestBroadcaster` returns comes from an address that passes the filter, has
    -- a wallet, does not expire within 40 seconds, and asks for no more per unit of gas than any
    -- quote that `FindBroadcastersForToken` returns, where a fee that is not a decimal number
    -- counts as 0.
    pub find_best_broadcaster-IsLeast :
        (cache : FeeCache F) (best : SelectedBroadcaster F)
        → find_best_broadcaster above network_key cfg chain token_address use_relay_adapt now cache
            filter
          ≡ some best
        → IsQuote now filter best
          × All
              (λ item. IsAtMost (asked best) (asked item))
              (find_broadcasters_for_token above network_key cfg chain token_address use_relay_adapt
                now cache filter false)
    unfolding find_best_broadcaster amount_of
    find_best_broadcaster-IsLeast cache best e =
        least_first _ best (find_broadcasters_for_token-All cache false) e
