-- ===== src/Broadcaster/Fees.antt =====
-- pkg/broadcaster/fee_cache.go: the quotes of broadcasters. A reliability, which is a float64, is a
-- value of a parameter type; the key of a chain, which `fmt.Sprintf` makes, is a parameter, and so
-- is the time. The time in milliseconds is far below the bound of an int64.
use railgun_go.Common.{
  ℕ, ◌+◌, if◌then◌else◌, Bool, true, ◌&&◌, not, Option, none, some, List, [], ◌∷◌, Text, codes,
  is_blank, text_eq,
}
use railgun_go.Common.Int.{ℤ, pos, ltb_ℤ}
use railgun_go.Common.TextMap.{TextMap, find, put}
use railgun_go.Chain.{Chain}
use railgun_go.Broadcaster.{lower}
use railgun_go.Broadcaster.Version.{invalid_broadcaster_version}
use railgun_go.Poi.Manager.{contains_text}

pub record CachedTokenFee (F : Type 0) : Type 0 where
  pub fee_per_unit_gas : Text
  pub expiration : ℤ
  pub fees_id : Text
  pub available_wallets : ℤ
  pub relay_adapt : Text
  pub relay_adapt_7702 : Text
  pub reliability : F

-- token → broadcaster → identifier → fee
abbrev pub NetworkFees : Type 0 → Type 0
NetworkFees F = TextMap (TextMap (TextMap (CachedTokenFee F)))

pub record FeeCache (F : Type 0) : Type 0 where
  pub for_network : TextMap (NetworkFees F)
  pub authorized_fees : TextMap (TextMap (CachedTokenFee F))
  pub poi_active_list_keys : List Text
  pub last_subscribed_at : ℕ

-- `Config`, as far as fees go; the percentages are `int64(pct*100)`.
pub record Config : Type 0 where
  pub trusted_fee_signer : List Text
  pub minimum_broadcaster_version : Text
  pub maximum_broadcaster_version : Text
  pub authorized_fee_lower_percent : ℕ
  pub authorized_fee_upper_percent : ℕ
  pub relay_adapt_history : Text → List Text

unfoldable pub cached_fee_expired : ℤ → ℕ → Bool
cached_fee_expired expiration now = ltb_ℤ expiration (pos (now + 40000))

-- What a nil or missing map reads as.
abbrev pub or_empty_map {ℓ} : {V : Type ℓ} → Option (TextMap V) → TextMap V
or_empty_map none = []
or_empty_map (some entries) = entries

abbrev pub all_active : List Text → List Text → Bool
all_active active [] = true
all_active active (key ∷ keys) = contains_text active key && all_active active keys

abbrev pub or_default : Text → Text
or_default identifier = if is_blank identifier then codes "default" else identifier

abbrev pub without : {V : Type 0} → Text → TextMap V → TextMap V
without key [] = []
without key ((other, value) ∷ entries) =
    let rest = without key entries in if text_eq other key then rest else (other, value) ∷ rest

module _ {F : Type 0} where
  unfoldable pub touch_subscribed : ℕ → FeeCache F → FeeCache F
  touch_subscribed now cache = record cache { last_subscribed_at = now }

  -- A fee replaces one that expires earlier.
  abbrev pub put_later :
      Text → CachedTokenFee F → TextMap (CachedTokenFee F) → TextMap (CachedTokenFee F)
  put_later token fee fees = elim (find token fees) [
    | none ↦ put token fee fees
    | some existing ↦ if ltb_ℤ existing.expiration fee.expiration then put token fee fees else fees
  ]

  unfoldable pub put_authorized :
      TextMap (CachedTokenFee F) → TextMap (CachedTokenFee F) → TextMap (CachedTokenFee F)
  put_authorized [] fees = fees
  put_authorized ((token, fee) ∷ more) fees = put_authorized more (put_later (lower token) fee fees)

  unfoldable pub add_authorized_fees : Text → TextMap (CachedTokenFee F) → FeeCache F → FeeCache F
  add_authorized_fees signer token_fees cache = record cache {
    authorized_fees =
        put (lower signer)
          (put_authorized token_fees (or_empty_map (find (lower signer) cache.authorized_fees)))
          cache.authorized_fees;
  }

  -- The later of the best fee so far and a fee.
  abbrev pub better :
      Option (CachedTokenFee F) → Option (CachedTokenFee F) → Option (CachedTokenFee F)
  better best none = best
  better none (some fee) = some fee
  better (some best) (some fee) =
      if ltb_ℤ best.expiration fee.expiration then some fee else some best

  unfoldable pub best_authorized :
      Text
      → Option (CachedTokenFee F)
      → TextMap (TextMap (CachedTokenFee F))
      → Option (CachedTokenFee F)
  best_authorized token best [] = best
  best_authorized token best ((signer, fees) ∷ more) =
      best_authorized token (better best (find token fees)) more

  unfoldable pub get_authorized_fee : FeeCache F → Text → Option (CachedTokenFee F)
  get_authorized_fee cache token = best_authorized (lower token) none cache.authorized_fees

  unfoldable pub put_token_fees :
      Text → Text → TextMap (CachedTokenFee F) → NetworkFees F → NetworkFees F
  put_token_fees address identifier [] network = network
  put_token_fees address identifier ((token, fee) ∷ more) network =
      let by_broadcaster = or_empty_map (find (lower token) network) in
      let by_identifier = or_empty_map (find address by_broadcaster) in
      put_token_fees address identifier more
        (put (lower token) (put address (put identifier fee by_identifier) by_broadcaster) network)

  module _ (network_key : Chain → Text) where
    unfoldable pub reset : Chain → FeeCache F → FeeCache F
    reset chain cache = record cache { for_network = without (network_key chain) cache.for_network }

    unfoldable pub add_token_fees :
        ℕ
        → Chain
        → Text
        → ℤ
        → TextMap (CachedTokenFee F)
        → Text
        → Text
        → List Text
        → Config
        → FeeCache F
        → FeeCache F
    add_token_fees now chain address expiration token_fees identifier version required_keys cfg
          cache =
        if not (all_active cache.poi_active_list_keys required_keys)
        then cache
        else if invalid_broadcaster_version version cfg.minimum_broadcaster_version
            cfg.maximum_broadcaster_version
        then cache
        else if cached_fee_expired expiration now
        then cache
        else record cache {
          for_network =
              put (network_key chain)
                (put_token_fees address (or_default identifier) token_fees
                  (or_empty_map (find (network_key chain) cache.for_network)))
                cache.for_network;
          last_subscribed_at = now;
        }

    unfoldable pub fees_for_chain : FeeCache F → Chain → Option (NetworkFees F)
    fees_for_chain cache chain = find (network_key chain) cache.for_network

    unfoldable pub fees_for_token :
        FeeCache F → Chain → Text → Option (TextMap (TextMap (CachedTokenFee F)))
    fees_for_token cache chain token = elim (find (network_key chain) cache.for_network) [
      | none ↦ none
      | some network ↦ find (lower token) network
    ]
