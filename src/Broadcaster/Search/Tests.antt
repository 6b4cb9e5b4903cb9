-- ===== src/Broadcaster/Search/Tests.antt =====
-- The search for a broadcaster at a concrete input. A reliability is a number here.
use railgun_go.Common.{ℕ, Bool, ltb, ◌≡◌, refl, false, some, [], ◌∷◌, Text, codes, text_eq, All}
use railgun_go.Common.Int.{pos}
use railgun_go.Common.TextMap.{find}
use railgun_go.Chain.{Chain}
use railgun_go.Crypto.Bytes.{to_lower, set_string}
use railgun_go.Broadcaster.{AddressFilter, filter_addresses, passes, is_listed}
use railgun_go.Broadcaster.Fees.{
  CachedTokenFee, FeeCache, Config, fees_for_token, cached_fee_expired,
}
use railgun_go.Broadcaster.Search.{
  SelectedBroadcaster, settle, exchange, amount_of, find_broadcasters_for_token,
  find_best_broadcaster, all_quotes, quotes_of, is_taken, fee_bounds,
  cached_fee_unavailable_or_expired, sort_by_ascending_fee, sort_by_reliability_desc,
}
use railgun_go.Broadcaster.Search.Sorted.{IsAtMost}
use railgun_go.Broadcaster.Search.Best.{IsQuote, asked, find_best_broadcaster-IsLeast}

abbrev fee : Text → ℕ → ℕ → CachedTokenFee ℕ
fee amount expiration reliability = record {
  fee_per_unit_gas = amount;
  expiration = pos expiration;
  fees_id = [];
  available_wallets = pos 1;
  relay_adapt = [];
  relay_adapt_7702 = [];
  reliability = reliability;
}

-- Of three quotes one is about to expire.
abbrev cache : FeeCache ℕ
cache = record {
  for_network =
      (
        codes "0:1",
        (
          codes "t",
          (codes "a", (codes "default", fee (codes "30") 90000 9) ∷ [])
              ∷ (codes "b", (codes "default", fee (codes "20") 90000 5) ∷ [])
              ∷ (codes "c", (codes "default", fee (codes "10") 50000 5) ∷ [])
              ∷ [],
        )
            ∷ [],
      )
      ∷ [];
  authorized_fees = [];
  poi_active_list_keys = [];
  last_subscribed_at = 0;
}

abbrev cfg : Config
cfg = record {
  trusted_fee_signer = [];
  minimum_broadcaster_version = codes "8.0.0";
  maximum_broadcaster_version = codes "8.999.0";
  authorized_fee_lower_percent = 10;
  authorized_fee_upper_percent = 30;
  relay_adapt_history = λ key. [];
}

abbrev key_of : Chain → Text
key_of chain = codes "0:1"

abbrev mainnet : Chain
mainnet = record { type = pos 0; id = 1 }

abbrev open_filter : AddressFilter
open_filter = record { allowlist = []; blocklist = [] }

abbrev above : ℕ → ℕ → Bool
above a b = ltb b a

abbrev best : SelectedBroadcaster ℕ
best = record {
  railgun_address = codes "b";
  token_address = codes "T";
  token_fee = fee (codes "20") 90000 5;
}

found_best :
    find_best_broadcaster above key_of cfg mainnet (codes "T") false 20000 cache open_filter
    ≡ some best
unfolding find_best_broadcaster find_broadcasters_for_token fees_for_token find text_eq to_lower
    fee_bounds filter_addresses passes is_listed all_quotes quotes_of is_taken
    cached_fee_unavailable_or_expired cached_fee_expired sort_by_ascending_fee
    sort_by_reliability_desc exchange settle amount_of set_string
found_best = refl

find_best_broadcaster-IsLeast_example :
    IsQuote above key_of 20000 open_filter best
    × All
        (λ item. IsAtMost (asked above key_of best) (asked above key_of item))
        (find_broadcasters_for_token above key_of cfg mainnet
          (codes "T")
          false
          20000
          cache
          open_filter
          false)
find_best_broadcaster-IsLeast_example =
    find_best_broadcaster-IsLeast above key_of cfg mainnet (codes "T") false 20000 open_filter cache
      best found_best
