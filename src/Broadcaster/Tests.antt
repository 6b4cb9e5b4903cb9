-- ===== src/Broadcaster/Tests.antt =====
-- The theorem on address filters at a concrete input.
use railgun_go.Common.{◌≡◌, ◌⊎◌, refl, true, false, List, [], ◌∷◌, Text, codes, text_eq, All}
use railgun_go.Crypto.Bytes.{to_lower}
use railgun_go.Broadcaster.{AddressFilter, is_listed, passes, filter_addresses, lower}
use railgun_go.Broadcaster.Filtered.{filter_addresses-All}

abbrev blocking : AddressFilter
blocking = record { allowlist = []; blocklist = codes "0zkab" ∷ [] }

-- Neither case nor spaces make a difference to what is blocked.
blocked : filter_addresses blocking (codes "0zkAB" ∷ codes "0zkcd" ∷ []) ≡ codes "0zkcd" ∷ []
unfolding filter_addresses passes is_listed to_lower text_eq
blocked = refl

filter_addresses-All_example :
    All
      (λ address.
        (is_listed (codes "0zkab" ∷ []) (lower address) ≡ false)
        × (◌≡◌ {A = List Text} [] [] ⊎ (is_listed [] (lower address) ≡ true)))
      (filter_addresses blocking (codes "0zkAB" ∷ codes "0zkcd" ∷ []))
filter_addresses-All_example = filter_addresses-All blocking (codes "0zkAB" ∷ codes "0zkcd" ∷ [])
