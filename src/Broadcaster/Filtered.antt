-- ===== src/Broadcaster/Filtered.antt =====
-- pkg/broadcaster/address_filter.go: what a filter lets through.
use railgun_go.Common.{
  ◌≡◌, ◌⊎◌, refl, Bool-cases, inl, inr, true, false, List, [], ◌∷◌, Text, All, arith,
}
use railgun_go.Broadcaster.{AddressFilter, is_listed, passes, filter_addresses, lower}

passes_listed :
    (allow block : List Text) (address : Text)
    → passes (record { allowlist = allow; blocklist = block }) address ≡ true
    → (is_listed block (lower address) ≡ false)
      × ((allow ≡ []) ⊎ (is_listed allow (lower address) ≡ true))
unfolding passes is_listed
passes_listed [] [] address e = (refl, inl refl)
passes_listed (a ∷ allow) [] address e = (refl, inr (ground arith))
passes_listed [] (b ∷ block) address e = (ground arith, inl refl)
passes_listed (a ∷ allow) (b ∷ block) address e = (ground arith, inr (ground arith))

-- An address that `Filter` lets through is, in lower case, not on the blocklist, and on the
-- allowlist unless that is empty.
pub filter_addresses-All :
    (f : AddressFilter) (addresses : List Text)
    → All
        (λ address.
          (is_listed f.blocklist (lower address) ≡ false)
          × ((f.allowlist ≡ []) ⊎ (is_listed f.allowlist (lower address) ≡ true)))
        (filter_addresses f addresses)
unfolding filter_addresses
filter_addresses-All f [] = tt
filter_addresses-All f (address ∷ addresses) = elim (Bool-cases (passes f address)) [
  | inl through ↦
      rw through
        (passes_listed f.allowlist f.blocklist address through, filter_addresses-All f addresses)
  | inr out ↦ rw out (filter_addresses-All f addresses)
]
