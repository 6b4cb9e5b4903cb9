-- ===== src/Broadcaster.antt =====
-- pkg/broadcaster/address_filter.go: which broadcasters a client talks to.
pub mod Filtered
pub mod Version
pub mod Fees
pub mod Search
mod Tests
use railgun_go.Common.{
  is_blank, ℕ, if◌then◌else◌, Bool, true, false, ◌&&◌, ◌||◌, not, List, [], ◌∷◌, map, Text, text_eq,
}
use railgun_go.Crypto.Bytes.{to_lower, trim_space}

-- A set of addresses in lower case. The empty set stands for a nil map: the code treats them alike.
pub record AddressFilter : Type 0 where
  pub allowlist : List Text
  pub blocklist : List Text

abbrev pub no_addresses : List Text → Bool
no_addresses [] = true
no_addresses (address ∷ addresses) = false

-- `strings.ToLower` of ASCII text
abbrev pub lower : Text → Text
lower s = map to_lower s

unfoldable pub is_listed : List Text → Text → Bool
is_listed [] address = false
is_listed (listed ∷ list) address = text_eq listed address || is_listed list address

unfoldable pub to_lower_set : List Text → List Text
to_lower_set [] = []
to_lower_set (address ∷ addresses) =
    let rest = to_lower_set addresses in
    if is_blank (trim_space address) then rest else lower (trim_space address) ∷ rest

abbrev pub new_address_filter : AddressFilter
new_address_filter = record { allowlist = []; blocklist = [] }

unfoldable pub set_allowlist : List Text → AddressFilter → AddressFilter
set_allowlist addresses f = record f { allowlist = to_lower_set addresses }

unfoldable pub set_blocklist : List Text → AddressFilter → AddressFilter
set_blocklist addresses f = record f { blocklist = to_lower_set addresses }

-- The two tests of the loop of `Filter`.
unfoldable pub passes : AddressFilter → Text → Bool
passes f address =
    if not (no_addresses f.blocklist) && is_listed f.blocklist (lower address)
    then false
    else if not (no_addresses f.allowlist) && not (is_listed f.allowlist (lower address))
    then false
    else true

unfoldable pub filter_addresses : AddressFilter → List Text → List Text
filter_addresses f [] = []
filter_addresses f (address ∷ addresses) =
    let rest = filter_addresses f addresses in if passes f address then address ∷ rest else rest
