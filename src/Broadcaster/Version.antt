-- ===== src/Broadcaster/Version.antt =====
-- pkg/broadcaster/util.go: versions of broadcasters. `strconv.Atoi` is the decimal reading of
-- Crypto/Bytes within the range of an int64.
use railgun_go.Common.{
  ℕ, ◌-◌, ◌^◌, ◌==◌, if◌then◌else◌, Bool, true, false, ◌||◌, Option, none, some, List, [], ◌∷◌,
  Text, codes, is_blank,
}
use railgun_go.Common.Int.{ℤ, pos, negsuc, ltb_ℤ}
use railgun_go.Crypto.Bytes.{trim_space, set_string}

abbrev pub cons_first : ℕ → List Text → List Text
cons_first c [] = (c ∷ []) ∷ []
cons_first c (part ∷ parts) = (c ∷ part) ∷ parts

-- `strings.Split(v, ".")`
unfoldable pub split_dots : Text → List Text
split_dots [] = [] ∷ []
split_dots (c ∷ s) =
    let parts = split_dots s in if c == b'.' then [] ∷ parts else cons_first c parts

abbrev pub int_or_zero : Option ℤ → ℤ
int_or_zero none = pos 0
int_or_zero (some n) =
    if ltb_ℤ n (negsuc (2 ^ 63 - 1)) || ltb_ℤ (pos (2 ^ 63 - 1)) n then pos 0 else n

abbrev pub part_value : Text → ℤ
part_value part = int_or_zero (set_string 10 (trim_space part))

unfoldable pub part_values : List Text → List ℤ
part_values [] = []
part_values (part ∷ parts) = part_value part ∷ part_values parts

abbrev pub or_zeros : Text → Text
or_zeros v = if is_blank v then codes "0.0.0" else v

unfoldable pub parse_version_parts : Text → List ℤ
parse_version_parts v = part_values (split_dots (or_zeros (trim_space v)))

-- What `versionCompare` returns.
pub data Order : Type 0 where
  lower equal higher : Order

abbrev pub compare_with : ℤ → ℤ → Order → Order
compare_with a b rest = if ltb_ℤ a b then lower else if ltb_ℤ b a then higher else rest

-- A part that is missing is 0.
unfoldable pub compare_parts : List ℤ → List ℤ → Order
compare_parts [] [] = equal
compare_parts [] (b ∷ bs) = compare_with (pos 0) b (compare_parts [] bs)
compare_parts (a ∷ more) [] = compare_with a (pos 0) (compare_parts more [])
compare_parts (a ∷ more) (b ∷ bs) = compare_with a b (compare_parts more bs)

unfoldable pub version_compare : Text → Text → Order
version_compare a b = compare_parts (parse_version_parts a) (parse_version_parts b)

abbrev pub is_lower : Order → Bool
is_lower lower = true
is_lower equal = false
is_lower higher = false

abbrev pub is_higher : Order → Bool
is_higher lower = false
is_higher equal = false
is_higher higher = true

unfoldable pub invalid_broadcaster_version : Text → Text → Text → Bool
invalid_broadcaster_version version min_version max_version =
    is_lower (version_compare (or_zeros version) min_version)
    || is_higher (version_compare (or_zeros version) max_version)
