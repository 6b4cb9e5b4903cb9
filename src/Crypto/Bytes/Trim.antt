-- ===== src/Crypto/Bytes/Trim.antt =====
-- pkg/crypto/bytes.go: digits survive `TrimSpace`, `Strip0x` and `ToLower`.
use mathlib.Core.List.{reverse, reverse-append, reverse-reverse}
use railgun_go.Common.{ℕ, ◌≡◌, refl, Bool, true, false, [], ◌∷◌, map, Text, All, All-append, arith}
use railgun_go.Crypto.Bytes.{
  is_space, drop_spaces, trim_space, trim_prefix, strip_0x, to_lower, add_prefix,
}
use railgun_go.Crypto.Bytes.Digits.{is_hex, IsHex}

abbrev NoSpace : ℕ → Type 0
NoSpace c = is_space c ≡ false

IsHex-NoSpace : (s : Text) → All IsHex s → All NoSpace s
unfolding is_hex is_space
IsHex-NoSpace [] h = tt
IsHex-NoSpace (c ∷ s) h = (ground arith, IsHex-NoSpace s h.1)

All-reverse : (s : Text) → All NoSpace s → All NoSpace (reverse s)
All-reverse [] h = tt
All-reverse (c ∷ s) h =
    rw (reverse-append (c ∷ []) s)
      (All-append NoSpace (reverse s) (c ∷ []) (All-reverse s h.1) (h.0, tt))

drop_spaces-NoSpace : (s : Text) → All NoSpace s → drop_spaces s ≡ s
unfolding drop_spaces
drop_spaces-NoSpace [] h = refl
drop_spaces-NoSpace (c ∷ s) h = rw h.0

trim_space-NoSpace : (s : Text) → All NoSpace s → trim_space s ≡ s
unfolding trim_space
trim_space-NoSpace s h =
    rw (drop_spaces-NoSpace s h, drop_spaces-NoSpace (reverse s) (All-reverse s h), reverse-reverse)

-- `x` is no digit, so digits have no such prefix.
trim_prefix-IsHex : (b : ℕ) (s : Text) → is_hex b ≡ false → All IsHex s → trim_prefix b'0' b s ≡ s
unfolding trim_prefix
trim_prefix-IsHex b [] n h = refl
trim_prefix-IsHex b (c ∷ []) n h = refl
trim_prefix-IsHex b (c ∷ d ∷ s) n h = ground arith

pub strip_0x-add_prefix :
    (prefix : Bool) (s : Text) → All IsHex s → strip_0x (add_prefix prefix s) ≡ s
unfolding strip_0x is_space is_hex
strip_0x-add_prefix true s h =
    rw (trim_space-NoSpace (b'0' ∷ b'x' ∷ s) (refl, (refl, IsHex-NoSpace s h)))
      (unfold trim_prefix in trim_prefix-IsHex b'X' s refl h)
strip_0x-add_prefix false s h = rw (
  trim_space-NoSpace s (IsHex-NoSpace s h),
  trim_prefix-IsHex b'x' s refl h,
  trim_prefix-IsHex b'X' s refl h,
)

to_lower-IsHex : (c : ℕ) → IsHex c → to_lower c ≡ c
unfolding to_lower is_hex
to_lower-IsHex c h = ground arith

pub map-to_lower-IsHex : (s : Text) → All IsHex s → map to_lower s ≡ s
map-to_lower-IsHex [] h = refl
map-to_lower-IsHex (c ∷ s) h = rw (to_lower-IsHex c h.0, map-to_lower-IsHex s h.1)
