-- ===== src/Crypto/Bytes/RoundTrip.antt =====
-- pkg/crypto/bytes.go: what `BigIntToHex` writes, `HexToBigInt` reads back.
use native.Mathlib.Nat.{mod-eq_of_lt, mul-add-mod_self_right}
use railgun_go.Common.{
  ℕ, zero, suc, ◌-◌, ◌*◌, ◌%◌, ◌^◌, ◌≤◌, ◌<◌, ltb, Bool-cases, inl, inr, ◌≡◌, refl, ap, sym, ◌∙◌,
  Bool, if◌then◌else◌, some, [], ◌∷◌, ◌++◌, Text, length, drop, replicate, All, All-append,
  All-replicate, length-append, length-replicate, arith, ok,
}
use railgun_go.Common.Int.{pos}
use railgun_go.Crypto.Bytes.{
  digit_value, parse_nat, set_string, hex_to_big_int, big_int_to_hex, text_16, fit, strip_0x,
  add_prefix, parsed, parse_stripped,
}
use native.Mathlib.Decide.{dec_lt}
use railgun_go.Crypto.Bytes.Digits.{
  IsHex, is_hex, value, parse_digits-value, value_split, value-lt, value-append, text_16-IsHex,
  value-text_16,
}
use railgun_go.Crypto.Bytes.Trim.{strip_0x-add_prefix, map-to_lower-IsHex}

All-drop : (n : ℕ) (s : Text) → All IsHex s → All IsHex (drop n s)
All-drop zero s h = h
All-drop (suc n) [] h = tt
All-drop (suc n) (c ∷ s) h = All-drop n s h.1

pub fit-IsHex : (width : ℕ) (s : Text) → All IsHex s → All IsHex (fit width s)
unfolding fit
fit-IsHex width s h = elim (Bool-cases (ltb width (length s))) [
  | inl long ↦ rw long (pad (drop (length s - width) s) (All-drop (length s - width) s h))
  | inr short ↦ rw short (pad s h)
]
  where
    pad :
        (t : Text)
        → All IsHex t
        → All IsHex (if ltb (length t) width then replicate (width - length t) b'0' ++ t else t)
    pad t k = elim (Bool-cases (ltb (length t) width)) [
      | inl few ↦ rw few (
          All-append IsHex (replicate (width - length t) b'0') t
            (All-replicate IsHex (width - length t) b'0' (unfold is_hex in refl)) k)
      | inr full ↦ rw full k
    ]

length-drop : (n : ℕ) (s : Text) → length (drop n s) ≡ length s - n
length-drop zero s = omega arith
length-drop (suc n) [] = omega arith
length-drop (suc n) (c ∷ s) = omega (arith, length-drop n s)

pub length-fit : (width : ℕ) (s : Text) → length (fit width s) ≡ width
unfolding fit
length-fit width s = ground (
  arith,
  length-drop (length s - width) s,
  length-append (replicate (width - length s) b'0') s,
  length-replicate {A = ℕ} (width - length s) b'0',
)

value-replicate : (n : ℕ) (s : Text) → value 0 (replicate n b'0' ++ s) ≡ value 0 s
unfolding value digit_value
value-replicate zero s = refl
value-replicate (suc n) s = value-replicate n s

-- The last digits write the number modulo a power of 16.
value-append-mod : (a t : Text) → All IsHex t → value 0 (a ++ t) % 16 ^ length t ≡ value 0 t
value-append-mod a t h =
    rw (value-append 0 a t, value_split (value 0 a) t)
      (mul-add-mod_self_right (value 0 a) (16 ^ length t) (value 0 t) ∙ mod-eq_of_lt (value-lt t h))

drop_suffix : (n : ℕ) (s : Text) → (a : Text) × (s ≡ a ++ drop n s)
drop_suffix zero s = ([], refl)
drop_suffix (suc n) [] = ([], refl)
drop_suffix (suc n) (c ∷ s) = let (a, e) = drop_suffix n s in (c ∷ a, ap (λ t. c ∷ t) e)

value-drop :
    (n : ℕ) (s : Text) → All IsHex s → value 0 (drop n s) ≡ value 0 s % 16 ^ length (drop n s)
value-drop n s h =
    let (a, e) = drop_suffix n s in
    sym (
      ap (λ t. value 0 t % 16 ^ length (drop n s)) e
      ∙ value-append-mod a (drop n s) (All-drop n s h))

fit_of_long : (width : ℕ) (s : Text) → width < length s → fit width s ≡ drop (length s - width) s
unfolding fit
fit_of_long width s h = ground (arith, length-drop (length s - width) s)

fit_of_short :
    (width : ℕ) (s : Text) → length s ≤ width → fit width s ≡ replicate (width - length s) b'0' ++ s
unfolding fit
fit_of_short width s h = elim (Bool-cases (ltb (length s) width)) [
  | inl few ↦ ground arith
  | inr full ↦ let e : width - length s ≡ 0 = ground arith in rw e (ground arith)
]

-- Filling on the left keeps the number, cutting takes it modulo `16 ^ width`.
pub value-fit :
    (width : ℕ) (s : Text) → All IsHex s → value 0 (fit width s) ≡ value 0 s % 16 ^ width
value-fit width s h = elim (dec_lt width (length s)) [
  | yes long ↦
      let n : ℕ = length s - width in
      rw (fit_of_long width s long, value-drop n s h, length-drop n s)
        (ap (λ k. value 0 s % 16 ^ k) (omega arith))
  | no short ↦
      let e : value 0 (fit width s) ≡ value 0 s =
        rw (fit_of_short width s (omega arith)) (value-replicate (width - length s) s) in
      let small : value 0 (fit width s) < 16 ^ length (fit width s) =
        value-lt (fit width s) (fit-IsHex width s h) in
      e ∙ sym (mod-eq_of_lt (rw (e, length-fit width s) at small))
]

set_string-digits :
    (c : ℕ) (s : Text) → All IsHex (c ∷ s) → set_string 16 (c ∷ s) ≡ some (pos (value 0 (c ∷ s)))
unfolding set_string parse_nat is_hex
set_string-digits c s h = ground (arith, parse_digits-value 0 (c ∷ s) h)

hex_to_big_int_of_strip :
    (t : Text) (c : ℕ) (s : Text)
    → strip_0x t ≡ c ∷ s
    → hex_to_big_int t ≡ parsed (set_string 16 (c ∷ s))
unfolding hex_to_big_int
hex_to_big_int_of_strip t c s e = ap parse_stripped e

-- Digits are read as the number that they write.
pub parsed-digits :
    (prefix : Bool) (s : Text)
    → All IsHex s
    → 0 < length s
    → hex_to_big_int (add_prefix prefix s) ≡ ok (pos (value 0 s))
parsed-digits prefix [] h l = absurd (omega arith)
parsed-digits prefix (c ∷ s) h l =
    rw
      (hex_to_big_int_of_strip (add_prefix prefix (c ∷ s)) c s
        (strip_0x-add_prefix prefix (c ∷ s) h))
      (ap parsed (set_string-digits c s h))

-- The text that `BigIntToHex` writes, before the prefix: `2 * byte_length` digits.
pub hex_digits : ℕ → ℕ → Text
hex_digits n byte_length = fit (byte_length * 2) (text_16 (suc n) n)

pub big_int_to_hex-pos :
    (n byte_length : ℕ) (prefix : Bool)
    → big_int_to_hex (pos n) byte_length prefix ≡ ok (add_prefix prefix (hex_digits n byte_length))
unfolding big_int_to_hex hex_digits
big_int_to_hex-pos n byte_length prefix =
    let digits : Text = hex_digits n byte_length in
    ap (λ s. ok (add_prefix prefix s))
      (map-to_lower-IsHex digits
        (fit-IsHex (byte_length * 2) (text_16 (suc n) n) (text_16-IsHex (suc n) n)))

-- `BigIntToHex` succeeds on every number that is not negative, and `HexToBigInt` reads back what
-- it wrote, with the prefix or without: the number modulo 16 to the number of digits.
pub hex_to_big_int-big_int_to_hex :
    (n byte_length : ℕ) (prefix : Bool)
    → 0 < byte_length
    → (s : Text) × (big_int_to_hex (pos n) byte_length prefix ≡ ok s)
      × (hex_to_big_int s ≡ ok (pos (n % 16 ^ (byte_length * 2))))
unfolding hex_digits
hex_to_big_int-big_int_to_hex n byte_length prefix h =
    let width : ℕ = byte_length * 2 in
    let t : Text = text_16 (suc n) n in
    let hex : All IsHex t = text_16-IsHex (suc n) n in
    (
      add_prefix prefix (hex_digits n byte_length),
      big_int_to_hex-pos n byte_length prefix,
      rw (
        parsed-digits prefix (fit width t) (fit-IsHex width t hex)
            (rw (length-fit width t) (omega arith)),
        value-fit width t hex,
        value-text_16 (suc n) n (omega arith),
      ),
    )
