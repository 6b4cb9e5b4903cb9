-- ===== src/Crypto/Bytes/Digits.antt =====
-- pkg/crypto/bytes.go: hexadecimal digits and the numbers that they write.
use native.Mathlib.Nat.{pow-suc}
use railgun_go.Common.{
  ℕ, zero, suc, ◌+◌, ◌*◌, ◌/◌, ◌%◌, ◌^◌, ◌<◌, ltb, leb, ltb→lt, Bool-cases, inl, inr, ◌≡◌, refl,
  Bool, true, ◌&&◌, ◌||◌, Option, none, some, [], ◌∷◌, ◌++◌, Text, length, All, All-append,
  length-append, arith,
}
use railgun_go.Crypto.Bytes.{digit_value, digit_char, parse_digits, text_16}

-- A digit that `Text(16)` writes: lower case.
unfoldable pub is_hex : ℕ → Bool
is_hex c = (leb b'0' c && leb c b'9') || (leb b'a' c && leb c b'f')

abbrev pub IsHex : ℕ → Type 0
IsHex c = is_hex c ≡ true

abbrev digit_or_zero : Option ℕ → ℕ
digit_or_zero none = 0
digit_or_zero (some d) = d

-- The number that lower-case digits write, after `acc`.
unfoldable pub value : ℕ → Text → ℕ
value acc [] = acc
value acc (c ∷ s) = value (acc * 16 + digit_or_zero (digit_value c)) s

IsHex-digit : (c : ℕ) → IsHex c → (d : ℕ) × (digit_value c ≡ some d) × (d < 16)
unfolding is_hex digit_value
IsHex-digit c h = (digit_or_zero (digit_value c), ground arith, ground arith)

pub parse_digits-value :
    (acc : ℕ) (s : Text) → All IsHex s → parse_digits 16 acc s ≡ some (value acc s)
unfolding parse_digits value
parse_digits-value acc [] h = refl
parse_digits-value acc (c ∷ s) h =
    let (d, e, l) = IsHex-digit c h.0 in
    rw e (ground (arith, parse_digits-value (acc * 16 + d) s h.1))

split_step : (a d p v : ℕ) → (a * 16 + d) * p + v ≡ a * (p * 16) + ((0 * 16 + d) * p + v)
split_step a d p v = grind arith

pub value_split : (acc : ℕ) (s : Text) → value acc s ≡ acc * 16 ^ length s + value 0 s
unfolding value
value_split acc [] = omega arith
value_split acc (c ∷ s) =
    let d = digit_or_zero (digit_value c) in
    let p : ℕ = 16 ^ length s in
    rw (value_split (acc * 16 + d) s, value_split (0 * 16 + d) s, pow-suc 16 (length s))
      (split_step acc d p (value 0 s))

digit_step : (d p v : ℕ) → d < 16 → v < p → (0 * 16 + d) * p + v < p * 16
digit_step d p v h k = grind arith

pub value-lt : (s : Text) → All IsHex s → value 0 s < 16 ^ length s
unfolding value
value-lt [] h = omega arith
value-lt (c ∷ s) h =
    let (d, e, l) = IsHex-digit c h.0 in
    rw (e, value_split (0 * 16 + d) s, pow-suc 16 (length s))
      (digit_step d (16 ^ length s) (value 0 s) l (value-lt s h.1))

pub value-append : (acc : ℕ) (s t : Text) → value acc (s ++ t) ≡ value (value acc s) t
unfolding value
value-append acc [] t = refl
value-append acc (c ∷ s) t = value-append (acc * 16 + digit_or_zero (digit_value c)) s t

digit_char-value : (d : ℕ) → d < 16 → digit_value (digit_char d) ≡ some d
unfolding digit_char digit_value
digit_char-value d h = ground arith

digit_char-IsHex : (d : ℕ) → d < 16 → IsHex (digit_char d)
unfolding digit_char is_hex
digit_char-IsHex d h = ground arith

pub text_16-IsHex : (fuel n : ℕ) → All IsHex (text_16 fuel n)
unfolding text_16
text_16-IsHex zero n = tt
text_16-IsHex (suc fuel) n = elim (Bool-cases (ltb n 16)) [
  | inl small ↦ rw small (digit_char-IsHex n (ltb→lt n 16 small), tt)
  | inr big ↦ rw big (
      All-append IsHex (text_16 fuel (n / 16)) (digit_char (n % 16) ∷ [])
        (text_16-IsHex fuel (n / 16)) (digit_char-IsHex (n % 16) (omega arith), tt))
]

-- Enough fuel writes the number itself.
pub value-text_16 : (fuel n : ℕ) → n < fuel → value 0 (text_16 fuel n) ≡ n
unfolding text_16 value
value-text_16 zero n h = absurd (omega arith)
value-text_16 (suc fuel) n h = elim (Bool-cases (ltb n 16)) [
  | inl small ↦ rw (small, digit_char-value n (ltb→lt n 16 small)) (omega arith)
  | inr big ↦
      rw
        (
          big,
          value-append 0 (text_16 fuel (n / 16)) (digit_char (n % 16) ∷ []),
          value-text_16 fuel (n / 16) (ground arith),
          digit_char-value (n % 16) (omega arith),
        )
        (omega arith)
]

pub length-text_16-pos : (fuel n : ℕ) → 0 < length (text_16 (suc fuel) n)
unfolding text_16
length-text_16-pos fuel n =
    ground (arith, length-append (text_16 fuel (n / 16)) (digit_char (n % 16) ∷ []))
