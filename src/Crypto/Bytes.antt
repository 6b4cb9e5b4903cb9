-- ===== src/Crypto/Bytes.antt =====
-- pkg/crypto/bytes.go: hexadecimal text and `big.Int`. Strings are lists of bytes; `strings.TrimSpace`
-- and `strings.ToLower` are written for ASCII text.
pub mod Tests
pub mod Digits
pub mod Trim
pub mod RoundTrip
use mathlib.Core.List.{reverse}
use railgun_go.Common.{
  ℕ, zero, suc, ◌+◌, ◌-◌, ◌*◌, ◌/◌, ◌%◌, ltb, leb, ◌==◌, if◌then◌else◌, Bool, true, false, ◌&&◌,
  ◌||◌, Option, none, some, List, [], ◌∷◌, ◌++◌, map, Text, codes, length, drop, replicate,
}
use railgun_go.Common.{
  Result, ok, err, empty_hex, invalid_hex, invalid_decimal, negative_bigint,
  byte_length_not_positive, ◌>>=◌, ◌>>◌, guard,
}
use railgun_go.Common.Int.{ℤ, pos, negsuc, neg_ℕ, is_negative}

-- SNARKPrimeDecimal
abbrev pub snark_prime : ℕ
snark_prime = 21888242871839275222246405745257275088548364400416034343698204186575808495617

-- MerkleZeroValueHex
abbrev pub merkle_zero_value : ℕ
merkle_zero_value = 0x0488f89b25bc7011eaf6a5edce71aeafb9fe706faa3c0a5cd9cbe868ae3b9ffc

-- The ASCII white space of `strings.TrimSpace`.
unfoldable pub is_space : ℕ → Bool
is_space c = c == 32 || (leb 9 c && leb c 13)

unfoldable pub drop_spaces : Text → Text
unfolding is_space
drop_spaces [] = []
drop_spaces (c ∷ s) = if is_space c then drop_spaces s else c ∷ s

unfoldable pub trim_space : Text → Text
unfolding drop_spaces
trim_space s = reverse (drop_spaces (reverse (drop_spaces s)))

-- `strings.HasPrefix` of a two-byte prefix
unfoldable pub has_prefix : ℕ → ℕ → Text → Bool
has_prefix a b [] = false
has_prefix a b (c ∷ []) = false
has_prefix a b (c ∷ d ∷ s) = a == c && b == d

-- `strings.TrimPrefix` of a two-byte prefix
unfoldable pub trim_prefix : ℕ → ℕ → Text → Text
unfolding has_prefix
trim_prefix a b s = if has_prefix a b s then drop 2 s else s

unfoldable pub strip_0x : Text → Text
unfolding trim_space trim_prefix
strip_0x value = trim_prefix b'0' b'X' (trim_prefix b'0' b'x' (trim_space value))

unfoldable pub to_lower : ℕ → ℕ
to_lower c = if leb b'A' c && leb c b'Z' then c + 32 else c

unfoldable pub prefix_0x : Text → Text
unfolding strip_0x to_lower
prefix_0x value =
    if has_prefix b'0' b'x' value || has_prefix b'0' b'X' value
    then b'0' ∷ b'x' ∷ map to_lower (strip_0x value)
    else b'0' ∷ b'x' ∷ map to_lower value

-- The value of a digit of `big.Int.SetString`, up to base 36.
unfoldable pub digit_value : ℕ → Option ℕ
digit_value c =
    if leb b'0' c && leb c b'9'
    then some (c - b'0')
    else if leb b'a' c && leb c b'z'
    then some (c - b'a' + 10)
    else if leb b'A' c && leb c b'Z'
    then some (c - b'A' + 10)
    else none

-- The digits of `SetString`, read to the end of the text.
unfoldable pub parse_digits : ℕ → ℕ → Text → Option ℕ
unfolding digit_value
parse_digits base acc [] = some acc
parse_digits base acc (c ∷ s) = elim (digit_value c) [
  | none ↦ none
  | some d ↦ if ltb d base then parse_digits base (acc * base + d) s else none
]

-- At least one digit is wanted.
unfoldable pub parse_nat : ℕ → Text → Option ℕ
unfolding parse_digits
parse_nat base [] = none
parse_nat base (c ∷ s) = parse_digits base 0 (c ∷ s)

unfoldable pub with_sign : Bool → Option ℕ → Option ℤ
with_sign minus none = none
with_sign true (some n) = some (neg_ℕ n)
with_sign false (some n) = some (pos n)

-- `new(big.Int).SetString(value, base)`: an optional sign, then digits.
unfoldable pub set_string : ℕ → Text → Option ℤ
unfolding with_sign parse_nat
set_string base [] = none
set_string base (c ∷ s) =
    if c == b'-'
    then with_sign true (parse_nat base s)
    else if c == b'+'
    then with_sign false (parse_nat base s)
    else with_sign false (parse_nat base (c ∷ s))

abbrev pub parsed : Option ℤ → Result ℤ
parsed none = err invalid_hex
parsed (some n) = ok n

abbrev pub parse_stripped : Text → Result ℤ
parse_stripped [] = err empty_hex
parse_stripped (c ∷ s) = parsed (set_string 16 (c ∷ s))

unfoldable pub hex_to_big_int : Text → Result ℤ
unfolding set_string strip_0x
hex_to_big_int value = parse_stripped (strip_0x value)

abbrev pub parsed_decimal : Option ℤ → Result ℤ
parsed_decimal none = err invalid_decimal
parsed_decimal (some n) = ok n

unfoldable pub numberish_to_big_int : Text → Result ℤ
unfolding hex_to_big_int
numberish_to_big_int value =
    let trimmed = trim_space value in
    if has_prefix b'0' b'x' trimmed || has_prefix b'0' b'X' trimmed
    then hex_to_big_int trimmed
    else parsed_decimal (set_string 10 trimmed)

-- The lower-case digit of a value below 16.
unfoldable pub digit_char : ℕ → ℕ
digit_char d = if ltb d 10 then d + b'0' else d - 10 + b'a'

-- `value.Text(16)` of a magnitude. The fuel is the number itself and one more.
unfoldable pub text_16 : ℕ → ℕ → Text
unfolding digit_char
text_16 zero n = []
text_16 (suc fuel) n =
    let front = text_16 fuel (n / 16) in
    if ltb n 16 then digit_char n ∷ [] else front ++ digit_char (n % 16) ∷ []

-- Cut to the last `width` bytes, or fill with `0` on the left.
unfoldable pub fit : ℕ → Text → Text
fit width s =
    let cut = if ltb width (length s) then drop (length s - width) s else s in
    if ltb (length cut) width then replicate (width - length cut) b'0' ++ cut else cut

abbrev pub add_prefix : Bool → Text → Text
add_prefix prefix s = if prefix then b'0' ∷ b'x' ∷ s else s

unfoldable pub big_int_to_hex : ℤ → ℕ → Bool → Result Text
unfolding text_16 fit to_lower
big_int_to_hex (negsuc n) byte_length prefix = err negative_bigint
big_int_to_hex (pos n) byte_length prefix =
    ok (add_prefix prefix (map to_lower (fit (byte_length * 2) (text_16 (suc n) n))))

abbrev pub or_zero : Text → Text
or_zero [] = b'0' ∷ []
or_zero (c ∷ s) = c ∷ s

-- A byte length of 0 stands for every one that is not positive.
unfoldable pub format_hex_to_byte_length : Text → ℕ → Bool → Result Text
unfolding fit to_lower set_string strip_0x
format_hex_to_byte_length value zero prefix = err byte_length_not_positive
format_hex_to_byte_length value (suc n) prefix =
    let hex_value = or_zero (map to_lower (strip_0x value)) in
    elim (set_string 16 hex_value) [
      | none ↦ err invalid_hex
      | some v ↦ ok (add_prefix prefix (fit (suc n * 2) hex_value))
    ]
