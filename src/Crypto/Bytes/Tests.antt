-- ===== src/Crypto/Bytes/Tests.antt =====
-- Runs of the encodings.
use railgun_go.Common.{◌≡◌, refl, true, false, codes, ok, err, invalid_hex}
use railgun_go.Common.Int.{pos, negsuc}
use railgun_go.Crypto.Bytes.{hex_to_big_int, big_int_to_hex, format_hex_to_byte_length}

hex_to_big_int_ff : hex_to_big_int (codes " 0xfF ") ≡ ok (pos 255)
unfolding hex_to_big_int
hex_to_big_int_ff = refl

hex_to_big_int_minus : hex_to_big_int (codes "-10") ≡ ok (negsuc 15)
unfolding hex_to_big_int
hex_to_big_int_minus = refl

hex_to_big_int_bad : hex_to_big_int (codes "0x1g") ≡ err invalid_hex
unfolding hex_to_big_int
hex_to_big_int_bad = refl

big_int_to_hex_padded : big_int_to_hex (pos 2571) 3 true ≡ ok (codes "0x000a0b")
unfolding big_int_to_hex
big_int_to_hex_padded = refl

big_int_to_hex_cut : big_int_to_hex (pos 0x12345) 2 false ≡ ok (codes "2345")
unfolding big_int_to_hex
big_int_to_hex_cut = refl

format_sign : format_hex_to_byte_length (codes "-1") 2 false ≡ ok (codes "00-1")
unfolding format_hex_to_byte_length
format_sign = refl
