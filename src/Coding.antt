-- ===== src/Coding.antt =====
-- include/cpam/byte_encode.h: numbers in groups of seven bits, the lowest group first. Bytes are numbers
-- below 256, so `b & 0x7f` is b % 128, `b & 0x80` is a test against 128 and `x >> 7` is x / 128. The
-- unsigned type K has w bits.

pub mod Blocks
pub mod RoundTrip
use cpam.Base.{
  ℕ, zero, suc, ◌+◌, ◌*◌, ◌/◌, ◌%◌, ◌^◌, ◌||◌, Option, none, some, List, [], ◌∷◌, ltb,
  if◌then◌else◌,
}

-- The loop of `encodeUnsigned`, on fuel: the bytes that it writes. At its head curByte is the lowest
-- group of diff.
encode_loop : ℕ → ℕ → List ℕ
encode_loop zero diff = []
encode_loop (suc fuel) diff =
    let rest = encode_loop fuel (diff / 128) in
    let to_write = if ltb 0 (diff / 128) then diff % 128 + 128 else diff % 128 in
    if ltb 0 (diff % 128) || ltb 0 diff then to_write ∷ rest else []

-- Each turn makes diff smaller.
unfoldable pub encode_unsigned : ℕ → List ℕ
unfolding encode_loop
encode_unsigned diff = encode_loop diff diff

-- The loop of `decodeUnsigned` and the bytes behind what it reads; none where it reads past the end.
-- The shift is counted in a uint8_t.
unfoldable pub decode_loop : ℕ → List ℕ → ℕ → ℕ → Option (ℕ × List ℕ)
decode_loop w [] value shift = none
decode_loop w (b ∷ rest) value shift =
    let value' = (value + b % 128 * 2 ^ shift % 2 ^ w) % 2 ^ w in
    let more = decode_loop w rest value' ((shift + 7) % 256) in
    if ltb b 128 then some (value', rest) else more

unfoldable pub decode_unsigned : ℕ → List ℕ → Option (ℕ × List ℕ)
decode_unsigned w start = decode_loop w start 0 0
