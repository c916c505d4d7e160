-- ===== src/Coding/RoundTrip.antt =====
-- What is written is read back, and how many bytes it takes.
use cpam.Base.{
  ℕ, zero, suc, ◌+◌, ◌*◌, ◌/◌, ◌%◌, ◌^◌, ◌<◌, ◌≤◌, ◌≡◌, refl, ap, ◌∙◌, ◌||◌, true, false, some,
  List, [], ◌∷◌, ◌++◌, ltb, if-split, if-both, length, arith, Bool-cases,
}
use native.Mathlib.Nat.{div-add-mod, mod-eq_of_lt}
use mathlib.Core.Logic.{inl, inr}
use native.Mathlib.Numerals.{towards_suc}
use cpam.Coding.{encode_loop, encode_unsigned, decode_loop, decode_unsigned}

shift_seven : (s : ℕ) → 2 ^ (s + 7) ≡ 128 * 2 ^ s
shift_seven s = simp towards_suc (omega arith)

-- The lowest group of `d` and the rest, both shifted by `s`.
split_group : (d s : ℕ) → d * 2 ^ s ≡ d % 128 * 2 ^ s + d / 128 * 2 ^ (s + 7)
split_group d s = omega (
  arith,
  ap (λ (t : ℕ). t * 2 ^ s) (div-add-mod d 128),
  ap (λ (t : ℕ). d / 128 * t) (shift_seven s),
)

power_suc : (s : ℕ) → 2 ^ suc s ≡ 2 * 2 ^ s
power_suc s = omega arith

power_positive : (s : ℕ) → 0 < 2 ^ s
power_positive zero = omega arith
power_positive (suc s) = omega (arith, power_suc s, power_positive s)

-- A shift that leaves a number below 2 ^ w is less than w.
shift_bound : (s w : ℕ) → 2 ^ s < 2 ^ w → s < w
shift_bound zero zero h = absurd (omega arith)
shift_bound zero (suc w) h = omega arith
shift_bound (suc s) zero h = absurd (omega (arith, power_suc s, power_positive s))
shift_bound (suc s) (suc w) h =
    omega (arith, shift_bound s w (omega (arith, h, power_suc s, power_suc w)))

-- A number that is not 0 fits beside its shift.
shift_fits : (d s w : ℕ) → 0 < d → d * 2 ^ s < 2 ^ w → s < w
shift_fits (suc d) s w h fits = shift_bound s w (grind (arith, power_positive s))
shift_fits zero s w h fits = absurd (omega arith)

-- What one turn adds, where it fits.
added :
    (w g value shift : ℕ)
    → value + g * 2 ^ shift < 2 ^ w
    → (value + g * 2 ^ shift % 2 ^ w) % 2 ^ w ≡ value + g * 2 ^ shift
added w g value shift fits =
    rw (mod-eq_of_lt {n = g * 2 ^ shift} {m = 2 ^ w} (omega arith)) (mod-eq_of_lt fits)

-- One turn of the loop, on the last byte and on one with the top bit set.
last_byte :
    (w d value shift : ℕ) (rest : List ℕ)
    → d < 128
    → value + d * 2 ^ shift < 2 ^ w
    → decode_loop w (d ∷ rest) value shift ≡ some (value + d * 2 ^ shift, rest)
unfolding decode_loop
last_byte w d value shift rest hd fits =
    let group : d % 128 ≡ d = mod-eq_of_lt hd in
    let test : ltb d 128 ≡ true = ground arith in rw (group, added w d value shift fits, test) refl

inner_byte :
    (w g value shift : ℕ) (rest : List ℕ)
    → g < 128
    → shift + 7 < 256
    → value + g * 2 ^ shift < 2 ^ w
    → decode_loop w ((g + 128) ∷ rest) value shift
      ≡ decode_loop w rest (value + g * 2 ^ shift) (shift + 7)
unfolding decode_loop
inner_byte w g value shift rest hg hs fits =
    let group : (g + 128) % 128 ≡ g = omega arith in
    let test : ltb (g + 128) 128 ≡ false = ground arith in
    let small : (shift + 7) % 256 ≡ shift + 7 = omega arith in
    rw (group, added w g value shift fits, test, small) refl

encode_loop-zero : (fuel : ℕ) → encode_loop fuel 0 ≡ []
unfolding encode_loop
encode_loop-zero zero = refl
encode_loop-zero (suc fuel) = refl

decode_loop-encode_loop :
    (w fuel d value shift : ℕ) (rest : List ℕ)
    → w ≤ 128
    → 0 < d
    → d ≤ fuel
    → value + d * 2 ^ shift < 2 ^ w
    → decode_loop w (encode_loop fuel d ++ rest) value shift ≡ some (value + d * 2 ^ shift, rest)
unfolding encode_loop
decode_loop-encode_loop w zero d value shift rest hw pos h fits = absurd (omega arith)
decode_loop-encode_loop w (suc fuel) d value shift rest hw pos h fits =
    let P = λ (bs : List ℕ).
      decode_loop w (bs ++ rest) value shift ≡ some (value + d * 2 ^ shift, rest) in
    let below : shift < w = shift_fits d shift w pos (omega arith) in
    if-split P (ltb 0 (d % 128) || ltb 0 d)
      (λ _. elim (Bool-cases (ltb 0 (d / 128))) [
        | inl more ↦ rw more (
            inner_byte w (d % 128) value shift (encode_loop fuel (d / 128) ++ rest) (omega arith)
              (omega arith) (omega (arith, split_group d shift))
            ∙ decode_loop-encode_loop w fuel (d / 128) (value + d % 128 * 2 ^ shift) (shift + 7)
                rest hw (ground arith) (omega arith) (omega (arith, split_group d shift))
            ∙ ap (λ v. some (v, rest)) (omega (arith, split_group d shift)))
        | inr last ↦
            let whole : d % 128 ≡ d = ground arith in
            let nothing : d / 128 ≡ 0 = ground arith in
            rw (last, whole, nothing, encode_loop-zero fuel)
              (last_byte w d value shift rest (ground arith) fits)
      ])
      λ stops. absurd (ground arith)

-- A number that is not 0 and fits in w bits, for w up to 128, is read back by `decodeUnsigned` from
-- the bytes that `encodeUnsigned` writes for it, whatever stands behind them, and just those bytes
-- are read.
pub decode_unsigned-encode_unsigned :
    (w d : ℕ) (rest : List ℕ)
    → w ≤ 128
    → 0 < d
    → d < 2 ^ w
    → decode_unsigned w (encode_unsigned d ++ rest) ≡ some (d, rest)
unfolding decode_unsigned encode_unsigned
decode_unsigned-encode_unsigned w d rest hw pos fits =
    decode_loop-encode_loop w d d 0 0 rest hw pos (omega arith) (omega arith)
    ∙ ap (λ v. some (v, rest)) (omega arith)

-- For 0 no byte is written.
pub encode_unsigned-zero : encode_unsigned 0 ≡ []
unfolding encode_unsigned encode_loop
encode_unsigned-zero = refl

length-encode_loop : (fuel d k : ℕ) → d < 128 ^ k → length (encode_loop fuel d) ≤ k
unfolding encode_loop
length-encode_loop zero d k h = omega arith
length-encode_loop (suc fuel) d zero h =
    let nothing : d ≡ 0 = omega arith in rw nothing (omega arith)
length-encode_loop (suc fuel) d (suc k) h =
    if-both (λ (bs : List ℕ). length bs ≤ suc k) (ltb 0 (d % 128) || ltb 0 d)
      (omega (arith, length-encode_loop fuel (d / 128) k (omega (arith, h)))) (omega arith)

pow128_suc : (n : ℕ) → 128 ^ suc n ≡ 128 * 128 ^ n
pow128_suc n = omega arith

pow256_suc : (n : ℕ) → 256 ^ suc n ≡ 256 * 256 ^ n
pow256_suc n = omega arith

square_bound : (s : ℕ) → 256 ^ s ≤ 128 ^ (2 * s)
square_bound zero = omega arith
square_bound (suc s) =
    let twice : 128 ^ (2 * suc s) ≡ 128 ^ suc (suc (2 * s)) = ap (λ n. 128 ^ n) (omega arith) in
    omega (arith, square_bound s, twice, pow128_suc (suc (2 * s)), pow128_suc (2 * s), pow256_suc s)

-- `encodeUnsigned` of a number below 256 ^ s writes at most 2 * s bytes, the size of the buffer
-- that `encoded_size` hands it.
length-encode_unsigned : (s d : ℕ) → d < 256 ^ s → length (encode_unsigned d) ≤ 2 * s
unfolding encode_unsigned
length-encode_unsigned s d h = length-encode_loop d d (2 * s) (omega (arith, square_bound s))
