-- ===== src/Examples/Codes.antt =====
-- The theorems on coded keys at concrete keys and blocks.
use cpam.Base.{◌+◌, ◌*◌, ◌≡◌, List, [], ◌∷◌, ◌++◌, some, length, arith}
use cpam.Node.{decode}
use cpam.Coding.{encode_unsigned, decode_unsigned}
use cpam.Coding.RoundTrip.{decode_unsigned-encode_unsigned}
use cpam.Coding.Blocks.{encode, encoded_size, inplace_update, find}
use cpam.Coding.Blocks
use cpam.Coding.Blocks.Read.{decode-encode, find-encode, inplace_update-encode}
use cpam.Coding.Blocks.Size.{encoded_size-encode}
use cpam.Entry.{pair_entry}
use cpam.Map.Search.{find_in_block}
use cpam.Node.{compressed}
use cpam.Examples.{Pair}

-- Behind an entry of key 3: keys that are 197 and 5 further on.
abbrev behind : List Pair
behind = (200, 20) ∷ (205, 30) ∷ []

decode_unsigned_example : decode_unsigned 32 (encode_unsigned 300 ++ 7 ∷ []) ≡ some (300, 7 ∷ [])
decode_unsigned_example =
    decode_unsigned-encode_unsigned 32 300 (7 ∷ []) (omega arith) (omega arith) (omega arith)

decode-encode_example :
    Blocks.decode 32 pair_entry (λ sum e. sum + e.1) (encode 32 pair_entry (3, 10) behind) 0
    ≡ some 60
unfolding decode
decode-encode_example =
    decode-encode 32 pair_entry (omega arith) (λ sum e. sum + e.1) (3, 10) behind 0
      (omega arith, omega arith, (omega arith, omega arith, tt))

find-encode_example :
    find 32 pair_entry (encode 32 pair_entry (3, 10) behind) 205
    ≡ some (find_in_block pair_entry (compressed ((3, 10) ∷ behind)) 205)
find-encode_example =
    find-encode 32 pair_entry (omega arith) (3, 10) behind 205
      (omega arith, omega arith, (omega arith, omega arith, tt))

inplace_update-encode_example :
    inplace_update 32 pair_entry (λ e. e.1 + 1) (encode 32 pair_entry (3, 10) behind)
    ≡ some (encode 32 pair_entry (3, 11) ((200, 21) ∷ (205, 31) ∷ []))
inplace_update-encode_example =
    inplace_update-encode 32 pair_entry (omega arith) (λ e. e.1 + 1) (3, 10) behind
      (omega arith, omega arith, (omega arith, omega arith, tt))

encoded_size-encode_example :
    encoded_size 32 pair_entry 4 4 (3, 10) behind
    ≡ 4
      + length ((encode 32 pair_entry (3, 10) behind).key_bytes)
      + length ((encode 32 pair_entry (3, 10) behind).vals) * 4
encoded_size-encode_example = encoded_size-encode 32 pair_entry 4 4 (3, 10) behind
