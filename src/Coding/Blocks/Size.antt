-- ===== src/Coding/Blocks/Size.antt =====
-- The bytes of a block are as many as `encoded_size` says.
use cpam.Base.{ℕ, ◌+◌, ◌-◌, ◌*◌, ◌^◌, ◌≡◌, refl, List, [], ◌∷◌, length, length-append, arith}
use native.Mathlib.Nat.{mod_self}
use cpam.Coding.{encode_unsigned}
use cpam.Coding.RoundTrip.{encode_unsigned-zero}
use cpam.Coding.Blocks.{next_diff, encode_keys, encode_vals, encode, key_sizes, encoded_size}
use cpam.Entry.{Entry}

module _ {ℓ μ} {E : Type ℓ} {V : Type μ} (bits : ℕ) (ent : Entry E ℕ V) where
  open ent use {get_key}

  key_sizes-encode_keys :
      (k : ℕ) (es : List E) → key_sizes bits ent k es ≡ length (encode_keys bits ent k es)
  key_sizes-encode_keys k [] = refl
  key_sizes-encode_keys k (e ∷ es) =
      rw
        (
          length-append (encode_unsigned (next_diff bits ent k (get_key e)))
              (encode_keys bits ent (get_key e) es),
          key_sizes-encode_keys (get_key e) es,
        )
        refl

  length-encode_vals : (es : List E) → length (encode_vals bits ent es) ≡ length es
  length-encode_vals [] = refl
  length-encode_vals (e ∷ es) = rw (length-encode_vals es) refl

  -- The loop begins with the difference of the first key from itself, which has no byte.
  no_diff : (k : ℕ) → length (encode_unsigned (next_diff bits ent k k)) ≡ 0
  no_diff k =
      let same : k + 2 ^ bits - k ≡ 2 ^ bits = omega arith in
      rw (same, mod_self (2 ^ bits), encode_unsigned-zero) refl

  -- For every block that is not empty `encoded_size` is the number of bytes that `encode` writes:
  -- the first key, the coded differences of the others and the values.
  pub encoded_size-encode :
      (key_size val_size : ℕ) (e : E) (es : List E)
      → encoded_size bits ent key_size val_size e es
        ≡ key_size
          + length ((encode bits ent e es).key_bytes)
          + length ((encode bits ent e es).vals) * val_size
  unfolding encoded_size encode
  encoded_size-encode key_size val_size e es =
      rw (no_diff (get_key e), key_sizes-encode_keys (get_key e) es, length-encode_vals es)
        (omega arith)
