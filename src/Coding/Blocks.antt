-- ===== src/Coding/Blocks.antt =====
-- include/cpam/compression.h: diffencoded_entry_encoder. Keys are unsigned words of `bits` bits. A block
-- that is not empty is data[0] and the entries behind it.
pub mod Read
pub mod Size
use cpam.Base.{
  ℕ, ◌+◌, ◌-◌, ◌*◌, ◌%◌, ◌^◌, Bool, true, false, Option, none, some, List, [], ◌∷◌, ◌++◌, length,
  if◌then◌else◌,
}
use cpam.Node.{and_then}
use cpam.Coding.{encode_unsigned, decode_unsigned}
use cpam.Entry.{Entry}
use cpam.Map.Search.{matches}

-- The bytes of a block: the values, the first key, and the coded differences of the others.
pub record Block {μ} (V : Type μ) : Type μ where
  pub vals : List V
  pub first_key : ℕ
  pub key_bytes : List ℕ

-- What follows a key that was read, where there was one.
abbrev pub then_read {κ} : {S : Type κ} → Option (ℕ × List ℕ) → (ℕ → List ℕ → Option S) → Option S
then_read none next = none
then_read (some (diff, rest)) next = next diff rest

-- A test that may stop a walk, then the rest of the walk, which may read past the end.
abbrev pub unless_stopped {κ} :
    {S : Type κ} → Bool × S → (S → Option (Bool × S)) → Option (Bool × S)
unless_stopped (true, s) rest = rest s
unless_stopped (false, s) rest = some (false, s)

-- `ret` after a walk.
abbrev pub just_found {κ} : {S : Type κ} → Option (Bool × S) → Option S
just_found none = none
just_found (some (go_on, ret)) = some ret

-- A new value before those of the other entries.
abbrev pub and_next {μ} : {V : Type μ} → V → Option (List V) → Option (List V)
and_next w none = none
and_next w (some ws) = some (w ∷ ws)

-- A block with its values overwritten.
abbrev pub with_new_vals {μ} : {V : Type μ} → Block V → Option (List V) → Option (Block V)
with_new_vals b none = none
with_new_vals b (some ws) =
    some (record { vals = ws; first_key = b.first_key; key_bytes = b.key_bytes })

module _ {ℓ μ} {E : Type ℓ} {V : Type μ} (bits : ℕ) (ent : Entry E ℕ V) where
  open ent use {get_key, get_val, to_entry}

  -- `cur_key - prev_key` on K.
  abbrev pub next_diff : ℕ → ℕ → ℕ
  next_diff prev_key cur_key = (cur_key + 2 ^ bits - prev_key) % 2 ^ bits

  -- The bytes of the differences of keys, each from the one before it.
  abbrev pub encode_keys : ℕ → List E → List ℕ
  encode_keys prev_key [] = []
  encode_keys prev_key (e ∷ es) =
      encode_unsigned (next_diff prev_key (get_key e)) ++ encode_keys (get_key e) es

  abbrev pub encode_vals : List E → List V
  encode_vals [] = []
  encode_vals (e ∷ es) = get_val e ∷ encode_vals es

  unfoldable pub encode : E → List E → Block V
  encode e es = record {
    vals = encode_vals (e ∷ es);
    first_key = get_key e;
    key_bytes = encode_keys (get_key e) es;
  }

  -- The loop of `encoded_size` from prev_key on: the lengths of the coded differences.
  abbrev pub key_sizes : ℕ → List E → ℕ
  key_sizes prev_key [] = 0
  key_sizes prev_key (e ∷ es) =
      length (encode_unsigned (next_diff prev_key (get_key e))) + key_sizes (get_key e) es

  -- With keys and values of key_size and val_size bytes. The loop starts at data[0] itself.
  unfoldable pub encoded_size : ℕ → ℕ → E → List E → ℕ
  encoded_size key_size val_size e es =
      key_size + key_sizes (get_key e) (e ∷ es) + length (e ∷ es) * val_size

  -- The loop of `decode`, given the callback on its captured state; none where it reads past the end
  -- of the key bytes.
  unfoldable pub decode_entries {κ} :
      {S : Type κ} → (S → E → S) → ℕ → List V → List ℕ → S → Option S
  decode_entries f prev_key [] bytes s = some s
  decode_entries f prev_key (v ∷ vs) bytes s = then_read (decode_unsigned bits bytes) λ diff rest.
      let key = (prev_key + diff) % 2 ^ bits in decode_entries f key vs rest (f s (to_entry key v))

  unfoldable pub decode {κ} : {S : Type κ} → (S → E → S) → Block V → S → Option S
  decode f b s =
      let k = b.first_key in
      elim b.vals [ [] ↦ none | ◌∷◌ v vs ↦ decode_entries f k vs b.key_bytes (f s (to_entry k v)) ]

  -- The loop of `decode_cond`, which stops at the first entry that the callback refuses.
  unfoldable pub decode_entries_cond {κ} :
      {S : Type κ} → (S → E → Bool × S) → ℕ → List V → List ℕ → S → Option (Bool × S)
  decode_entries_cond f prev_key [] bytes s = some (true, s)
  decode_entries_cond f prev_key (v ∷ vs) bytes s =
      then_read (decode_unsigned bits bytes) λ diff rest.
        let key = (prev_key + diff) % 2 ^ bits in
        unless_stopped (f s (to_entry key v)) (decode_entries_cond f key vs rest)

  unfoldable pub decode_cond {κ} :
      {S : Type κ} → (S → E → Bool × S) → Block V → S → Option (Bool × S)
  decode_cond f b s =
      let k = b.first_key in
      elim b.vals [
        | [] ↦ none
        | ◌∷◌ v vs ↦ unless_stopped (f s (to_entry k v)) (decode_entries_cond f k vs b.key_bytes)
      ]

  -- The loop of `inplace_update`: the new values.
  unfoldable pub update_entries : (E → V) → ℕ → List V → List ℕ → Option (List V)
  update_entries f prev_key [] bytes = some []
  update_entries f prev_key (v ∷ vs) bytes = then_read (decode_unsigned bits bytes) λ diff rest.
      let key = (prev_key + diff) % 2 ^ bits in
      and_next (f (to_entry key v)) (update_entries f key vs rest)

  -- The values of a block from its first key on, given to the loop.
  abbrev pub updated_vals : (E → V) → Block V → Option (List V)
  updated_vals f b =
      let k = b.first_key in
      elim b.vals [
        | [] ↦ none
        | ◌∷◌ v vs ↦ and_next (f (to_entry k v)) (update_entries f k vs b.key_bytes)
      ]

  unfoldable pub inplace_update : (E → V) → Block V → Option (Block V)
  inplace_update f b = with_new_vals b (updated_vals f b)

  -- `find`, with the callback `test`.
  unfoldable pub find : Block V → ℕ → Option (Option E)
  find b key =
      just_found (
        decode_cond (λ ret et. if matches ent key et then (false, some et) else (true, ret)) b none)
