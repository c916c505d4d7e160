-- ===== src/Coding/Blocks/Read.antt =====
-- A block with ascending keys is read back entry by entry.
use cpam.Base.{
  ℕ, ◌+◌, ◌-◌, ◌%◌, ◌^◌, ◌<◌, ◌≤◌, ◌≡◌, refl, ap, ◌∙◌, Bool, true, false, Option, none, some, List,
  [], ◌∷◌, if◌then◌else◌, arith,
}
use native.Mathlib.Nat.{mod-eq_of_lt, add-mod_right}
use cpam.Node.{and_then, compressed, iterate_cond}
use cpam.Node
use cpam.Coding.{decode_unsigned}
use cpam.Coding.RoundTrip.{decode_unsigned-encode_unsigned}
use cpam.Coding.Blocks.{
  unless_stopped, next_diff, encode_keys, encode_vals, encode, decode_entries, decode,
  decode_entries_cond, decode_cond, just_found, with_new_vals, updated_vals, update_entries,
  inplace_update, find,
}
use cpam.Map.Search.{find_in_block, matches}
use cpam.Entry.{Entry}

module _ {ℓ μ} {E : Type ℓ} {V : Type μ} (bits : ℕ) (ent : Entry E ℕ V) (narrow : bits ≤ 128) where
  open ent use {
    get_key, get_val, set_val, to_entry, get_key-to_entry, get_val-to_entry, entry_ext,
    get_key-set_val, get_val-set_val,
  }

  -- From a key on the keys of a list get greater, and stay below 2 ^ bits.
  abbrev pub IsAscending : ℕ → List E → Type 0
  IsAscending k [] = Unit
  IsAscending k (e ∷ es) = (k < get_key e) × (get_key e < 2 ^ bits) × IsAscending (get_key e) es

  rebuilt : (e : E) → to_entry (get_key e) (get_val e) ≡ e
  rebuilt e = entry_ext _ e (get_key-to_entry _ _) (get_val-to_entry _ _)

  exact_diff : (a b : ℕ) → a < b → b < 2 ^ bits → next_diff bits ent a b ≡ b - a
  exact_diff a b lt fits =
      let wraps : b + 2 ^ bits - a ≡ (b - a) + 2 ^ bits = omega arith in
      ap (λ n. n % 2 ^ bits) wraps ∙ add-mod_right (b - a) (2 ^ bits) ∙ mod-eq_of_lt (omega arith)

  next_key : (a b : ℕ) → a < b → b < 2 ^ bits → (a + (b - a)) % 2 ^ bits ≡ b
  next_key a b lt fits = ap (λ n. n % 2 ^ bits) (omega arith) ∙ mod-eq_of_lt fits

  -- The key of the next entry is read back.
  read_key :
      (a : ℕ) (e : E) (es : List E)
      → a < get_key e
      → get_key e < 2 ^ bits
      → decode_unsigned bits (encode_keys bits ent a (e ∷ es))
        ≡ some (get_key e - a, encode_keys bits ent (get_key e) es)
  read_key a e es lt fits = rw (exact_diff a (get_key e) lt fits) (
      decode_unsigned-encode_unsigned bits (get_key e - a) (encode_keys bits ent (get_key e) es)
        narrow (omega arith) (omega arith))

  decode_entries-encode_keys {κ} :
      {S : Type κ} (f : S → E → S) (k : ℕ) (es : List E) (s : S)
      → IsAscending k es
      → decode_entries bits ent f k (encode_vals bits ent es) (encode_keys bits ent k es) s
        ≡ some (Node.decode f es s)
  unfolding decode_entries Node.decode
  decode_entries-encode_keys f k [] s h = refl
  decode_entries-encode_keys f k (e ∷ es) s (lt, fits, h) =
      rw (read_key k e es lt fits, next_key k (get_key e) lt fits, rebuilt e)
        (decode_entries-encode_keys f (get_key e) es (f s e) h)

  -- For keys of at most 128 bits and a block of entries with ascending keys of that width: `decode`
  -- of the bytes that `encode` writes hands the callback the entries of the block, each once and in
  -- their order.
  pub decode-encode {κ} :
      {S : Type κ} (f : S → E → S) (e : E) (es : List E) (s : S)
      → IsAscending (get_key e) es
      → decode bits ent f (encode bits ent e es) s ≡ some (Node.decode f (e ∷ es) s)
  unfolding decode encode Node.decode
  decode-encode f e es s h = rw (rebuilt e) (decode_entries-encode_keys f (get_key e) es (f s e) h)

  unless_stopped-some {κ} :
      {S : Type κ} (bs : Bool × S) (rest : S → Option (Bool × S)) (plain : S → Bool × S)
      → ((s : S) → rest s ≡ some (plain s))
      → unless_stopped bs rest ≡ some (and_then bs plain)
  unless_stopped-some (true, s) rest plain h = h s
  unless_stopped-some (false, s) rest plain h = refl

  decode_entries_cond-encode_keys {κ} :
      {S : Type κ} (f : S → E → Bool × S) (k : ℕ) (es : List E)
      → IsAscending k es
      → (s : S)
      → decode_entries_cond bits ent f k (encode_vals bits ent es) (encode_keys bits ent k es) s
        ≡ some (Node.decode_cond f es s)
  unfolding decode_entries_cond Node.decode_cond
  decode_entries_cond-encode_keys f k [] h s = refl
  decode_entries_cond-encode_keys f k (e ∷ es) (lt, fits, h) s =
      rw (read_key k e es lt fits, next_key k (get_key e) lt fits, rebuilt e)
        (unless_stopped-some (f s e) _ (Node.decode_cond f es)
          (decode_entries_cond-encode_keys f (get_key e) es h))

  pub decode_cond-encode {κ} :
      {S : Type κ} (f : S → E → Bool × S) (e : E) (es : List E) (s : S)
      → IsAscending (get_key e) es
      → decode_cond bits ent f (encode bits ent e es) s ≡ some (Node.decode_cond f (e ∷ es) s)
  unfolding decode_cond encode Node.decode_cond
  decode_cond-encode f e es s h = rw (rebuilt e) (
      unless_stopped-some (f s e) _ (Node.decode_cond f es)
        (decode_entries_cond-encode_keys f (get_key e) es h))

  pub find-encode :
      (e : E) (es : List E) (key : ℕ)
      → IsAscending (get_key e) es
      → find bits ent (encode bits ent e es) key
        ≡ some (find_in_block ent (compressed (e ∷ es)) key)
  unfolding find find_in_block iterate_cond
  find-encode e es key h =
      let test : Option E → E → Bool × Option E =
        λ ret et. if matches ent key et then (false, some et) else (true, ret) in
      ap just_found (decode_cond-encode test e es none h)

  -- A list with each value set to what `f` makes of its entry.
  abbrev pub with_vals : (E → V) → List E → List E
  with_vals f [] = []
  with_vals f (e ∷ es) = set_val e (f e) ∷ with_vals f es

  encode_keys-with_vals :
      (f : E → V) (k : ℕ) (es : List E)
      → encode_keys bits ent k (with_vals f es) ≡ encode_keys bits ent k es
  encode_keys-with_vals f k [] = refl
  encode_keys-with_vals f k (e ∷ es) =
      rw (get_key-set_val e (f e), encode_keys-with_vals f (get_key e) es) refl

  update_entries-encode_keys :
      (f : E → V) (k : ℕ) (es : List E)
      → IsAscending k es
      → update_entries bits ent f k (encode_vals bits ent es) (encode_keys bits ent k es)
        ≡ some (encode_vals bits ent (with_vals f es))
  unfolding update_entries
  update_entries-encode_keys f k [] h = refl
  update_entries-encode_keys f k (e ∷ es) (lt, fits, h) =
      rw
        (
          read_key k e es lt fits,
          next_key k (get_key e) lt fits,
          rebuilt e,
          get_val-set_val e (f e),
          update_entries-encode_keys f (get_key e) es h,
        )
        refl

  updated_vals-encode :
      (f : E → V) (e : E) (es : List E)
      → IsAscending (get_key e) es
      → updated_vals bits ent f (encode bits ent e es)
        ≡ some (f e ∷ encode_vals bits ent (with_vals f es))
  unfolding encode
  updated_vals-encode f e es h = rw (rebuilt e, update_entries-encode_keys f (get_key e) es h) refl

  -- `inplace_update` leaves the block of the same keys with the new values.
  pub inplace_update-encode :
      (f : E → V) (e : E) (es : List E)
      → IsAscending (get_key e) es
      → inplace_update bits ent f (encode bits ent e es)
        ≡ some (encode bits ent (set_val e (f e)) (with_vals f es))
  unfolding inplace_update encode
  inplace_update-encode f e es h =
      ap (with_new_vals (encode bits ent e es)) (updated_vals-encode f e es h)
      ∙ rw
          (get_key-set_val e (f e), get_val-set_val e (f e), encode_keys-with_vals f (get_key e) es)
          refl
