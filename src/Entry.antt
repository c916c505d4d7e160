-- ===== src/Entry.antt =====
-- The Entry parameter of the maps (map_full_entry and set_full_entry of include/cpam/map.h): how a key
-- and a value are read from an entry, and the order of keys. The user's comparison is a parameter; the
-- laws are those that a sorted container asks of it, with keys that are neither less nor greater read
-- as equal. `le` is the operator <= of the key type, which left, right and range use in blocks; that it
-- agrees with `comp` is no law here but a hypothesis of the theorems on them.
pub mod Refines
pub mod Sides
pub mod Sorted
use cpam.Base.{◌≡◌, Bool, true, false, not, refl, ℕ, ltb, leb, arith}

pub record IsLawful {ℓ κ μ} {E : Type ℓ} {K : Type κ} {V : Type μ} (get_key : E → K)
    (get_val : E → V) (set_val : E → V → E) (to_entry : K → V → E) (comp : K → K → Bool)
    : Type (ℓ ⊔ κ ⊔ μ) where
  pub get_key-set_val : (e : E) (v : V) → get_key (set_val e v) ≡ get_key e
  pub get_val-set_val : (e : E) (v : V) → get_val (set_val e v) ≡ v
  pub get_key-to_entry : (k : K) (v : V) → get_key (to_entry k v) ≡ k
  pub get_val-to_entry : (k : K) (v : V) → get_val (to_entry k v) ≡ v
  pub entry_ext : (a b : E) → get_key a ≡ get_key b → get_val a ≡ get_val b → a ≡ b
  pub comp_irrefl : (a : K) → comp a a ≡ false
  pub comp_trans : (a b c : K) → comp a b ≡ true → comp b c ≡ true → comp a c ≡ true
  pub comp_total : (a b : K) → comp a b ≡ false → comp b a ≡ false → a ≡ b

pub record Entry {ℓ κ μ} (E : Type ℓ) (K : Type κ) (V : Type μ) : Type (ℓ ⊔ κ ⊔ μ) where
  pub get_key : E → K
  pub get_val : E → V
  pub set_val : E → V → E
  pub to_entry : K → V → E
  pub comp : K → K → Bool
  pub le : K → K → Bool
  pub lawful : IsLawful get_key get_val set_val to_entry comp
  pub open lawful use *

pub pair-IsLawful : IsLawful {E = ℕ × ℕ} (λ e. e.0) (λ e. e.1) (λ e v. (e.0, v)) (λ k v. (k, v)) ltb
pair-IsLawful = record {
  get_key-set_val = λ e v. refl;
  get_val-set_val = λ e v. refl;
  get_key-to_entry = λ k v. refl;
  get_val-to_entry = λ k v. refl;
  entry_ext = λ a b p q. ground arith;
  comp_irrefl = λ a. ground arith;
  comp_trans = λ a b c p q. ground arith;
  comp_total = λ a b p q. ground arith;
}

-- `map_full_entry` for the natural order of numbers, for runs on concrete maps.
abbrev pub pair_entry : Entry (ℕ × ℕ) ℕ ℕ
pair_entry = record {
  get_key = λ e. e.0;
  get_val = λ e. e.1;
  set_val = λ e v. (e.0, v);
  to_entry = λ k v. (k, v);
  comp = ltb;
  le = leb;
  lawful = pair-IsLawful;
}

-- `set_full_entry`: an entry is just its key, in the order of another entry type's keys.
abbrev pub key_entry {ℓ κ μ} :
    {E : Type ℓ} {K : Type κ} {V : Type μ} → Entry E K V → Entry K K (Unit {0})
key_entry ent = record {
  get_key = λ k. k;
  get_val = λ k. tt;
  set_val = λ k v. k;
  to_entry = λ k v. k;
  comp = ent.comp;
  le = ent.le;
  lawful = record {
    get_key-set_val = λ k v. refl;
    get_val-set_val = λ k v. refl;
    get_key-to_entry = λ k v. refl;
    get_val-to_entry = λ k v. refl;
    entry_ext = λ a b p q. p;
    comp_irrefl = ent.comp_irrefl;
    comp_trans = ent.comp_trans;
    comp_total = ent.comp_total;
  };
}
