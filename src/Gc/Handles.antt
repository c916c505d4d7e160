-- ===== src/Gc/Handles.antt =====
-- include/cpam/gc.h: `ptr`, a pointer with a flag: set, it says that the reference is somebody else's; clear,
-- that the object owns it. dec_if and inc_if are the same on a plain pointer.
use cpam.Base.{ℕ, suc, ◌+◌, ◌≡◌, refl, ap, Bool, true, false, ◌||◌, Option, none, some, ltb, arith}
use cpam.Gc.{Ptr, Heap, live, ref_cnt, increment, decrement, decrement_recursive}
use cpam.Gc.Cells.{points}
use cpam.Gc.Counts.{IsCounted, IsCounted-cong, IsReleased, decrement_recursive-IsReleased}
use cpam.Gc.Copies.{HasRoom, increment_any}

pub record Handle : Type 0 where
  pub p : Ptr
  pub extra : Bool

abbrev moved : Handle
moved = record { p = none; extra = false }

-- The references that an object owns.
abbrev owns_flagged : Ptr → Bool → ℕ → ℕ
owns_flagged t true q = 0
owns_flagged t false q = points t q

abbrev owns : Handle → ℕ → ℕ
owns a q = owns_flagged (a.p) (a.extra) q

module _ {ℓ} {E : Type ℓ} where
  -- What is made of a heap that a step returned.
  abbrev and_handle : Ptr → Option (Heap E) → Option (Heap E × Ptr × Handle)
  and_handle r none = none
  and_handle r (some h) = some (h, r, moved)

  abbrev inc_flagged : Heap E → Ptr → Bool → Option (Heap E)
  inc_flagged h t true = increment h t 1
  inc_flagged h t false = some h

  -- `node_ptr`: the caller gets a reference of its own, and the object is left empty.
  unfoldable node_ptr : Heap E → Handle → Option (Heap E × Ptr × Handle)
  node_ptr h a = and_handle (a.p) (inc_flagged h (a.p) (a.extra))

  abbrev dec_unflagged : Heap E → Ptr → Bool → Option (Heap E)
  dec_unflagged h t true = some h
  dec_unflagged h t false = decrement_recursive (suc (live h)) h t

  -- The destructor.
  unfoldable destroy : Heap E → Handle → Option (Heap E)
  destroy h a = dec_unflagged h (a.p) (a.extra)

  unfoldable requires_copy : Heap E → Handle → Option Bool
  requires_copy h a = elim (ref_cnt h (a.p)) [ none ↦ none | some r ↦ some (a.extra || ltb 1 r) ]

  unfoldable inc_if : Heap E → Ptr → Bool → Option (Heap E)
  inc_if h t copy = inc_flagged h t copy

  abbrev after_decrement : Option (Bool × Heap E) → Option (Heap E)
  after_decrement none = none
  after_decrement (some (freed, h)) = some h

  unfoldable dec_if : Heap E → Ptr → Bool → Bool → Option (Heap E)
  dec_if h t copy true = some h
  dec_if h t true false = decrement_recursive (suc (live h)) h t
  dec_if h t false false = after_decrement (decrement h t)

  dec_unflagged-IsReleased :
      (owned : ℕ → ℕ) (h : Heap E) (t : Ptr) (extra : Bool)
      → IsCounted (λ q. owns_flagged t extra q + owned q) h
      → IsReleased owned h (dec_unflagged h t extra)
  dec_unflagged-IsReleased owned h t true good = record {
    left = h;
    returned = refl;
    good = IsCounted-cong h (λ q. omega arith) good;
    fewer = omega arith;
    kept = λ q r c now. (r, now);
  }
  dec_unflagged-IsReleased owned h t false good =
      decrement_recursive-IsReleased (suc (live h)) owned h t (omega arith) good

  -- Once the object is destroyed its reference is given up.
  destroy-IsReleased :
      (owned : ℕ → ℕ) (h : Heap E) (a : Handle)
      → IsCounted (λ q. owns a q + owned q) h
      → IsReleased owned h (destroy h a)
  unfolding destroy
  destroy-IsReleased owned h a good = dec_unflagged-IsReleased owned h (a.p) (a.extra) good

  record IsOwned (owned : ℕ → ℕ) (t : Ptr) (result : Option (Heap E)) : Type ℓ where
    pub after : Heap E
    pub returned : result ≡ some after
    pub good : IsCounted (λ q. points t q + owned q) after

  inc_flagged-IsOwned :
      (owned : ℕ → ℕ) (h : Heap E) (t : Ptr) (extra : Bool)
      → HasRoom h t
      → IsCounted (λ q. owns_flagged t extra q + owned q) h
      → IsOwned owned t (inc_flagged h t extra)
  inc_flagged-IsOwned owned h t true room good =
      let one = increment_any owned h t room (IsCounted-cong h (λ q. omega arith) good) in
      record { after = one.after; returned = one.returned; good = one.good }
  inc_flagged-IsOwned owned h t false room good = record { after = h; returned = refl; good = good }

  -- Afterwards the caller owns one reference to the node, and the object none.
  record IsTaken (owned : ℕ → ℕ) (a : Handle) (result : Option (Heap E × Ptr × Handle))
      : Type ℓ where
    pub after : Heap E
    pub returned : result ≡ some (after, a.p, moved)
    pub good : IsCounted (λ q. points (a.p) q + owned q) after

  node_ptr-IsTaken :
      (owned : ℕ → ℕ) (h : Heap E) (a : Handle)
      → HasRoom h (a.p)
      → IsCounted (λ q. owns a q + owned q) h
      → IsTaken owned a (node_ptr h a)
  unfolding node_ptr
  node_ptr-IsTaken owned h a room good =
      let taken = inc_flagged-IsOwned owned h (a.p) (a.extra) room good in
      record {
        after = taken.after;
        returned = ap (and_handle (a.p)) (taken.returned);
        good = taken.good;
      }
