-- ===== src/Search.antt =====
-- include/cpam/utils.h: PAM_linear_search and PAM_binary_search. An array and a length are the list of
-- the elements that they span; the constant _binary_search_base of parlay is the parameter `base`.
pub mod Agree
use cpam.Base.{
  ℕ, zero, suc, ◌+◌, ◌/◌, Bool, List, [], ◌∷◌, ltb, if◌then◌else◌, not, length, cut, with_cut,
}

module _ {ℓ} {A : Type ℓ} (less : A → Bool) where
  -- The position of the first element that is not less, or else the length.
  unfoldable pub linear_search : List A → ℕ
  linear_search [] = 0
  linear_search (x ∷ xs) = let rest = linear_search xs in if not (less x) then 0 else suc rest

  -- The loop on A[start..end), on fuel; its result is counted from start.
  unfoldable pub binary_search_loop : ℕ → ℕ → List A → ℕ
  binary_search_loop base zero xs = linear_search xs
  binary_search_loop base (suc fuel) xs =
      let halves =
        with_cut 0
          (λ front x back.
            let in_front = binary_search_loop base fuel front in
            let behind = length front + 1 + binary_search_loop base fuel back in
            if not (less x) then in_front else behind)
          (cut (length xs / 2) xs) in
      if ltb base (length xs) then halves else linear_search xs

  -- Each turn halves the span.
  unfoldable pub binary_search : ℕ → List A → ℕ
  binary_search base xs = binary_search_loop base (length xs) xs
