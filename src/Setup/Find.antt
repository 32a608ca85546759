-- ===== src/Setup/Find.antt =====
-- The search of `onic_arr_find` (onic_main.c).
use onic_driver.Base.{
  ℕ, zero, suc, ◌+◌, ◌<◌, ◌≡◌, ◌≢◌, ◌∙◌, refl, ap, inl, inr, false, Bool-cases, ◌==◌, ==→eq, eq→==,
  List, [], ◌∷◌, get_elem?, some, arith,
}
use onic_driver.Base.Int.{ℤ, pos, negsuc, to_u32}
use onic_driver.Setup.{find_loop, onic_arr_find}

-- The result of a search through the first `n` elements: the first place of `x`, counted from `i`, or
-- -1 where there is none.
pub data Found (arr : List ℕ) (n i x : ℕ) (ret : ℤ) : Type 0 where
  at :
      (k : ℕ)
      → ret ≡ pos (i + k)
      → k < n
      → get_elem? arr k ≡ some x
      → ((j : ℕ) → j < k → get_elem? arr j ≢ some x)
      → Found arr n i x ret
  nowhere : ret ≡ negsuc 0 → ((j : ℕ) → j < n → get_elem? arr j ≢ some x) → Found arr n i x ret

some-injective : {a b : ℕ} → some a ≡ some b → a ≡ b
some-injective e = cc

find_loop-Found : (arr : List ℕ) (n i x : ℕ) → Found arr n i x (find_loop arr n i x)
find_loop-Found arr zero i x = nowhere refl (λ j l. absurd (omega arith))
find_loop-Found [] (suc n) i x = nowhere refl (λ j l e. cc)
find_loop-Found (y ∷ arr) (suc n) i x = elim (Bool-cases (y == x)) [
  | inl same ↦ rw same (
      at 0 (ap pos (omega arith)) (omega arith) (ap some (==→eq y x same))
        (λ j l. absurd (omega arith)))
  | inr other ↦ rw other (elim (find_loop-Found arr n (i + 1) x) [
    | at k e l g f ↦ at (suc k) (e ∙ ap pos (omega arith)) (omega arith) g (earlier k other f)
    | nowhere e f ↦ nowhere e (earlier n other f)
  ])
]
  where
    earlier :
        (k : ℕ)
        → (y == x) ≡ false
        → ((j : ℕ) → j < k → get_elem? arr j ≢ some x)
        → (j : ℕ) → j < suc k
        → get_elem? (y ∷ arr) j ≢ some x
    earlier k other f zero l e = cc (eq→== y x (some-injective e))
    earlier k other f (suc j) l e = f j (omega arith) e

-- `onic_arr_find` returns the first of the first `n` places where the array holds the element, as an
-- `unsigned int`, and -1 exactly where there is no such place.
pub onic_arr_find-Found :
    (arr : List ℕ) (n : ℕ) (element : ℤ)
    → Found arr n 0 (to_u32 element) (onic_arr_find arr n element)
unfolding onic_arr_find
onic_arr_find-Found arr n element = find_loop-Found arr n 0 (to_u32 element)
