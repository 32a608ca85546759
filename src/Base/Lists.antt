-- ===== src/Base/Lists.antt =====
-- Lists measured and indexed by native numbers, under the library's names, and sums over ranges.
use Prim.Native.Nat.{ℕ, zero, suc, ◌+◌, ◌<◌}
use mathlib.Core.Path.{◌≡◌, refl, ap}
use mathlib.Core.List.{List, [], ◌∷◌, ◌++◌, map}
use mathlib.Core.Option.{Option, none, some}
use native.Mathlib.Omega.{arith}

module _ {ℓ} {A : Type ℓ} where
  abbrev pub length : List A → ℕ
  length [] = 0
  length (x ∷ xs) = suc (length xs)

  abbrev pub get_elem? : List A → ℕ → Option A
  get_elem? [] i = none
  get_elem? (x ∷ xs) zero = some x
  get_elem? (x ∷ xs) (suc i) = get_elem? xs i

  abbrev pub take : ℕ → List A → List A
  take zero xs = []
  take (suc n) [] = []
  take (suc n) (x ∷ xs) = x ∷ take n xs

  abbrev pub drop : ℕ → List A → List A
  drop zero xs = xs
  drop (suc n) [] = []
  drop (suc n) (x ∷ xs) = drop n xs

-- f i + f (i + 1) + ... + f (i + n - 1)
abbrev pub sum_range : ℕ → ℕ → (ℕ → ℕ) → ℕ
sum_range zero i f = 0
sum_range (suc n) i f = f i + sum_range n (i + 1) f

-- The sum of a weight over a list.
abbrev pub sum_of {ℓ} : {A : Type ℓ} → (A → ℕ) → List A → ℕ
sum_of f [] = 0
sum_of f (x ∷ xs) = f x + sum_of f xs

pub sum_of-append {ℓ} :
    {A : Type ℓ} (f : A → ℕ) (xs ys : List A) → sum_of f (xs ++ ys) ≡ sum_of f xs + sum_of f ys
sum_of-append f [] ys = omega arith
sum_of-append f (x ∷ xs) ys = omega (arith, sum_of-append f xs ys)

pub sum_range-cong :
    (n q : ℕ) (f g : ℕ → ℕ) → ((i : ℕ) → i < q + n → f i ≡ g i) → sum_range n q f ≡ sum_range n q g
sum_range-cong zero q f g h = refl
sum_range-cong (suc n) q f g h =
    omega (arith, h q (omega arith), sum_range-cong n (q + 1) f g (λ i l. h i (omega arith)))

pub sum_range-zero : (n q : ℕ) (f : ℕ → ℕ) → ((i : ℕ) → f i ≡ 0) → sum_range n q f ≡ 0
sum_range-zero zero q f h = refl
sum_range-zero (suc n) q f h = omega (arith, h q, sum_range-zero n (q + 1) f h)

pub length-map {ℓ κ} :
    {A : Type ℓ} {B : Type κ} (f : A → B) (xs : List A) → length (map f xs) ≡ length xs
length-map f [] = refl
length-map f (x ∷ xs) = ap suc (length-map f xs)
