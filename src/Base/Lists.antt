-- ===== src/Base/Lists.antt =====
-- Lists indexed by native numbers, and lists read off an indexed family.
use Prim.Native.Nat.{ℕ, zero, suc, ◌+◌, ◌<◌}
use mathlib.Core.Path.{◌≡◌, refl, ap, ap₂, ◌∙◌}
use mathlib.Core.Option.{Option, none, some}
use mathlib.Core.Bool.{Bool, true, false}
use nfv.Base.Tests.{if◌then◌else◌}
use mathlib.Core.List.{List, [], ◌∷◌, ◌++◌}
use native.Mathlib.Omega.{arith}

module _ {ℓ} {A : Type ℓ} where
  abbrev pub length : List A → ℕ
  length [] = 0
  length (x ∷ xs) = suc (length xs)

  pub length-append : (xs ys : List A) → length (xs ++ ys) ≡ length xs + length ys
  length-append [] ys = omega arith
  length-append (x ∷ xs) ys = omega (arith, length-append xs ys)

  -- `[f 0, ..., f (n - 1)]`
  abbrev pub tabulate : ℕ → (ℕ → A) → List A
  tabulate zero f = []
  tabulate (suc n) f = f 0 ∷ tabulate n (λ i. f (suc i))

  pub length-tabulate : (n : ℕ) (f : ℕ → A) → length (tabulate n f) ≡ n
  length-tabulate zero f = refl
  length-tabulate (suc n) f = ap suc (length-tabulate n (λ i. f (suc i)))

  pub tabulate_congr :
      (n : ℕ) (f g : ℕ → A) → ((i : ℕ) → i < n → f i ≡ g i) → tabulate n f ≡ tabulate n g
  tabulate_congr zero f g h = refl
  tabulate_congr (suc n) f g h =
      ap₂ ◌∷◌ (h 0 (omega arith))
        (tabulate_congr n (λ i. f (suc i)) (λ i. g (suc i)) (λ i p. h (suc i) (omega arith)))

  pub tabulate-add :
      (m n : ℕ) (f : ℕ → A) → tabulate (m + n) f ≡ tabulate m f ++ tabulate n (λ i. f (m + i))
  tabulate-add zero n f =
      ap (λ k. tabulate k f) e ∙ tabulate_congr n f _ (λ i _. ap f (omega arith))
    where
      e : 0 + n ≡ n
      e = omega arith
  tabulate-add (suc m) n f =
      ap (λ k. tabulate k f) e
      ∙ ap (◌∷◌ (f 0)) (
          tabulate-add m n (λ i. f (suc i))
          ∙ ap (◌++◌ (tabulate m (λ i. f (suc i))))
              (tabulate_congr n _ _ (λ i _. ap f (omega arith))))
    where
      e : suc m + n ≡ suc (m + n)
      e = omega arith

  abbrev pub take : ℕ → List A → List A
  take zero xs = []
  take (suc n) [] = []
  take (suc n) (x ∷ xs) = x ∷ take n xs

  abbrev pub drop : ℕ → List A → List A
  drop zero xs = xs
  drop (suc n) [] = []
  drop (suc n) (x ∷ xs) = drop n xs

  pub take-tabulate_append :
      (n : ℕ) (f : ℕ → A) (ys : List A) → take n (tabulate n f ++ ys) ≡ tabulate n f
  take-tabulate_append zero f ys = refl
  take-tabulate_append (suc n) f ys = ap (◌∷◌ (f 0)) (take-tabulate_append n (λ i. f (suc i)) ys)

  pub drop-tabulate_append : (n : ℕ) (f : ℕ → A) (ys : List A) → drop n (tabulate n f ++ ys) ≡ ys
  drop-tabulate_append zero f ys = refl
  drop-tabulate_append (suc n) f ys = drop-tabulate_append n (λ i. f (suc i)) ys

  -- The entries that pass a test, in order.
  abbrev pub filter : (A → Bool) → List A → List A
  filter p [] = []
  filter p (x ∷ xs) = if p x then x ∷ filter p xs else filter p xs

  pub filter-append :
      (p : A → Bool) (xs ys : List A) → filter p (xs ++ ys) ≡ filter p xs ++ filter p ys
  filter-append p [] ys = refl
  filter-append p (x ∷ xs) ys = joined (p x) (filter-append p xs ys)
    where
      joined :
          (b : Bool)
          → filter p (xs ++ ys) ≡ filter p xs ++ filter p ys
          → (if b then x ∷ filter p (xs ++ ys) else filter p (xs ++ ys))
            ≡ (if b then x ∷ filter p xs else filter p xs) ++ filter p ys
      joined true e = ap (◌∷◌ x) e
      joined false e = e

  -- The entry at an index.
  abbrev pub get_elem? : List A → ℕ → Option A
  get_elem? [] i = none
  get_elem? (x ∷ xs) zero = some x
  get_elem? (x ∷ xs) (suc i) = get_elem? xs i

  -- `v.erase(v.begin() + i)`
  abbrev pub erase_at : ℕ → List A → List A
  erase_at i [] = []
  erase_at zero (x ∷ xs) = xs
  erase_at (suc i) (x ∷ xs) = x ∷ erase_at i xs
