-- ===== src/Prelude/Lists.antt =====
-- Lists measured by native numbers, membership tests, and counting by a Boolean test.
use Prim.Native.Nat.{ℕ, zero, suc, ◌+◌, ◌-◌, ◌≤◌, ◌<◌}
use mathlib.Core.Path.{◌≡◌, refl, ◌∙◌}
use mathlib.Core.Bool.{Bool, true, false, ◌||◌}
use mathlib.Core.Option.{Option, none, some}
use mathlib.Core.List.{List, [], ◌∷◌, ◌++◌, Memᴰ, Perm, Permᴰ}
use mathlib.Core.Logic.{∥∥₁_elim, inl, inr}
use native.Mathlib.Nat.{ℕ_set, zero-add, suc-add}
use native.Mathlib.Omega.{arith}
use go_core_x.Prelude.Tests.{Comparable, ◌==◌, if◌then◌else◌, Bool-cases}

module _ {ℓ} {A : Type ℓ} where
  abbrev pub length : List A → ℕ
  length [] = 0
  length (x ∷ xs) = suc (length xs)

  abbrev pub drop : ℕ → List A → List A
  drop zero xs = xs
  drop (suc n) [] = []
  drop (suc n) (x ∷ xs) = drop n xs

  abbrev pub get_last? : List A → Option A
  get_last? [] = none
  get_last? (x ∷ []) = some x
  get_last? (x ∷ y ∷ ys) = get_last? (y ∷ ys)

  -- How many items pass the test.
  abbrev pub count : (A → Bool) → List A → ℕ
  count p [] = 0
  count p (x ∷ xs) = (if p x then 1 else 0) + count p xs

  -- The items that pass the test, in order.
  abbrev pub select : (A → Bool) → List A → List A
  select p [] = []
  select p (x ∷ xs) = let rest = select p xs in if p x then x ∷ rest else rest

  pub length-append : (xs ys : List A) → length (xs ++ ys) ≡ length xs + length ys
  length-append [] ys = omega arith
  length-append (x ∷ xs) ys = omega (arith, length-append xs ys)

  pub length-drop : (n : ℕ) (xs : List A) → length (drop n xs) ≡ length xs - n
  length-drop zero xs = omega arith
  length-drop (suc n) [] = omega arith
  length-drop (suc n) (x ∷ xs) = omega (arith, length-drop n xs)

  pub count-le-length : (p : A → Bool) (xs : List A) → count p xs ≤ length xs
  count-le-length p [] = omega arith
  count-le-length p (x ∷ xs) = ground (arith, count-le-length p xs)

  count-permᴰ : (p : A → Bool) {xs ys : List A} → Permᴰ xs ys → count p xs ≡ count p ys
  count-permᴰ p Permᴰ.nil = refl
  count-permᴰ p (Permᴰ.cons e h) = ground (arith, count-permᴰ p h)
  count-permᴰ p (Permᴰ.swap e f) = ground arith
  count-permᴰ p (Permᴰ.trans h k) = count-permᴰ p h ∙ count-permᴰ p k

  pub count-perm : (p : A → Bool) {xs ys : List A} → Perm xs ys → count p xs ≡ count p ys
  count-perm p {xs} {ys} h = ∥∥₁_elim h (ℕ_set _ _) (count-permᴰ p)

  permᴰ_refl : (xs : List A) → Permᴰ xs xs
  permᴰ_refl [] = Permᴰ.nil
  permᴰ_refl (x ∷ xs) = Permᴰ.cons refl (permᴰ_refl xs)

  pub perm_refl : (xs : List A) → Perm xs xs
  perm_refl xs = ∣ permᴰ_refl xs ∣₁

  count_all : (xs : List A) → count (λ _. true) xs ≡ length xs
  count_all [] = refl
  count_all (x ∷ xs) = omega (arith, count_all xs)

  pub length-perm : {xs ys : List A} → Perm xs ys → length xs ≡ length ys
  length-perm {xs} {ys} h = omega (arith, count_all xs, count_all ys, count-perm (λ _. true) h)

  pub drop-nil : (n : ℕ) → drop n [] ≡ []
  drop-nil zero = refl
  drop-nil (suc n) = refl

  pub drop-drop : (j k : ℕ) (xs : List A) → drop j (drop k xs) ≡ drop (k + j) xs
  drop-drop j zero xs = rw zero-add
  drop-drop j (suc k) [] = rw (drop-nil j, drop-nil (suc k + j))
  drop-drop j (suc k) (x ∷ xs) = rw suc-add (drop-drop j k xs)

  -- Two tests that together pass more items than there are pass one in common.
  pub count_overlap :
      (p q : A → Bool) (xs : List A)
      → length xs < count p xs + count q xs
      → (x : A) × Memᴰ x xs × (p x ≡ true) × (q x ≡ true)
  count_overlap p q [] h = absurd (omega arith)
  count_overlap p q (x ∷ xs) h = elim (Bool-cases (p x)) [
    | inl e ↦ elim (Bool-cases (q x)) [
      | inl f ↦ (x, Memᴰ.head refl, e, f)
      | inr f ↦ later (count_overlap p q xs (ground arith))
    ]
    | inr e ↦ later (count_overlap p q xs (ground arith))
  ]
    where
      later :
          (y : A) × Memᴰ y xs × (p y ≡ true) × (q y ≡ true)
          → (y : A) × Memᴰ y (x ∷ xs) × (p y ≡ true) × (q y ≡ true)
      later (y, m, e, f) = (y, Memᴰ.tail m, e, f)

  -- A test that passes more passes more items.
  pub count_mono :
      (p q : A → Bool) (xs : List A) → ((x : A) → p x ≡ true → q x ≡ true) → count p xs ≤ count q xs
  count_mono p q [] h = omega arith
  count_mono p q (x ∷ xs) h = ground (arith, h x, count_mono p q xs h)

module _ {ℓ} {A : Type ℓ} ⦃e : Comparable A⦄ where
  abbrev pub contains : List A → A → Bool
  contains [] a = false
  contains (x ∷ xs) a = x == a || contains xs a
