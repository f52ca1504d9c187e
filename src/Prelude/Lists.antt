-- ===== src/Prelude/Lists.antt =====
-- Lists over the native numbers, and predicates on lists by recursion.
use Prim.Native.Nat.{ℕ, zero, suc, ◌+◌, ◌≤◌, min}
use mathlib.Core.Path.{◌≡◌, sym, subst}
use mathlib.Core.Logic.{◌⊎◌, inl, inr}
use mathlib.Core.Bool.{Bool, true, false, ◌&&◌, ◌||◌}
use mathlib.Core.List.{List, [], ◌∷◌, ◌++◌}
use native.Mathlib.Omega.{arith}
use agi_inspired.Prelude.Tests.{if◌then◌else◌, Bool-cases}

module _ {ℓ} {A : Type ℓ} where
  abbrev pub length : List A → ℕ
  length [] = 0
  length (x ∷ xs) = suc (length xs)

  abbrev pub take : ℕ → List A → List A
  take zero xs = []
  take (suc n) [] = []
  take (suc n) (x ∷ xs) = x ∷ take n xs

  -- `any` and `all` of Python over a generator, as loops that run in tests.
  unfoldable pub any : (A → Bool) → List A → Bool
  any p [] = false
  any p (x ∷ xs) = p x || any p xs

  unfoldable pub all : (A → Bool) → List A → Bool
  all p [] = true
  all p (x ∷ xs) = p x && all p xs

  -- The elements that pass a test, in order.
  unfoldable pub keep : (A → Bool) → List A → List A
  keep p [] = []
  keep p (x ∷ xs) = let rest = keep p xs in if p x then x ∷ rest else rest

  unfoldable pub count : (A → Bool) → List A → ℕ
  count p [] = 0
  count p (x ∷ xs) = (if p x then 1 else 0) + count p xs

  pub length-append : (xs ys : List A) → length (xs ++ ys) ≡ length xs + length ys
  length-append [] ys = omega arith
  length-append (x ∷ xs) ys = omega (arith, length-append xs ys)

  pub length-take : (n : ℕ) (xs : List A) → length (take n xs) ≡ min n (length xs)
  length-take zero xs = omega arith
  length-take (suc n) [] = omega arith
  length-take (suc n) (x ∷ xs) = omega (arith, length-take n xs)

  pub length-keep-le : (p : A → Bool) (xs : List A) → length (keep p xs) ≤ length xs
  unfolding keep
  length-keep-le p [] = omega arith
  length-keep-le p (x ∷ xs) = ground (arith, length-keep-le p xs)

  pub count-append : (p : A → Bool) (xs ys : List A) → count p (xs ++ ys) ≡ count p xs + count p ys
  unfolding count
  count-append p [] ys = omega arith
  count-append p (x ∷ xs) ys = omega (arith, count-append p xs ys)

-- A property of every element, as a tuple.
abbrev pub All {ℓ κ} : {A : Type ℓ} → (A → Type κ) → List A → Type κ
All P [] = Unit
All P (x ∷ xs) = P x × All P xs

-- An element with a property, as a sum that keeps the element's place.
abbrev pub Any {ℓ} : {A : Type ℓ} → (A → Type 0) → List A → Type 0
Any P [] = ⊥
Any P (x ∷ xs) = P x ⊎ Any P xs

module _ {ℓ} {A : Type ℓ} where
  pub keep-yes : (p : A → Bool) (x : A) (xs : List A) → p x ≡ true → keep p (x ∷ xs) ≡ x ∷ keep p xs
  unfolding keep
  keep-yes p x xs e = rw e

  pub keep-no : (p : A → Bool) (x : A) (xs : List A) → p x ≡ false → keep p (x ∷ xs) ≡ keep p xs
  unfolding keep
  keep-no p x xs e = rw e

  -- What is kept passes the test.
  pub All-keep : (p : A → Bool) (xs : List A) → All (λ x. p x ≡ true) (keep p xs)
  All-keep p [] = unfold keep in tt
  All-keep p (x ∷ xs) = elim (Bool-cases (p x)) [
    | inl e ↦ subst (All (λ y. p y ≡ true)) (sym (keep-yes p x xs e)) (e, All-keep p xs)
    | inr e ↦ subst (All (λ y. p y ≡ true)) (sym (keep-no p x xs e)) (All-keep p xs)
  ]

  -- What holds of every element holds of every element that is kept.
  pub All-keep_of : (P : A → Type 0) (p : A → Bool) (xs : List A) → All P xs → All P (keep p xs)
  All-keep_of P p [] h = unfold keep in tt
  All-keep_of P p (x ∷ xs) h = elim (Bool-cases (p x)) [
    | inl e ↦ subst (All P) (sym (keep-yes p x xs e)) (h.0, All-keep_of P p xs h.1)
    | inr e ↦ subst (All P) (sym (keep-no p x xs e)) (All-keep_of P p xs h.1)
  ]

  -- A property of what is kept and of what fails the test is one of every element.
  pub All-of-keep :
      (p : A → Bool) (P : A → Type 0) (xs : List A)
      → ((x : A) → p x ≡ false → P x)
      → All P (keep p xs)
      → All P xs
  All-of-keep p P [] f h = tt
  All-of-keep p P (x ∷ xs) f h = elim (Bool-cases (p x)) [
    | inl e ↦
        let h' : P x × All P (keep p xs) = subst (All P) (keep-yes p x xs e) h in
        (h'.0, All-of-keep p P xs f h'.1)
    | inr e ↦ (f x e, All-of-keep p P xs f (subst (All P) (keep-no p x xs e) h))
  ]
