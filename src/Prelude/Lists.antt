-- ===== src/Prelude/Lists.antt =====
-- Lists measured, indexed and searched by native numbers, under the library's names.
use Prim.Native.Nat.{◌<◌, ℕ, zero, suc, ◌+◌, ◌≤◌}
use mathlib.Core.Path.{◌≡◌, refl}
use mathlib.Core.Bool.{Bool, true, false, ◌||◌, ◌&&◌}
use mathlib.Core.List.{List, [], ◌∷◌, ◌++◌}
use mathlib.Core.Option.{Option, none, some}
use native.Mathlib.Omega.{arith}
use mathlib.Core.Logic.{inl, inr}
use xerv.Prelude.Tests.{if◌then◌else◌, Bool-cases}
use xerv.Prelude.Eq.{Eq, ◌==◌}

module _ {ℓ} {A : Type ℓ} where
  abbrev pub length : List A → ℕ
  length [] = 0
  length (x ∷ xs) = suc (length xs)

  abbrev pub get_elem? : List A → ℕ → Option A
  get_elem? [] i = none
  get_elem? (x ∷ xs) zero = some x
  get_elem? (x ∷ xs) (suc i) = get_elem? xs i

  -- The elements that pass a test.
  abbrev pub filter_by : (A → Bool) → List A → List A
  filter_by p [] = []
  filter_by p (x ∷ xs) = if p x then x ∷ filter_by p xs else filter_by p xs

  -- How many elements pass a test.
  abbrev pub count_by : (A → Bool) → List A → ℕ
  count_by p [] = 0
  count_by p (x ∷ xs) = (if p x then 1 else 0) + count_by p xs

  abbrev pub all_by : (A → Bool) → List A → Bool
  all_by p [] = true
  all_by p (x ∷ xs) = p x && all_by p xs

  abbrev pub any_by : (A → Bool) → List A → Bool
  any_by p [] = false
  any_by p (x ∷ xs) = p x || any_by p xs

  pub length-append : (xs ys : List A) → length (xs ++ ys) ≡ length xs + length ys
  length-append [] ys = omega arith
  length-append (x ∷ xs) ys = omega (arith, length-append xs ys)

  pub count_by-append :
      (p : A → Bool) (xs ys : List A) → count_by p (xs ++ ys) ≡ count_by p xs + count_by p ys
  count_by-append p [] ys = omega arith
  count_by-append p (x ∷ xs) ys = omega (arith, count_by-append p xs ys)

  pub count_by-le-length : (p : A → Bool) (xs : List A) → count_by p xs ≤ length xs
  count_by-le-length p [] = omega arith
  count_by-le-length p (x ∷ xs) = ground (arith, count_by-le-length p xs)

  pub filter_by-append :
      (p : A → Bool) (xs ys : List A) → filter_by p (xs ++ ys) ≡ filter_by p xs ++ filter_by p ys
  filter_by-append p [] ys = refl
  filter_by-append p (x ∷ xs) ys = ground (arith, filter_by-append p xs ys)

  pub any_by_mono :
      (p q : A → Bool)
      → ((a : A) → p a ≡ true → q a ≡ true)
      → (xs : List A) → any_by p xs ≡ true
      → any_by q xs ≡ true
  any_by_mono p q h [] e = e
  any_by_mono p q h (x ∷ xs) e = ground (arith, h x, any_by_mono p q h xs)

  pub all_by_mono :
      (p q : A → Bool)
      → ((a : A) → p a ≡ true → q a ≡ true)
      → (xs : List A) → all_by p xs ≡ true
      → all_by q xs ≡ true
  all_by_mono p q h [] e = e
  all_by_mono p q h (x ∷ xs) e = ground (arith, h x, all_by_mono p q h xs)

  pub get_elem?-append_left :
      (xs ys : List A) (i : ℕ) {a : A} → get_elem? xs i ≡ some a → get_elem? (xs ++ ys) i ≡ some a
  get_elem?-append_left [] ys i h = ground arith
  get_elem?-append_left (x ∷ xs) ys zero h = h
  get_elem?-append_left (x ∷ xs) ys (suc i) h = get_elem?-append_left xs ys i h

  pub get_elem?-append_length :
      (xs : List A) (a : A) → get_elem? (xs ++ a ∷ []) (length xs) ≡ some a
  get_elem?-append_length [] a = refl
  get_elem?-append_length (x ∷ xs) a = get_elem?-append_length xs a

-- Where a count is positive, an element passes; where it is 0, none does.
module _ {ℓ} {A : Type ℓ} (p : A → Bool) where
  pub count_by-find :
      (xs : List A)
      → 0 < count_by p xs
      → (i : ℕ) × (a : A) × (get_elem? xs i ≡ some a) × (p a ≡ true)
  count_by-find [] h = absurd (omega arith)
  count_by-find (x ∷ xs) h = elim (Bool-cases (p x)) [
    | inl q ↦ (0, x, refl, q)
    | inr q ↦ let (i, a, at, passes) = count_by-find xs (ground arith) in (suc i, a, at, passes)
  ]

  pub count_by-none :
      (xs : List A) (i : ℕ) {a : A} → count_by p xs ≡ 0 → get_elem? xs i ≡ some a → p a ≡ false
  count_by-none [] i h q = ground arith
  count_by-none (x ∷ xs) zero h q = ground arith
  count_by-none (x ∷ xs) (suc i) h q = count_by-none xs i (ground arith) q

-- Membership, number of occurrences and position, for elements with decidable equality.
module _ {ℓ} {A : Type ℓ} ⦃e : Eq A⦄ where
  abbrev pub contains : List A → A → Bool
  contains [] a = false
  contains (x ∷ xs) a = (x == a) || contains xs a

  abbrev pub occurs : A → List A → ℕ
  occurs a [] = 0
  occurs a (x ∷ xs) = (if x == a then 1 else 0) + occurs a xs

  abbrev pub index_of : A → List A → ℕ
  index_of a [] = 0
  index_of a (x ∷ xs) = if x == a then 0 else suc (index_of a xs)

  -- The list without the first occurrence of an element.
  abbrev pub remove_one : A → List A → List A
  remove_one a [] = []
  remove_one a (x ∷ xs) = if x == a then xs else x ∷ remove_one a xs
