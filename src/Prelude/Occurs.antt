-- ===== src/Prelude/Occurs.antt =====
-- Numbers of occurrences: how they add up, what they say of membership, and the pigeonhole rule.
use Prim.Native.Nat.{suc, ◌+◌, ◌≤◌, ◌<◌}
use mathlib.Core.Path.{◌≡◌, refl}
use mathlib.Core.Bool.{true, false, ◌||◌}
use mathlib.Core.List.{List, [], ◌∷◌, ◌++◌}
use native.Mathlib.Omega.{arith}
use xerv.Prelude.Tests.{if◌then◌else◌}
use xerv.Prelude.Eq.{Eq, ◌==◌, ==-refl}
use xerv.Prelude.Lists.{length, contains, occurs, remove_one, index_of}

module _ {ℓ} {A : Type ℓ} ⦃e : Eq A⦄ where
  pub occurs-append : (a : A) (xs ys : List A) → occurs a (xs ++ ys) ≡ occurs a xs + occurs a ys
  occurs-append a [] ys = omega arith
  occurs-append a (x ∷ xs) ys = omega (arith, occurs-append a xs ys)

  pub contains-append :
      (a : A) (xs ys : List A) → contains (xs ++ ys) a ≡ (contains xs a || contains ys a)
  contains-append a [] ys = refl
  contains-append a (x ∷ xs) ys = ground (arith, contains-append a xs ys)

  pub contains-snoc :
      (a x : A) (xs : List A) → contains (xs ++ x ∷ []) a ≡ (contains xs a || (x == a))
  contains-snoc a x [] = ground arith
  contains-snoc a x (y ∷ xs) = ground (arith, contains-snoc a x xs)

  pub occurs_pos : (a : A) (xs : List A) → contains xs a ≡ true → 0 < occurs a xs
  occurs_pos a [] h = ground arith
  occurs_pos a (x ∷ xs) h = ground (arith, occurs_pos a xs)

  pub occurs_zero : (a : A) (xs : List A) → contains xs a ≡ false → occurs a xs ≡ 0
  occurs_zero a [] h = refl
  occurs_zero a (x ∷ xs) h = ground (arith, occurs_zero a xs)

  pub contains_of_occurs : (a : A) (xs : List A) → 0 < occurs a xs → contains xs a ≡ true
  contains_of_occurs a [] h = ground arith
  contains_of_occurs a (x ∷ xs) h = ground (arith, contains_of_occurs a xs)

  length-remove_one :
      (a : A) (xs : List A) → 0 < occurs a xs → length xs ≡ suc (length (remove_one a xs))
  length-remove_one a [] h = ground arith
  length-remove_one a (x ∷ xs) h = ground (arith, length-remove_one a xs)

  occurs-remove_one :
      (a b : A) (xs : List A)
      → 0 < occurs a xs
      → occurs b xs ≡ (if a == b then 1 else 0) + occurs b (remove_one a xs)
  occurs-remove_one a b [] h = ground arith
  occurs-remove_one a b (x ∷ xs) h =
      ground (arith, occurs-remove_one a b xs, e.same_iff a b, e.same_iff x a, e.same_iff x b)

  -- A list whose elements occur at least as often in another is no longer than that.
  pub length-le_of_occurs :
      (xs ys : List A) → ((a : A) → occurs a xs ≤ occurs a ys) → length xs ≤ length ys
  length-le_of_occurs [] ys h = omega arith
  length-le_of_occurs (x ∷ xs) ys h =
      let here : 0 < occurs x ys = ground (arith, h x, ==-refl x) in
      let rest =
        length-le_of_occurs xs (remove_one x ys)
          (λ a. ground (arith, h a, occurs-remove_one x a ys here)) in
      ground (arith, rest, length-remove_one x ys here)

  -- If it is as long too, every element occurs as often in both.
  pub occurs-eq_of_length :
      (xs ys : List A)
      → ((a : A) → occurs a xs ≤ occurs a ys)
      → length xs ≡ length ys
      → (a : A) → occurs a xs ≡ occurs a ys
  occurs-eq_of_length [] [] h l a = refl
  occurs-eq_of_length [] (y ∷ ys) h l a = absurd (omega arith)
  occurs-eq_of_length (x ∷ xs) ys h l a =
      let here : 0 < occurs x ys = ground (arith, h x, ==-refl x) in
      let rest =
        occurs-eq_of_length xs (remove_one x ys)
          (λ b. ground (arith, h b, occurs-remove_one x b ys here))
          (ground (arith, length-remove_one x ys here)) a in
      ground (arith, rest, occurs-remove_one x a ys here)

  pub index_of-append_left :
      (a : A) (xs ys : List A) → contains xs a ≡ true → index_of a (xs ++ ys) < length xs
  index_of-append_left a [] ys h = ground arith
  index_of-append_left a (x ∷ xs) ys h = ground (arith, index_of-append_left a xs ys)

  pub index_of-append_right :
      (a : A) (xs ys : List A) → contains xs a ≡ false → length xs ≤ index_of a (xs ++ ys)
  index_of-append_right a [] ys h = omega arith
  index_of-append_right a (x ∷ xs) ys h = ground (arith, index_of-append_right a xs ys)
