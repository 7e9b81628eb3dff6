-- ===== src/Prelude/Eq.antt =====
-- Decidable equality as an interface: what a key of a map or an element of a set provides.
use Prim.Native.Nat.{ℕ}
use Prim.Native.String.{String}
use mathlib.Core.Path.{◌≡◌, refl}
use mathlib.Core.Logic.{◌↔◌, ◌≢◌}
use mathlib.Core.Bool.{Bool, true, false, ◌&&◌}
use text.Mathlib.Text.{◌==◌ as str_beq}
use text.Mathlib.TextEquality.{eq_iff}
use xerv.Prelude.Tests.{nat_beq, nat_beq_iff}
use native.Mathlib.Omega.{arith}

pub record Eq {ℓ} (K : Type ℓ) : Type ℓ where
  pub same : K → K → Bool
  pub same_iff : (x y : K) → (same x y ≡ true) ↔ (x ≡ y)

infix 50 ◌==◌
abbrev pub ◌==◌ {ℓ} : {K : Type ℓ} ⦃keys : Eq K⦄ → K → K → Bool
◌==◌ ⦃keys⦄ x y = keys.same x y

abbrev pub pair_same {ℓ κ} :
    {J : Type ℓ} {K : Type κ} ⦃left : Eq J⦄ ⦃right : Eq K⦄ → J × K → J × K → Bool
pair_same (x, y) (x', y') = (x == x') && (y == y')

pub pair_same_iff {ℓ κ} :
    {J : Type ℓ} {K : Type κ} ⦃left : Eq J⦄ ⦃right : Eq K⦄ (p q : J × K)
    → (pair_same p q ≡ true) ↔ (p ≡ q)
pair_same_iff ⦃left⦄ ⦃right⦄ (x, y) (x', y') =
    ground (arith, left.same_iff x x', right.same_iff y y')

instance abbrev pub pair_eq {ℓ κ} :
    {J : Type ℓ} {K : Type κ} ⦃left : Eq J⦄ ⦃right : Eq K⦄ → Eq (J × K)
pair_eq = record { same = pair_same; same_iff = pair_same_iff }

instance abbrev pub string_eq : Eq String
string_eq = record { same = str_beq; same_iff = eq_iff }

instance abbrev pub nat_eq : Eq ℕ
nat_eq = record { same = nat_beq; same_iff = nat_beq_iff }

module _ {ℓ} {A : Type ℓ} ⦃e : Eq A⦄ where
  pub ==-refl : (a : A) → (a == a) ≡ true
  ==-refl a = (e.same_iff a a).1 refl

  pub ==-ne : (a b : A) → a ≢ b → (a == b) ≡ false
  ==-ne a b h = ground (arith, e.same_iff a b, h)

  pub ==→eq : (a b : A) → (a == b) ≡ true → a ≡ b
  ==→eq a b = (e.same_iff a b).0
