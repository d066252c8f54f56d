-- ===== src/Prelude/Fractions.antt =====
-- Fractions and their order; a denominator is not zero.
use Prim.Native.Nat.{ℕ, ◌+◌, ◌*◌, ◌≤◌, ◌<◌}
use mathlib.Core.Path.{◌≡◌}
use mathlib.Core.Logic.{inl, inr}
use mathlib.Core.Bool.{Bool, false}
use native.Mathlib.Omega.{arith}
use vrrelay.Prelude.Tests.{ltb, ltb→lt, Bool-cases}
use vrrelay.Prelude.Sorting.{IsOrder}

pub record Fraction : Type 0 where
  pub num : ℕ
  pub den : ℕ

abbrev pub less : Fraction → Fraction → Bool
less p q = ltb (p.num * q.den) (q.num * p.den)

scaled : (s a b : ℕ) → a ≤ b → s * a ≤ s * b
scaled s a b h = grind arith

pub mul_positive : (a b : ℕ) → 0 < a → 0 < b → 0 < a * b
mul_positive a b h k = omega (arith, scaled a 1 b (omega arith))

less-transitive :
    (p q r : Fraction) → 0 < q.den → less q p ≡ false → less r q ≡ false → less r p ≡ false
less-transitive p q r positive h k = elim (Bool-cases (less r p)) [
  | inr n ↦ n
  | inl y ↦ absurd (
      omega (
        arith,
        positive,
        scaled q.den (r.num * p.den + 1) (p.num * r.den) (omega (arith, ltb→lt _ _ y)),
        scaled r.den (p.num * q.den) (q.num * p.den) (ground (arith, h)),
        scaled p.den (q.num * r.den) (r.num * q.den) (ground (arith, k)),
      ))
]

-- The descending order by a score.
pub less-IsOrder :
    {A : Type 0} (f : A → Fraction) → ((a : A) → 0 < (f a).den) → IsOrder (λ a b. less (f b) (f a))
less-IsOrder f positive = record {
  irreflexive = λ a. ground arith;
  asymmetric = λ a b h. ground (arith, h);
  transitive = λ a b c h k. less-transitive (f c) (f b) (f a) (positive b) k h;
}

-- The ascending one.
pub less-IsOrder_ascending :
    {A : Type 0} (f : A → Fraction) → ((a : A) → 0 < (f a).den) → IsOrder (λ a b. less (f a) (f b))
less-IsOrder_ascending f positive = record {
  irreflexive = λ a. ground arith;
  asymmetric = λ a b h. ground (arith, h);
  transitive = λ a b c h k. less-transitive (f a) (f b) (f c) (positive b) h k;
}
