-- ===== src/Presentation/Exceptions/Fuel.antt =====
-- The fuel of the two loops on fuel is enough: more of it changes nothing.
use Prim.Native.Nat.{◌/◌}
use ndma_edit.Prelude.{ℕ, zero, suc, ◌<◌, Bool-cases, inl, inr, ltb, ◌≡◌, refl, arith}
use ndma_edit.Presentation.Exceptions.{
  ExceptionClass, exception, ancestors, mro, decimal_digits, decimal,
}

-- No class has more than four classes in its chain.
pub ancestors-mro : (n : ℕ) (c : ExceptionClass) → ancestors (suc (suc (suc (suc n)))) c ≡ mro c
unfolding ancestors mro
ancestors-mro n exception = refl
ancestors-mro n _ = refl

-- Two amounts of fuel beyond the number write the same digits.
decimal_digits-enough : (f g n : ℕ) → n < f → n < g → decimal_digits f n ≡ decimal_digits g n
unfolding decimal_digits
decimal_digits-enough zero g n h k = ground arith
decimal_digits-enough (suc f) zero n h k = ground arith
decimal_digits-enough (suc f) (suc g) n h k = elim (Bool-cases (ltb n 10)) [
  | inl small ↦ rw small refl
  | inr large ↦ rw (large, decimal_digits-enough f g (n / 10) (ground arith) (ground arith)) refl
]

pub decimal_digits-decimal : (f n : ℕ) → n < f → decimal_digits f n ≡ decimal n
unfolding decimal
decimal_digits-decimal f n h = decimal_digits-enough f (suc n) n h (omega arith)
