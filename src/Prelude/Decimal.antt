-- ===== src/Prelude/Decimal.antt =====
-- `str` of a natural number. The fuel is the number itself, which `number-decimal` shows is enough.
use Prim.Native.Nat.{ℕ, zero, suc, ◌+◌, ◌-◌, ◌*◌, ◌/◌, ◌%◌, ◌≤◌}
use mathlib.Core.Path.{◌≡◌, refl, ◌∙◌}
use mathlib.Core.Logic.{inl, inr}
use mathlib.Core.List.{[], ◌∷◌, ◌++◌}
use native.Mathlib.Omega.{arith}
use ragra_reminder.Prelude.Tests.{Text, ltb, if◌then◌else◌, Bool-cases}

digits : ℕ → ℕ → Text
digits zero n = (48 + n) ∷ []
digits (suc fuel) n =
    let front = digits fuel (n / 10) in
    if ltb n 10 then (48 + n) ∷ [] else front ++ (48 + n % 10) ∷ []

pub decimal : ℕ → Text
unfolding digits
decimal n = digits n n

-- The number that a text of digits stands for, after those read before it.
pub number : ℕ → Text → ℕ
number before [] = before
number before (c ∷ s) = number (before * 10 + (c - 48)) s

number-append :
    (before : ℕ) (s : Text) (c : ℕ) → number before (s ++ c ∷ []) ≡ number before s * 10 + (c - 48)
unfolding number
number-append before [] c = refl
number-append before (d ∷ s) c = number-append (before * 10 + (d - 48)) s c

number-digits : (fuel n : ℕ) → n ≤ fuel → number 0 (digits fuel n) ≡ n
unfolding number digits
number-digits zero n h = omega arith
number-digits (suc fuel) n h = elim (Bool-cases (ltb n 10)) [
  | inl small ↦ rw small (omega arith)
  | inr large ↦ rw large (
      number-append 0 (digits fuel (n / 10)) (48 + n % 10)
      ∙ ground (arith, number-digits fuel (n / 10) (ground arith)))
]

pub number-decimal : (n : ℕ) → number 0 (decimal n) ≡ n
unfolding decimal
number-decimal n = number-digits n n (omega arith)
