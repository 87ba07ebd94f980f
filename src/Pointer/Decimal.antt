-- ===== src/Pointer/Decimal.antt =====
-- Decimal texts read back as the number that they print.
use rekuest_next.Prelude.{
  ℕ, zero, suc, ◌+◌, ◌-◌, ◌*◌, ◌/◌, ◌%◌, ◌≤◌, ◌<◌, ◌≡◌, refl, sym, ap, ◌∙◌, inl, inr, [], ◌∷◌,
  arith, ltb, Bool-cases,
}
use rekuest_next.Pointer.{Text, decimal_loop, decimal}

-- The number that a text of digits stands for, after the digits read so far.
pub read_digits : ℕ → Text → ℕ
read_digits acc [] = acc
read_digits acc (d ∷ s) = read_digits (10 * acc + (d - b'0')) s

read_digits-decimal_loop :
    (f n : ℕ) (acc : Text) → n < f → read_digits 0 (decimal_loop f n acc) ≡ read_digits n acc
unfolding decimal_loop read_digits
read_digits-decimal_loop zero n acc h = elim h [ ]
read_digits-decimal_loop (suc f) n acc h = elim (Bool-cases (ltb n 10)) [
  | inl small ↦ rw small (ap (λ m. read_digits m acc) (omega arith))
  | inr large ↦ rw large (
      read_digits-decimal_loop f (n / 10) ((b'0' + n % 10) ∷ acc) (ground arith)
      ∙ ap (λ m. read_digits m acc) (omega arith))
]

-- Reading back a printed number gives the number.
pub read_digits-decimal : (n : ℕ) → read_digits 0 (decimal n) ≡ n
unfolding decimal
read_digits-decimal n =
    read_digits-decimal_loop (suc n) n [] (omega arith) ∙ unfold read_digits in refl

pub decimal_injective : (m n : ℕ) → decimal m ≡ decimal n → m ≡ n
decimal_injective m n e = sym (read_digits-decimal m) ∙ ap (read_digits 0) e ∙ read_digits-decimal n

-- Characters that may stand in a printed natural number.
abbrev pub Digits : Text → Type 0
Digits [] = Unit
Digits (d ∷ s) = (b'0' ≤ d) × (d ≤ b'9') × Digits s

decimal_loop-Digits : (f n : ℕ) (acc : Text) → Digits acc → Digits (decimal_loop f n acc)
unfolding decimal_loop
decimal_loop-Digits zero n acc h = h
decimal_loop-Digits (suc f) n acc h = elim (Bool-cases (ltb n 10)) [
  | inl small ↦ rw small (ground arith, ground arith, h)
  | inr large ↦ rw large (decimal_loop-Digits f (n / 10) _ (omega arith, omega arith, h))
]

pub decimal-Digits : (n : ℕ) → Digits (decimal n)
unfolding decimal
decimal-Digits n = decimal_loop-Digits (suc n) n [] tt
