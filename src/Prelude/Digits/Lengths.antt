-- ===== src/Prelude/Digits/Lengths.antt =====
-- How long the text of a number is.
use Prim.Native.Nat.{ℕ, zero, suc, ◌-◌, ◌/◌, ◌%◌, ◌^◌, ◌≤◌, ◌<◌}
use mathlib.Core.Path.{◌≡◌}
use mathlib.Core.Bool.{true}
use mathlib.Core.List.{[], ◌∷◌}
use native.Mathlib.Omega.{arith}
use native.Mathlib.Nat.{pow-suc}
use stm32wb_hci.Prelude.Tests.{◌==◌, Bool-cases}
use mathlib.Core.Logic.{inl, inr}
use stm32wb_hci.Prelude.Lists.{length, replicate, length-append, length-replicate}
use stm32wb_hci.Prelude.Text.{Text}
use stm32wb_hci.Prelude.Digits.{digit_char, digits_loop, decimal, hexadecimal}

pub digits_loop-nonempty : (radix fuel n : ℕ) → 0 < length (digits_loop radix (suc fuel) n)
unfolding digits_loop
digits_loop-nonempty radix fuel n = elim (Bool-cases (n / radix == 0)) [
  | inl one ↦ rw (digits_loop, one) (omega arith)
  | inr more ↦
      rw
        (
          digits_loop,
          more,
          length-append (digits_loop radix fuel (n / radix)) (digit_char (n % radix) ∷ []),
        )
        (omega arith)
]

length-digits_loop :
    (width fuel n : ℕ) → n < 16 ^ suc width → length (digits_loop 16 fuel n) ≤ suc width
unfolding digits_loop
length-digits_loop width zero n h = omega arith
length-digits_loop zero (suc fuel) n h =
    let one : (n / 16 == 0) ≡ true = ground (arith, pow-suc 16 0, h) in
    rw (digits_loop, one) (omega arith)
length-digits_loop (suc width) (suc fuel) n h = elim (Bool-cases (n / 16 == 0)) [
  | inl one ↦ rw (digits_loop, one) (omega arith)
  | inr more ↦
      let fits : n / 16 < 16 ^ suc width = omega (arith, pow-suc 16 (suc width), h) in
      rw
        (digits_loop, more, length-append (digits_loop 16 fuel (n / 16)) (digit_char (n % 16) ∷ []))
        (omega (arith, length-digits_loop width fuel (n / 16) fits))
]

-- A number that fits `suc width` hexadecimal digits is written with as many.
pub length-hexadecimal :
    (width n : ℕ) → n < 16 ^ suc width → length (hexadecimal (suc width) n) ≡ suc width
unfolding hexadecimal
length-hexadecimal width n h =
    let written : Text = digits_loop 16 (suc n) n in
    let k : ℕ = suc width - length written in
    rw (length-append (replicate {A = ℕ} k 48) written, length-replicate {A = ℕ} k 48)
      (omega (arith, length-digits_loop width (suc n) n h))

pub decimal-nonempty : (n : ℕ) → 0 < length (decimal n)
unfolding decimal
decimal-nonempty n = digits_loop-nonempty 10 n n

-- Up to 64 bits, at most 16 digits or as many as the width.
pub length-hexadecimal_le :
    (width n : ℕ) → width ≤ 16 → n < 2 ^ 64 → length (hexadecimal width n) ≤ 16
unfolding hexadecimal
length-hexadecimal_le width n h k =
    let written : Text = digits_loop 16 (suc n) n in
    let blank : ℕ = width - length written in
    rw (length-append (replicate {A = ℕ} blank 48) written, length-replicate {A = ℕ} blank 48)
      (omega (arith, h, length-digits_loop 15 (suc n) n (omega (arith, k))))

pub hexadecimal-nonempty : (width n : ℕ) → 0 < length (hexadecimal width n)
unfolding hexadecimal
hexadecimal-nonempty width n =
    let written : Text = digits_loop 16 (suc n) n in
    rw (length-append (replicate {A = ℕ} (width - length written) 48) written)
      (omega (arith, digits_loop-nonempty 16 n n))
