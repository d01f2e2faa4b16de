-- ===== src/Prelude/Digits/Reading.antt =====
-- A number is read back from its text.
use Prim.Native.Nat.{ℕ, zero, suc, ◌+◌, ◌-◌, ◌*◌, ◌/◌, ◌%◌, ◌≤◌, ◌<◌}
use mathlib.Core.Path.{◌≡◌, refl, ap, ◌∙◌}
use mathlib.Core.Bool.{false}
use mathlib.Core.Option.{Option, none, some}
use mathlib.Core.List.{[], ◌∷◌, ◌++◌}
use native.Mathlib.Omega.{arith}
use native.Mathlib.Nat.{mod-lt, div-add-mod, div-le_self, div-lt_self}
use stm32wb_hci.Prelude.Tests.{◌==◌, Bool-cases, lt→ltb}
use mathlib.Core.Logic.{◌⊎◌, inl, inr}
use stm32wb_hci.Prelude.Lists.{length, replicate, length-append}
use stm32wb_hci.Prelude.Bytes.{All}
use stm32wb_hci.Prelude.Text.{Text, All-append}
use stm32wb_hci.Prelude.Digits.{
  digit_value, next_digit, parse_digits, in_bound, from_str_radix, digit_char, digits_loop, decimal,
  hexadecimal,
}
use stm32wb_hci.Prelude.Digits.Lengths.{digits_loop-nonempty}

digit_value-digit_char :
    (radix d : ℕ) → d < radix → radix ≤ 36 → digit_value radix (digit_char d) ≡ some d
unfolding digit_value digit_char
digit_value-digit_char radix d h small = ground arith

parse_digits-append :
    (radix : ℕ) (xs ys : Text) (acc : Option ℕ)
    → parse_digits radix (xs ++ ys) acc ≡ parse_digits radix ys (parse_digits radix xs acc)
unfolding parse_digits
parse_digits-append radix [] ys acc = refl
parse_digits-append radix (x ∷ xs) ys none = nothing ys
  where
    nothing : (ys : Text) → none ≡ parse_digits radix ys none
    nothing [] = refl
    nothing (y ∷ ys) = refl
parse_digits-append radix (x ∷ xs) ys (some acc) =
    parse_digits-append radix xs ys (next_digit radix acc (digit_value radix x))

module _ (radix : ℕ) (two : 2 ≤ radix) (small : radix ≤ 36) where
  parse-digit_char :
      (acc d : ℕ)
      → d < radix
      → parse_digits radix (digit_char d ∷ []) (some acc) ≡ some (radix * acc + d)
  unfolding parse_digits
  parse-digit_char acc d h = rw (digit_value-digit_char radix d h small) refl

  -- What is written is read back.
  parse-digits_loop :
      (fuel n : ℕ) → n < fuel → parse_digits radix (digits_loop radix fuel n) (some 0) ≡ some n
  unfolding digits_loop
  parse-digits_loop zero n h = absurd (omega (arith, h))
  parse-digits_loop (suc fuel) n h =
      let low : n % radix < radix = mod-lt n {m = radix} (omega (arith, two)) in
      let whole : radix * (n / radix) + n % radix ≡ n = div-add-mod n radix in
      let last : parse_digits radix (digit_char (n % radix) ∷ []) (some (n / radix)) ≡ some n =
        rw (parse-digit_char (n / radix) (n % radix) low, whole) refl in
      elim (Bool-cases (n / radix == 0)) [
        | inl one ↦
            let z : n / radix ≡ 0 = ground (arith, one) in rw (digits_loop, one) (rw z at last)
        | inr more ↦
            let some_quotient : 0 < n / radix = ground (arith, more) in
            let less : n / radix < fuel = omega (
              arith,
              h,
              div-lt_self {n = n} {k = radix} (omega (arith, div-le_self n radix, some_quotient))
                  two,
            ) in
            rw (digits_loop, more, parse_digits-append, parse-digits_loop fuel (n / radix) less)
              last
      ]

-- The characters that numbers are written with: digits and letters in upper case.
abbrev pub IsDigit : ℕ → Type 0
IsDigit c = (48 ≤ c) × (c ≤ 90) × ((c ≤ 57) ⊎ (65 ≤ c))

digit_char-IsDigit : (d : ℕ) → d < 36 → IsDigit (digit_char d)
unfolding digit_char
digit_char-IsDigit d h = ground arith

module _ (radix : ℕ) (two : 2 ≤ radix) (small : radix ≤ 36) where
  All-digits_loop : (fuel n : ℕ) → All IsDigit (digits_loop radix fuel n)
  unfolding digits_loop
  All-digits_loop zero n = tt
  All-digits_loop (suc fuel) n =
      let digit : IsDigit (digit_char (n % radix)) =
        digit_char-IsDigit (n % radix)
          (omega (arith, small, mod-lt n {m = radix} (omega (arith, two)))) in
      elim (Bool-cases (n / radix == 0)) [
        | inl one ↦ rw (digits_loop, one) (digit, tt)
        | inr more ↦
            rw (digits_loop, more)
              (All-append IsDigit (digits_loop radix fuel (n / radix)) (digit_char (n % radix) ∷ [])
                (All-digits_loop fuel (n / radix)) (digit, tt))
      ]

-- A text of digits has no sign.
from_str_radix-digits :
    (bound radix : ℕ) (text : Text)
    → All IsDigit text
    → 0 < length text
    → from_str_radix bound radix text ≡ in_bound bound (parse_digits radix text (some 0))
unfolding from_str_radix
from_str_radix-digits bound radix [] h k = absurd (omega (arith, k))
from_str_radix-digits bound radix (c ∷ []) h k =
    let unsigned : (c == 43) ≡ false = ground (arith, h.0.0) in rw unsigned refl
from_str_radix-digits bound radix (c ∷ d ∷ text) h k =
    let unsigned : (c == 43) ≡ false = ground (arith, h.0.0) in rw unsigned refl

pub All-decimal : (n : ℕ) → All IsDigit (decimal n)
unfolding decimal
All-decimal n = All-digits_loop 10 (omega arith) (omega arith) (suc n) n

-- A number within the bound is read back from its decimal digits.
pub from_str_radix-decimal :
    (bound n : ℕ) → n < bound → from_str_radix bound 10 (decimal n) ≡ some n
unfolding decimal
from_str_radix-decimal bound n h =
    rw
      (
        from_str_radix-digits bound 10 (digits_loop 10 (suc n) n) (All-decimal n)
            (digits_loop-nonempty 10 n n),
        parse-digits_loop 10 (omega arith) (omega arith) (suc n) n (omega arith),
        lt→ltb n bound h,
      )
      refl

zero_digit : (radix : ℕ) → 2 ≤ radix → next_digit radix 0 (digit_value radix 48) ≡ some 0
unfolding digit_value
zero_digit radix h =
    let digit : digit_value radix 48 ≡ some 0 = ground (arith, h) in
    rw digit (ap some (omega arith))

parse_digits-zeros :
    (radix k : ℕ) (text : Text)
    → 2 ≤ radix
    → parse_digits radix (replicate k 48 ++ text) (some 0) ≡ parse_digits radix text (some 0)
unfolding parse_digits
parse_digits-zeros radix zero text h = refl
parse_digits-zeros radix (suc k) text h =
    ap (parse_digits radix (replicate k 48 ++ text)) (zero_digit radix h)
    ∙ parse_digits-zeros radix k text h

All-zeros : (k : ℕ) → All IsDigit (replicate k 48)
All-zeros zero = tt
All-zeros (suc k) = ((omega arith, omega arith, inl (omega arith)), All-zeros k)

pub All-hexadecimal : (width n : ℕ) → All IsDigit (hexadecimal width n)
unfolding hexadecimal
All-hexadecimal width n =
    let written : Text = digits_loop 16 (suc n) n in
    All-append IsDigit (replicate (width - length written) 48) written
      (All-zeros (width - length written))
      (All-digits_loop 16 (omega arith) (omega arith) (suc n) n)

pub from_str_radix-hexadecimal :
    (bound width n : ℕ) → n < bound → from_str_radix bound 16 (hexadecimal width n) ≡ some n
unfolding hexadecimal
from_str_radix-hexadecimal bound width n h =
    let written : Text = digits_loop 16 (suc n) n in
    let k : ℕ = width - length written in
    let nonempty : 0 < length (replicate {A = ℕ} k 48 ++ written) =
      rw (length-append (replicate {A = ℕ} k 48) written)
        (omega (arith, digits_loop-nonempty 16 n n)) in
    rw
      (
        from_str_radix-digits bound 16 (replicate k 48 ++ written) (All-hexadecimal width n)
            nonempty,
        parse_digits-zeros 16 k written (omega arith),
        parse-digits_loop 16 (omega arith) (omega arith) (suc n) n (omega arith),
        lt→ltb n bound h,
      )
      refl
