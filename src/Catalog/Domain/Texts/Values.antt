-- ===== src/Catalog/Domain/Texts/Values.antt =====
-- Values are read back from their text in crates/stm32wb-catalog/src/domain.rs, and it holds no separator.
use stm32wb_hci.Prelude.{
  ℕ, suc, ◌+◌, ◌^◌, ◌≤◌, ◌<◌, ◌≡◌, ◌≢◌, ◌⊎◌, inl, inr, refl, true, false, Option, none, some, [],
  ◌∷◌, arith, length, leb, ◌==◌, le→leb, lt→ltb,
}
use stm32wb_hci.Prelude.Bytes.{All}
use stm32wb_hci.Prelude.Int.{ℤ, pos, negsuc}
use stm32wb_hci.Prelude.Text.{Text, codes, strip_prefix, strip_prefix-append, All-weaken}
use stm32wb_hci.Prelude.Digits.{from_str_radix, decimal, hexadecimal}
use stm32wb_hci.Prelude.Digits.Lengths.{
  decimal-nonempty, hexadecimal-nonempty, length-hexadecimal_le,
}
use stm32wb_hci.Prelude.Digits.Reading.{
  IsDigit, All-decimal, All-hexadecimal, from_str_radix-decimal, from_str_radix-hexadecimal,
}
use stm32wb_hci.Catalog.Domain.Items.{as_u64}
use stm32wb_hci.Catalog.Domain.Texts.{
  decimal_i64, write_value, all_upper, negated, unsigned, parse_i64, parse_value,
}

-- A value of an i64, and one that is written in hexadecimal.
abbrev pub IsI64 : ℤ → Type 0
IsI64 (pos n) = n < 2 ^ 63
IsI64 (negsuc n) = n < 2 ^ 63

abbrev pub IsWritable : Option ℕ → ℤ → Type 0
IsWritable none value = IsI64 value
IsWritable (some digits) (pos n) = (digits ≤ 16) × (n < 2 ^ 63)
IsWritable (some digits) (negsuc n) = ⊥

-- The digits that a value is read with.
abbrev pub read_digits : Option ℕ → ℤ → Option ℕ
read_digits none value = none
read_digits (some digits) (pos n) = some (length (hexadecimal digits n))
read_digits (some digits) (negsuc n) = none

all_upper-All : (text : Text) → All IsDigit text → all_upper text ≡ true
unfolding all_upper
all_upper-All [] h = refl
all_upper-All (c ∷ text) h = rw (all_upper-All text h.1) (ground (arith, h.0.0, h.0.1, h.0.2))

no_prefix :
    (text : Text) → All IsDigit text → 0 < length text → strip_prefix (codes "0x") text ≡ none
unfolding strip_prefix
no_prefix [] h k = absurd (omega (arith, k))
no_prefix (c ∷ []) h k = ground arith
no_prefix (c ∷ d ∷ text) h k =
    let letter : (120 == d) ≡ false = ground (arith, h.1.0.1) in ground (arith, letter)

parse_i64-decimal : (n : ℕ) → n < 2 ^ 63 → parse_i64 (decimal n) ≡ some (pos n)
parse_i64-decimal n h =
    of_text (decimal n) (All-decimal n) (decimal-nonempty n) (from_str_radix-decimal (2 ^ 63) n h)
  where
    of_text :
        (text : Text)
        → All IsDigit text
        → 0 < length text
        → from_str_radix (2 ^ 63) 10 text ≡ some n
        → parse_i64 text ≡ some (pos n)
    of_text [] d k q = absurd (omega (arith, k))
    of_text (c ∷ text) d k q =
        let other : (c == 45) ≡ false = ground (arith, d.0.0) in
        unfold parse_i64 in rw (other, q) refl

parse_i64-negative : (n : ℕ) → n < 2 ^ 63 → parse_i64 (45 ∷ decimal (suc n)) ≡ some (negsuc n)
unfolding parse_i64
parse_i64-negative n h =
    of_text (decimal (suc n)) (All-decimal (suc n)) (decimal-nonempty (suc n))
      (from_str_radix-decimal (2 ^ 63 + 1) (suc n) (omega (arith, h)))
  where
    of_text :
        (text : Text)
        → All IsDigit text
        → 0 < length text
        → from_str_radix (2 ^ 63 + 1) 10 text ≡ some (suc n)
        → negated (unsigned text) ≡ some (negsuc n)
    of_text [] d k q = absurd (omega (arith, k))
    of_text (c ∷ text) d k q =
        let other : (c == 43) ≡ false = ground (arith, d.0.0) in rw (other, q) refl

-- What is written of a value is read as the value.
pub parse_value-write_value :
    (digits : Option ℕ) (value : ℤ)
    → IsWritable digits value
    → parse_value (write_value digits value) ≡ some (value, read_digits digits value)
unfolding parse_value write_value decimal_i64 as_u64
parse_value-write_value none (pos n) h =
    rw (no_prefix (decimal n) (All-decimal n) (decimal-nonempty n), parse_i64-decimal n h) refl
parse_value-write_value none (negsuc n) h =
    let minus : strip_prefix (codes "0x") (45 ∷ decimal (suc n)) ≡ none =
      unfold strip_prefix in refl in
    rw (minus, parse_i64-negative n h) refl
parse_value-write_value (some digits) (pos n) h =
    let text : Text = hexadecimal digits n in
    let nonempty : (length text == 0) ≡ false = ground (arith, hexadecimal-nonempty digits n) in
    let short : leb (length text) 16 ≡ true =
      le→leb (length text) 16 (length-hexadecimal_le digits n h.0 (omega (arith, h.1))) in
    rw
      (
        strip_prefix-append (codes "0x") text,
        nonempty,
        short,
        from_str_radix-hexadecimal (2 ^ 64) digits n (omega (arith, h.1)),
        lt→ltb n (2 ^ 63) h.1,
        all_upper-All text (All-hexadecimal digits n),
      )
      refl
parse_value-write_value (some digits) (negsuc n) h = elim h [ ]

-- Neither separator begins in the text of a value.
abbrev pub NotSeparator : ℕ → Type 0
NotSeparator c = (c ≢ 46) × (c ≢ 58)

digit-NotSeparator : (c : ℕ) → IsDigit c → NotSeparator c
digit-NotSeparator c h = (omega (arith, h.0), λ e. at_colon h.2 e)
  where
    at_colon : (c ≤ 57) ⊎ (65 ≤ c) → c ≢ 58
    at_colon (inl low) = omega (arith, low)
    at_colon (inr high) = omega (arith, high)

pub write_value-NotSeparator :
    (digits : Option ℕ) (value : ℤ) → All NotSeparator (write_value digits value)
unfolding write_value decimal_i64
write_value-NotSeparator none (pos n) =
    All-weaken IsDigit NotSeparator (decimal n) digit-NotSeparator (All-decimal n)
write_value-NotSeparator none (negsuc n) = (
  (omega arith, omega arith),
  All-weaken IsDigit NotSeparator (decimal (suc n)) digit-NotSeparator (All-decimal (suc n)),
)
write_value-NotSeparator (some digits) value = (
  (omega arith, omega arith),
  (
    (omega arith, omega arith),
    All-weaken IsDigit NotSeparator (hexadecimal digits (as_u64 value)) digit-NotSeparator
        (All-hexadecimal digits (as_u64 value)),
  ),
)
