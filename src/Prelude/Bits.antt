-- ===== src/Prelude/Bits.antt =====
-- Laws of `&` and `|` by the lowest binary digit, and masks as sets of bits.
use Prim.Native.Nat.{
  ℕ, zero, suc, ◌+◌, ◌-◌, ◌*◌, ◌/◌, ◌%◌, ◌^◌, ◌≤◌, ◌<◌, min, max, bit_and, bit_or, bit_and-bitwise,
  bit_or-bitwise, digits,
}
use mathlib.Core.Path.{◌≡◌, refl}
use mathlib.Core.Logic.{◌↔◌}
use native.Mathlib.Omega.{arith}
use native.Mathlib.Decide.{dec_lt}
use native.Mathlib.Nat.{pow-suc}

-- The count of digits that the native `&` is defined by may be any bound of the first number.
and_count : ℕ → ℕ → ℕ → ℕ
and_count n a b = digits (λ _. 0) min n a b

and_count-suc :
    (n a b : ℕ) → and_count (suc n) a b ≡ and_count n (a / 2) (b / 2) * 2 + min (a % 2) (b % 2)
unfolding and_count
and_count-suc zero zero b = omega arith
and_count-suc (suc n) zero b = omega arith
and_count-suc n (suc a) b = refl

and_count-eq : (n m a b : ℕ) → a ≤ n → a ≤ m → and_count n a b ≡ and_count m a b
and_count-eq zero zero a b p q = refl
and_count-eq zero (suc m) zero b p q = unfold and_count in refl
and_count-eq zero (suc m) (suc a) b p q = absurd (omega arith)
and_count-eq (suc n) zero zero b p q = unfold and_count in refl
and_count-eq (suc n) zero (suc a) b p q = absurd (omega arith)
and_count-eq (suc n) (suc m) a b p q = omega (
  arith,
  and_count-suc n a b,
  and_count-suc m a b,
  and_count-eq n m (a / 2) (b / 2) (omega arith) (omega arith),
)

bit_and-count : (a b : ℕ) → bit_and a b ≡ and_count a a b
unfolding and_count
bit_and-count a b = bit_and-bitwise a b

-- One digit of `&`.
pub bit_and_digit : (a b : ℕ) → bit_and a b ≡ bit_and (a / 2) (b / 2) * 2 + min (a % 2) (b % 2)
bit_and_digit a b = omega (
  arith,
  bit_and-count a b,
  bit_and-count (a / 2) (b / 2),
  and_count-suc a a b,
  and_count-eq a (suc a) a b (omega arith) (omega arith),
  and_count-eq a (a / 2) (a / 2) (b / 2) (omega arith) (omega arith),
)

or_count : ℕ → ℕ → ℕ → ℕ
or_count n a b = digits (λ d. d) max n a b

or_count-suc :
    (n a b : ℕ) → or_count (suc n) a b ≡ or_count n (a / 2) (b / 2) * 2 + max (a % 2) (b % 2)
unfolding or_count
or_count-suc zero zero b = omega arith
or_count-suc (suc n) zero b = omega arith
or_count-suc n (suc a) b = refl

or_count-eq : (n m a b : ℕ) → a ≤ n → a ≤ m → or_count n a b ≡ or_count m a b
or_count-eq zero zero a b p q = refl
or_count-eq zero (suc m) zero b p q = unfold or_count in refl
or_count-eq zero (suc m) (suc a) b p q = absurd (omega arith)
or_count-eq (suc n) zero zero b p q = unfold or_count in refl
or_count-eq (suc n) zero (suc a) b p q = absurd (omega arith)
or_count-eq (suc n) (suc m) a b p q = omega (
  arith,
  or_count-suc n a b,
  or_count-suc m a b,
  or_count-eq n m (a / 2) (b / 2) (omega arith) (omega arith),
)

bit_or-count : (a b : ℕ) → bit_or a b ≡ or_count a a b
unfolding or_count
bit_or-count a b = bit_or-bitwise a b

-- One digit of `|`.
pub bit_or_digit : (a b : ℕ) → bit_or a b ≡ bit_or (a / 2) (b / 2) * 2 + max (a % 2) (b % 2)
bit_or_digit a b = omega (
  arith,
  bit_or-count a b,
  bit_or-count (a / 2) (b / 2),
  or_count-suc a a b,
  or_count-eq a (suc a) a b (omega arith) (omega arith),
  or_count-eq a (a / 2) (a / 2) (b / 2) (omega arith) (omega arith),
)

-- The bit of a number at a position.
unfoldable pub bit : ℕ → ℕ → ℕ
bit zero x = x % 2
bit (suc i) x = bit i (x / 2)

-- Every bit of `x` is one of `m`.
infix 50 ◌⊑◌
abbrev pub ◌⊑◌ : ℕ → ℕ → Type 0
x ⊑ m = (i : ℕ) → bit i x ≤ bit i m

pub bit-bit_and : (i a b : ℕ) → bit i (bit_and a b) ≡ min (bit i a) (bit i b)
unfolding bit
bit-bit_and zero a b = omega (arith, bit_and_digit a b)
bit-bit_and (suc i) a b =
    let half : bit_and a b / 2 ≡ bit_and (a / 2) (b / 2) = omega (arith, bit_and_digit a b) in
    rw half (bit-bit_and i (a / 2) (b / 2))

pub bit-bit_or : (i a b : ℕ) → bit i (bit_or a b) ≡ max (bit i a) (bit i b)
unfolding bit
bit-bit_or zero a b = omega (arith, bit_or_digit a b)
bit-bit_or (suc i) a b =
    let half : bit_or a b / 2 ≡ bit_or (a / 2) (b / 2) = omega (arith, bit_or_digit a b) in
    rw half (bit-bit_or i (a / 2) (b / 2))

pub bit-zero : (i : ℕ) → bit i 0 ≡ 0
unfolding bit
bit-zero zero = refl
bit-zero (suc i) = bit-zero i

pub bit-le : (i x : ℕ) → bit i x ≤ 1
unfolding bit
bit-le zero x = omega arith
bit-le (suc i) x = bit-le i (x / 2)

bit_and_none : (b : ℕ) → bit_and 0 b ≡ 0
unfolding and_count
bit_and_none b = bit_and-count 0 b

-- Numbers below `2 ^ w` with the same bits are equal.
pub bit-ext : (w x y : ℕ) → x < 2 ^ w → y < 2 ^ w → ((i : ℕ) → bit i x ≡ bit i y) → x ≡ y
unfolding bit
bit-ext zero x y hx hy h = omega arith
bit-ext (suc w) x y hx hy h =
    let high : x / 2 ≡ y / 2 =
      bit-ext w (x / 2) (y / 2) (omega (arith, pow-suc 2 w)) (omega (arith, pow-suc 2 w))
        (λ i. h (suc i)) in
    omega (arith, high, h 0)

-- `x & !m` of a `w`-bit integer is 0 exactly when `m` has every bit of `x`.
pub and_not_iff : (w x m : ℕ) → x < 2 ^ w → m < 2 ^ w → (bit_and x (2 ^ w - 1 - m) ≡ 0) ↔ (x ⊑ m)
unfolding bit
and_not_iff zero x m hx hm =
    let x0 : x ≡ 0 = omega arith in
    rw x0 (λ h i. omega (arith, bit-zero i), λ h. bit_and_none (0 - m))
and_not_iff (suc w) x m hx hm =
    let half : (2 ^ suc w - 1 - m) / 2 ≡ 2 ^ w - 1 - m / 2 = omega (arith, pow-suc 2 w) in
    let low : (2 ^ suc w - 1 - m) % 2 ≡ 1 - m % 2 = omega (arith, pow-suc 2 w) in
    let step : bit_and x (2 ^ suc w - 1 - m)
        ≡ bit_and (x / 2) (2 ^ w - 1 - m / 2) * 2 + min (x % 2) (1 - m % 2) =
      rw (← half, ← low) (bit_and_digit x (2 ^ suc w - 1 - m)) in
    let (to, from) =
      and_not_iff w (x / 2) (m / 2) (omega (arith, pow-suc 2 w)) (omega (arith, pow-suc 2 w)) in
    (
      λ h. elim [ zero ↦ omega (arith, step) | suc i ↦ to (omega (arith, step)) i ],
      λ h. omega (arith, step, from (λ i. h (suc i)), h 0),
    )

bit_and-le_count : (n a b : ℕ) → a ≤ n → bit_and a b ≤ a
bit_and-le_count zero a b h = let a0 : a ≡ 0 = omega arith in rw a0 (omega (arith, bit_and_none b))
bit_and-le_count (suc n) a b h =
    omega (arith, bit_and_digit a b, bit_and-le_count n (a / 2) (b / 2) (omega arith))

pub bit_and-le : (a b : ℕ) → bit_and a b ≤ a
bit_and-le a b = bit_and-le_count a a b (omega arith)

⊑-half : (x m : ℕ) → x ⊑ m → (x / 2) ⊑ (m / 2)
unfolding bit
⊑-half x m h i = h (suc i)

⊑-low : (x m : ℕ) → x ⊑ m → x % 2 ≤ m % 2
unfolding bit
⊑-low x m h = h 0

bit_and-⊑_count : (n x m : ℕ) → x ≤ n → x ⊑ m → bit_and x m ≡ x
bit_and-⊑_count zero x m h s = let x0 : x ≡ 0 = omega arith in rw x0 (bit_and_none m)
bit_and-⊑_count (suc n) x m h s = omega (
  arith,
  bit_and_digit x m,
  ⊑-low x m s,
  bit_and-⊑_count n (x / 2) (m / 2) (omega arith) (⊑-half x m s),
)

-- A subset of a mask is what the mask keeps of it.
pub bit_and-⊑ : (x m : ℕ) → x ⊑ m → bit_and x m ≡ x
bit_and-⊑ x m = bit_and-⊑_count x x m (omega arith)

pub ⊑-bit_and : (a m : ℕ) → bit_and a m ⊑ m
⊑-bit_and a m i = omega (arith, bit-bit_and i a m)

below_count : (n c d x : ℕ) → c ≤ n → c ⊑ d → x ⊑ d → x < c → x ≤ bit_and (c - 1) d
below_count zero c d x h sc sx lt = absurd (omega arith)
below_count (suc n) c d x h sc sx lt = elim (dec_lt 0 (c % 2)) [
  | yes odd ↦
      let half : (c - 1) / 2 ≡ c / 2 = omega arith in
      let keep : bit_and ((c - 1) / 2) (d / 2) ≡ c / 2 =
        rw half (bit_and-⊑ (c / 2) (d / 2) (⊑-half c d sc)) in
      omega (arith, bit_and_digit (c - 1) d, keep)
  | no even ↦
      let half : (c - 1) / 2 ≡ c / 2 - 1 = omega arith in
      let keep : x / 2 ≤ bit_and ((c - 1) / 2) (d / 2) = rw half (
        below_count n (c / 2) (d / 2) (x / 2) (omega arith) (⊑-half c d sc) (⊑-half x d sx)
          (omega arith)) in
      omega (arith, bit_and_digit (c - 1) d, keep, ⊑-low x d sx)
]

-- Between a subset `c` of `d` and `(c - 1) & d` there is no other subset of `d`.
pub subset_below : (c d x : ℕ) → c ⊑ d → x ⊑ d → x < c → x ≤ bit_and (c - 1) d
subset_below c d x = below_count c c d x (omega arith)

pub ⊑-zero : (m : ℕ) → 0 ⊑ m
⊑-zero m i = omega (arith, bit-zero i)

bit_and-le_right_count : (n a b : ℕ) → a ≤ n → bit_and a b ≤ b
bit_and-le_right_count zero a b h =
    let a0 : a ≡ 0 = omega arith in rw a0 (omega (arith, bit_and_none b))
bit_and-le_right_count (suc n) a b h =
    omega (arith, bit_and_digit a b, bit_and-le_right_count n (a / 2) (b / 2) (omega arith))

pub ⊑-le : (x m : ℕ) → x ⊑ m → x ≤ m
⊑-le x m s = omega (arith, bit_and-⊑ x m s, bit_and-le_right_count x x m (omega arith))

bit_and-⊑_comm_count : (n x m : ℕ) → x ≤ n → x ⊑ m → bit_and m x ≡ x
bit_and-⊑_comm_count zero x m h s =
    let x0 : x ≡ 0 = omega arith in
    rw x0 (omega (arith, bit_and-le_right_count m m 0 (omega arith)))
bit_and-⊑_comm_count (suc n) x m h s = omega (
  arith,
  bit_and_digit m x,
  ⊑-low x m s,
  bit_and-⊑_comm_count n (x / 2) (m / 2) (omega arith) (⊑-half x m s),
)

pub bit_and-⊑_comm : (x m : ℕ) → x ⊑ m → bit_and m x ≡ x
bit_and-⊑_comm x m = bit_and-⊑_comm_count x x m (omega arith)
