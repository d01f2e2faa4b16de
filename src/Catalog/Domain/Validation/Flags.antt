-- ===== src/Catalog/Domain/Validation/Flags.antt =====
-- The flags that `validate_domain` of crates/stm32wb-catalog/src/domain.rs takes: single bits, and zero.
use Prim.Native.Nat.{bit_and}
use native.Mathlib.Nat.{pow-suc}
use native.Mathlib.Decide.{dec_lt}
use stm32wb_hci.Prelude.{
  ℕ, zero, suc, ◌-◌, ◌*◌, ◌/◌, ◌%◌, ◌^◌, ◌≤◌, ◌<◌, ◌≡◌, ◌⊎◌, inl, inr, ◌↔◌, refl, ap, ◌∙◌, true,
  false, arith,
}
use stm32wb_hci.Prelude.Int.{ℤ, pos, negsuc, pos_part, neg_part, leb_ℤ}
use stm32wb_hci.Prelude.Bits.{bit_and_digit, bit_and-⊑}
use stm32wb_hci.Catalog.Domain.Items.{as_u64}
use stm32wb_hci.Catalog.Domain.Validation.{several_bits}

abbrev IsPower : ℕ → Type 0
IsPower x = (k : ℕ) × (x ≡ 2 ^ k)

-- `x & (x - 1)` clears the lowest bit of `x`.
clear_even : (x : ℕ) → 0 < x → x % 2 ≡ 0 → bit_and x (x - 1) ≡ bit_and (x / 2) (x / 2 - 1) * 2
clear_even x h even =
    let half : (x - 1) / 2 ≡ x / 2 - 1 = omega (arith, h, even) in
    bit_and_digit x (x - 1) ∙ rw half (omega (arith, even))

clear_odd : (x : ℕ) → x % 2 ≡ 1 → bit_and x (x - 1) ≡ x / 2 * 2
clear_odd x odd =
    let half : (x - 1) / 2 ≡ x / 2 = omega (arith, odd) in
    let itself : bit_and (x / 2) (x / 2) ≡ x / 2 = bit_and-⊑ (x / 2) (x / 2) (λ i. omega arith) in
    bit_and_digit x (x - 1) ∙ rw (half, itself) (omega (arith, odd))

bit_and-IsPower : (n x : ℕ) → x ≤ n → 0 < x → bit_and x (x - 1) ≡ 0 → IsPower x
bit_and-IsPower zero x small h e = absurd (omega (arith, small, h))
bit_and-IsPower (suc n) x small h e = elim (dec_lt 0 (x % 2)) [
  | yes odd ↦ let one : x ≡ 1 = omega (arith, odd, e, clear_odd x (omega (arith, odd))) in (0, one)
  | no even ↦
      let low : x % 2 ≡ 0 = omega (arith, even) in
      let (k, half) =
        bit_and-IsPower n (x / 2) (omega (arith, small, h)) (omega (arith, h, low))
          (omega (arith, e, clear_even x h low)) in
      (suc k, omega (arith, half, low, pow-suc 2 k))
]

power_pos : (k : ℕ) → 0 < 2 ^ k
power_pos zero = omega arith
power_pos (suc k) = omega (arith, pow-suc 2 k, power_pos k)

of_power : (k : ℕ) → bit_and (2 ^ k) (2 ^ k - 1) ≡ 0
of_power zero = refl
of_power (suc k) =
    let even : 2 ^ suc k % 2 ≡ 0 = omega (arith, pow-suc 2 k) in
    let half : 2 ^ suc k / 2 ≡ 2 ^ k = omega (arith, pow-suc 2 k) in
    clear_even (2 ^ suc k) (power_pos (suc k)) even ∙ rw half (omega (arith, of_power k))

clear_iff : (x : ℕ) → 0 < x → (bit_and x (x - 1) ≡ 0) ↔ IsPower x
clear_iff x h = (bit_and-IsPower x x (omega arith) h, λ p. rw p.1 (of_power p.0))

-- Zero, a power of two, or the least i64, which is its sign bit.
abbrev pub IsSingleBit : ℤ → Type 0
IsSingleBit v = (v ≡ pos 0) ⊎ ((k : ℕ) × (v ≡ pos (2 ^ k))) ⊎ (v ≡ negsuc 0x7fffffffffffffff)

le-power : (n k : ℕ) → n ≤ k → 2 ^ n ≤ 2 ^ k
le-power zero k h = power_pos k
le-power (suc n) zero h = absurd (omega (arith, h))
le-power (suc n) (suc k) h =
    omega (arith, le-power n k (omega (arith, h)), pow-suc 2 n, pow-suc 2 k)

power-le : (n k : ℕ) → 2 ^ n ≤ 2 ^ k → n ≤ k
power-le zero k h = omega arith
power-le (suc n) zero h = absurd (omega (arith, h, pow-suc 2 n, power_pos n))
power-le (suc n) (suc k) h =
    omega (arith, power-le n k (omega (arith, h, pow-suc 2 n, pow-suc 2 k)))

-- The bits of a negative i64.
negative_iff :
    (n : ℕ)
    → n ≤ 0x7fffffffffffffff
    → (bit_and (2 ^ 64 - 1 - n) (2 ^ 64 - 1 - n - 1) ≡ 0) ↔ (n ≡ 0x7fffffffffffffff)
negative_iff n small = (
  λ e.
      let (k, same) = (clear_iff (2 ^ 64 - 1 - n) (omega (arith, small))).0 e in
      let least : 63 ≤ k = power-le 63 k (omega (arith, small, same)) in top k n small same least,
  λ same. rw same refl,
)
  where
    top :
        (k n : ℕ)
        → n ≤ 0x7fffffffffffffff
        → 2 ^ 64 - 1 - n ≡ 2 ^ k
        → 63 ≤ k
        → n ≡ 0x7fffffffffffffff
    top k n small same least = elim (dec_lt 63 k) [
      | no exact ↦
          let here : k ≡ 63 = omega (arith, least, exact) in
          let value : 2 ^ k ≡ 2 ^ 63 = ap (λ e. 2 ^ e) here in omega (arith, small, same, value)
      | yes above ↦
          let big : 2 ^ 64 ≤ 2 ^ k = le-power 64 k (omega (arith, above)) in
          absurd (omega (arith, small, same, big))
    ]

pub several_bits_iff :
    (v : ℤ) → leb_ℤ (negsuc 0x7fffffffffffffff) v ≡ true → (several_bits v ≡ false) ↔ IsSingleBit v
unfolding several_bits as_u64 pos_part neg_part
several_bits_iff (pos zero) h = (λ e. inl refl, λ s. refl)
several_bits_iff (pos (suc n)) h =
    let clear = clear_iff (suc n) (omega arith) in
    (
      λ e. let (k, same) = clear.0 (ground (arith, e)) in inr (inl (k, ap pos same)),
      λ s. elim s [
        | inl z ↦ cc
        | inr (inl (k, same)) ↦
            let here : suc n ≡ 2 ^ k = ap pos_part same in
            let cleared = clear.1 (k, here) in ground (arith, cleared)
        | inr (inr least) ↦ cc
      ],
    )
several_bits_iff (negsuc n) h =
    let clear = negative_iff n (ground (arith, h)) in
    (
      λ e. inr (inr (ap negsuc (clear.0 (ground (arith, e))))),
      λ s. elim s [
        | inl z ↦ cc
        | inr (inl (k, same)) ↦ cc
        | inr (inr least) ↦
            let here : suc n ≡ 0x8000000000000000 = ap neg_part least in
            let cleared = clear.1 (omega (arith, here)) in ground (arith, cleared)
      ],
    )
