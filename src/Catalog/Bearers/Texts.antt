-- ===== src/Catalog/Bearers/Texts.antt =====
-- A bearer is read back from its text in crates/stm32wb-catalog/src/lib.rs.
use stm32wb_hci.Prelude.{ℕ, ◌^◌, ◌<◌, ◌≡◌, ◌≢◌, refl, some, [], ◌∷◌, ◌++◌, arith}
use stm32wb_hci.Prelude.Bytes.{All}
use stm32wb_hci.Prelude.Text.{
  Text, codes, same_text_refl, strip_prefix-append, split_once, split_once-append, All-weaken,
}
use stm32wb_hci.Prelude.Digits.{hexadecimal}
use stm32wb_hci.Prelude.Digits.Reading.{IsDigit, All-hexadecimal, from_str_radix-hexadecimal}
use stm32wb_hci.Catalog.Bearers.{Bearer, display, hex, from_str}

hex-hexadecimal : (n : ℕ) → n < 2 ^ 16 → hex (codes "0x" ++ hexadecimal 4 n) ≡ some n
unfolding hex
hex-hexadecimal n h =
    rw
      (
        strip_prefix-append (codes "0x") (hexadecimal 4 n),
        from_str_radix-hexadecimal (2 ^ 16) 4 n h,
      )
      refl

prefixed_ne : (n : ℕ) → All (λ c. c ≢ 46) (codes "0x" ++ hexadecimal 4 n)
prefixed_ne n = (
  omega arith,
  (
    omega arith,
    All-weaken IsDigit (λ c. c ≢ 46) (hexadecimal 4 n) (λ c h. omega (arith, h.0))
        (All-hexadecimal 4 n),
  ),
)

-- A bearer whose member has no colon is read back from its text.
pub from_str-display :
    (bearer : Bearer Text)
    → All (λ c. c ≢ 58) bearer.member
    → bearer.first < 2 ^ 16
    → bearer.last < 2 ^ 16
    → from_str (display bearer) ≡ some bearer
unfolding from_str
from_str-display bearer hm hf hl =
    let first : Text = codes "0x" ++ hexadecimal 4 bearer.first in
    let last : Text = codes "0x" ++ hexadecimal 4 bearer.last in
    let parts : split_once (codes ": ") (display bearer)
        ≡ some (bearer.member, first ++ (codes "..=" ++ last)) =
      unfold display in
      split_once-append 58 (32 ∷ []) bearer.member (first ++ (codes "..=" ++ last)) hm in
    let range : split_once (codes "..=") (first ++ (codes "..=" ++ last)) ≡ some (first, last) =
      split_once-append 46 (46 ∷ 61 ∷ []) first last (prefixed_ne bearer.first) in
    rw
      (
        parts,
        range,
        hex-hexadecimal bearer.first hf,
        hex-hexadecimal bearer.last hl,
        same_text_refl (display bearer),
      )
      refl
