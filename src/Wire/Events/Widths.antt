-- ===== src/Wire/Events/Widths.antt =====
-- What `assert_event_width` of crates/stm32wb-hci/src/wire.rs checks.
use stm32wb_hci.Prelude.{ℕ, ◌+◌, ◌-◌, ◌≤◌, ◌<◌, ◌≡◌, ◌↔◌, true, ◌||◌, List, arith}
use stm32wb_hci.Wire.Decoding.{Result}
use stm32wb_hci.Wire.Events.{decodes, assert_event_width}

-- Where bt-hci's decoder takes zeros or ones of exactly the lengths from `least` to `greatest`, the assertion
-- passes for a width exactly when that width is below 256 and is the only such length: a decoder of several
-- lengths passes for none of them.
pub assert_event_width_iff {ℓ} :
    {A : Type ℓ} (from_hci_bytes_complete : List ℕ → Result A) (least greatest width : ℕ)
    → ((w : ℕ)
        → ((decodes from_hci_bytes_complete 0 w || decodes from_hci_bytes_complete 1 w) ≡ true)
          ↔ ((least ≤ w) × (w ≤ greatest)))
    → (assert_event_width from_hci_bytes_complete width ≡ true)
      ↔ ((width < 256) × (least ≡ width) × (greatest ≡ width))
unfolding assert_event_width
assert_event_width_iff complete least greatest width accepts = ground (
  arith,
  accepts width,
  accepts (width + 1),
  accepts (width - 1),
  accepts greatest,
  accepts least,
)
