-- ===== src/Catalog/Domain/Texts/Roundtrips.antt =====
-- Items and domains are read back from what is written of them in crates/stm32wb-catalog/src/domain.rs.
use mathlib.Core.List.{append_assoc, append-nil}
use stm32wb_hci.Prelude.{
  ℕ, zero, suc, ◌^◌, ◌<◌, ◌≡◌, ◌≢◌, inl, inr, refl, ap, sym, ◌∙◌, true, Bool-cases, Option, none,
  some, List, [], ◌∷◌, ◌++◌, arith,
}
use stm32wb_hci.Prelude.Bytes.{All}
use stm32wb_hci.Prelude.Int.{ℤ, pos, negsuc, leb_ℤ, eqb_ℤ, eqb_ℤ_iff}
use stm32wb_hci.Prelude.Text.{
  Text, codes, same_text_refl, split_once, split_once-append, split_once-none, All-append,
  All-weaken,
}
use stm32wb_hci.Prelude.Digits.Lengths.{length-hexadecimal}
use stm32wb_hci.Catalog.Domain.{DomainItem, DomainKind, values, flags, Domain}
use stm32wb_hci.Catalog.Domain.Texts.{
  write_value, write_last, write_label, display, parse_value, same_style, item_of, of_values,
  of_source, from_str, split_kind, split_items, join_items,
}
use stm32wb_hci.Catalog.Domain.Texts.Values.{
  IsWritable, read_digits, parse_value-write_value, NotSeparator, write_value-NotSeparator,
}

-- A first value in hexadecimal fits the digits that it is written with.
abbrev pub FitsDigits : Option ℕ → ℤ → Type 0
FitsDigits none value = Unit
FitsDigits (some digits) (pos n) = (0 < digits) × (n < 16 ^ digits)
FitsDigits (some digits) (negsuc n) = ⊥

read_digits-eq :
    (digits : Option ℕ) (value : ℤ) → FitsDigits digits value → read_digits digits value ≡ digits
read_digits-eq none value h = refl
read_digits-eq (some zero) (pos n) h = absurd (omega (arith, h.0))
read_digits-eq (some (suc width)) (pos n) h = ap some (length-hexadecimal width n h.1)
read_digits-eq (some digits) (negsuc n) h = elim h [ ]

same_style-read :
    (digits : Option ℕ) (value : ℤ)
    → IsWritable digits value
    → same_style (read_digits digits value) digits ≡ true
same_style-read none value h = refl
same_style-read (some digits) (pos n) h = refl
same_style-read (some digits) (negsuc n) h = elim h [ ]

module _ (item : DomainItem) where
  abbrev IsReadable : Type 0
  IsReadable =
      IsWritable item.hex_digits item.first
      × IsWritable item.hex_digits item.last
      × FitsDigits item.hex_digits item.first

  abbrev first_text : Text
  first_text = write_value item.hex_digits item.first

  abbrev last_text : Text
  last_text = write_value item.hex_digits item.last

  read_first : IsReadable → parse_value first_text ≡ some (item.first, item.hex_digits)
  read_first h =
      parse_value-write_value item.hex_digits item.first h.0
      ∙ ap (λ d. some (item.first, d)) (read_digits-eq item.hex_digits item.first h.2)

  no_dot : (digits : Option ℕ) (value : ℤ) → All (λ c. c ≢ 46) (write_value digits value)
  no_dot digits value =
      All-weaken NotSeparator (λ c. c ≢ 46) (write_value digits value) (λ c h. h.0)
        (write_value-NotSeparator digits value)

  no_colon : (digits : Option ℕ) (value : ℤ) → All (λ c. c ≢ 58) (write_value digits value)
  no_colon digits value =
      All-weaken NotSeparator (λ c. c ≢ 58) (write_value digits value) (λ c h. h.1)
        (write_value-NotSeparator digits value)

  -- The values of an item, and what is read of them.
  abbrev values_text : Text
  values_text = first_text ++ write_last item

  read_values :
      IsReadable
      → of_values item.label values_text (split_once (codes "..=") values_text) ≡ some item
  read_values h = elim (Bool-cases (eqb_ℤ item.last item.first)) [
    | inl single ↦
        let same : item.last ≡ item.first = (eqb_ℤ_iff item.last item.first).0 single in
        rw
          (
            single,
            append-nil first_text,
            split_once-none 46 (46 ∷ 61 ∷ []) first_text (no_dot item.hex_digits item.first),
            read_first h,
          )
          (ap (λ v. some (item_of item.label (item.first, item.hex_digits) v)) (sym same))
    | inr range ↦
        rw
          (
            range,
            split_once-append 46 (46 ∷ 61 ∷ []) first_text last_text
                (no_dot item.hex_digits item.first),
            read_first h,
            parse_value-write_value item.hex_digits item.last h.1,
            same_style-read item.hex_digits item.last h.1,
          )
          refl
  ]

  no_colon_last : All (λ c. c ≢ 58) (write_last item)
  no_colon_last = elim (Bool-cases (eqb_ℤ item.last item.first)) [
    | inl single ↦ rw single tt
    | inr range ↦
        rw range (omega arith, (omega arith, (omega arith, no_colon item.hex_digits item.last)))
  ]

  no_colon_values : All (λ c. c ≢ 58) values_text
  no_colon_values =
      All-append (λ c. c ≢ 58) first_text (write_last item) (no_colon item.hex_digits item.first)
        no_colon_last

  read_source :
      (label : Option Text)
      → item.label ≡ label
      → IsReadable
      → (text : Text) → text ≡ values_text ++ write_label label
      → of_source text (split_once (codes ": ") text) ≡ some item
  read_source none e h text t =
      let bare : text ≡ values_text = t ∙ append-nil values_text in
      rw (bare, split_once-none 58 (32 ∷ []) values_text no_colon_values, ← e) (read_values h)
  read_source (some label) e h text t =
      rw (t, split_once-append 58 (32 ∷ []) values_text label no_colon_values, ← e) (read_values h)

-- An item that a profile's list can hold is read back from its text: a single value or a range, in decimal
-- or in hexadecimal, with any label or none.
pub from_str-display_item :
    (item : DomainItem)
    → leb_ℤ item.first item.last ≡ true
    → IsWritable item.hex_digits item.first
    → IsWritable item.hex_digits item.last
    → FitsDigits item.hex_digits item.first
    → from_str (display item) ≡ some item
unfolding from_str
from_str-display_item item ordered hf hl fits =
    let text : display item ≡ values_text item ++ write_label item.label =
      unfold display in
      sym (append_assoc (first_text item) (write_last item) (write_label item.label)) in
    rw
      (
        read_source item item.label refl (hf, hl, fits) (display item) text,
        ordered,
        same_text_refl (display item),
      )
      refl

join-split_kind :
    (kind : DomainKind) (items : List DomainItem) (unit : Option ℕ)
    → join_items (split_kind kind items).0 (split_kind kind items).1 unit
      ≡ some (record { kind = kind; items = items; unit_us = unit })
unfolding join_items
join-split_kind values items unit = refl
join-split_kind flags items unit = refl

-- The fields that a file has of a domain give the domain back.
pub join_items-split_items :
    (domain : Domain)
    → join_items (split_items domain).0 (split_items domain).1 domain.unit_us ≡ some domain
unfolding split_items
join_items-split_items domain = join-split_kind domain.kind domain.items domain.unit_us
