-- ===== src/Catalog/Domain/Items/Orders.antt =====
-- The derived order of items in crates/stm32wb-catalog/src/domain.rs is a strict order.
use stm32wb_hci.Prelude.{
  ℕ, ◌≡◌, ◌↔◌, refl, ap, sym, Bool, true, false, ◌&&◌, ◌||◌, false_ne_true, Option, none, some, [],
  ◌∷◌, arith,
}
use stm32wb_hci.Prelude.Int.{eqb_ℤ, eqb_ℤ_iff}
use stm32wb_hci.Prelude.Text.{Text}
use stm32wb_hci.Catalog.Domain.{DomainItem}
use stm32wb_hci.Catalog.Domain.Items.{ltb_ℤ, text_lt, digits_lt, same_digits, label_lt, item_lt}
use stm32wb_hci.Catalog.Domain.Items.Sorting.{IsStrictOrder}

text_lt_irrefl : (s : Text) → text_lt s s ≡ false
unfolding text_lt
text_lt_irrefl [] = refl
text_lt_irrefl (c ∷ s) = ground (arith, text_lt_irrefl s)

text_lt_trans : (s t u : Text) → text_lt s t ≡ true → text_lt t u ≡ true → text_lt s u ≡ true
unfolding text_lt
text_lt_trans [] [] u h k = absurd (false_ne_true h)
text_lt_trans [] (d ∷ t) [] h k = absurd (false_ne_true k)
text_lt_trans [] (d ∷ t) (e ∷ u) h k = refl
text_lt_trans (c ∷ s) [] u h k = absurd (false_ne_true h)
text_lt_trans (c ∷ s) (d ∷ t) [] h k = absurd (false_ne_true k)
text_lt_trans (c ∷ s) (d ∷ t) (e ∷ u) h k = ground (arith, h, k, text_lt_trans s t u)

text_lt_total : (s t : Text) → text_lt s t ≡ false → text_lt t s ≡ false → s ≡ t
unfolding text_lt
text_lt_total [] [] h k = refl
text_lt_total [] (d ∷ t) h k = absurd (false_ne_true (sym h))
text_lt_total (c ∷ s) [] h k = absurd (false_ne_true (sym k))
text_lt_total (c ∷ s) (d ∷ t) h k = ground (arith, h, k, text_lt_total s t)

digits_lt-IsStrictOrder : IsStrictOrder digits_lt
unfolding digits_lt
digits_lt-IsStrictOrder = record {
  irreflexive = λ a. ground arith;
  transitive = λ a b c h k. ground (arith, h, k);
  total = λ a b h k. ground (arith, h, k);
}

label_lt_trans :
    (s t u : Option Text) → label_lt s t ≡ true → label_lt t u ≡ true → label_lt s u ≡ true
unfolding label_lt
label_lt_trans none none u h k = absurd (false_ne_true h)
label_lt_trans none (some t) none h k = absurd (false_ne_true k)
label_lt_trans none (some t) (some u) h k = refl
label_lt_trans (some s) none u h k = absurd (false_ne_true h)
label_lt_trans (some s) (some t) none h k = absurd (false_ne_true k)
label_lt_trans (some s) (some t) (some u) h k = text_lt_trans s t u h k

label_lt-IsStrictOrder : IsStrictOrder label_lt
unfolding label_lt
label_lt-IsStrictOrder = record {
  irreflexive = irreflexive;
  transitive = label_lt_trans;
  total = total;
}
  where
    irreflexive : (s : Option Text) → label_lt s s ≡ false
    irreflexive none = refl
    irreflexive (some s) = text_lt_irrefl s

    total : (s t : Option Text) → label_lt s t ≡ false → label_lt t s ≡ false → s ≡ t
    total none none h k = refl
    total none (some t) h k = absurd (false_ne_true (sym h))
    total (some s) none h k = absurd (false_ne_true (sym k))
    total (some s) (some t) h k = ap some (text_lt_total s t h k)

same_digits_iff : (a b : Option ℕ) → (same_digits a b ≡ true) ↔ (a ≡ b)
same_digits_iff a b = ground arith

same_both :
    (a b : Option ℕ)
    → digits_lt a b ≡ false
    → digits_lt b a ≡ false
    → (same_digits a b ≡ true) × (same_digits b a ≡ true)
unfolding digits_lt
same_both a b h k = ground (arith, h, k)

-- The comparison by a key, where `l`, `e` and `r` compare by less, by equality and by what is behind the key.
lex_trans :
    (l₁ l₂ l₃ e₁ e₂ e₃ r₁ r₂ r₃ : Bool)
    → (l₁ ≡ true → l₂ ≡ true → l₃ ≡ true)
    → (l₁ ≡ true → e₂ ≡ true → l₃ ≡ true)
    → (e₁ ≡ true → l₂ ≡ true → l₃ ≡ true)
    → (e₁ ≡ true → e₂ ≡ true → e₃ ≡ true)
    → (r₁ ≡ true → r₂ ≡ true → r₃ ≡ true)
    → (l₁ || (e₁ && r₁)) ≡ true
    → (l₂ || (e₂ && r₂)) ≡ true
    → (l₃ || (e₃ && r₃)) ≡ true
lex_trans l₁ l₂ l₃ e₁ e₂ e₃ r₁ r₂ r₃ f g h k m p q = ground (arith, f, g, h, k, m, p, q)

lex_total :
    (l₁ l₂ e₁ e₂ r₁ r₂ : Bool)
    → (l₁ ≡ false → l₂ ≡ false → (e₁ ≡ true) × (e₂ ≡ true))
    → (l₁ || (e₁ && r₁)) ≡ false
    → (l₂ || (e₂ && r₂)) ≡ false
    → (e₁ ≡ true) × (r₁ ≡ false) × (r₂ ≡ false)
lex_total l₁ l₂ e₁ e₂ r₁ r₂ f p q = ground (arith, f, p, q)

abbrev by_digits : DomainItem → DomainItem → Bool
by_digits a b =
    digits_lt a.hex_digits b.hex_digits
    || (same_digits a.hex_digits b.hex_digits && label_lt a.label b.label)

abbrev by_last : DomainItem → DomainItem → Bool
by_last a b = ltb_ℤ a.last b.last || (eqb_ℤ a.last b.last && by_digits a b)

module _ (a b c : DomainItem) where
  digits_trans : by_digits a b ≡ true → by_digits b c ≡ true → by_digits a c ≡ true
  unfolding digits_lt
  digits_trans =
      lex_trans (digits_lt a.hex_digits b.hex_digits) (digits_lt b.hex_digits c.hex_digits)
        (digits_lt a.hex_digits c.hex_digits) (same_digits a.hex_digits b.hex_digits)
        (same_digits b.hex_digits c.hex_digits) (same_digits a.hex_digits c.hex_digits)
        (label_lt a.label b.label) (label_lt b.label c.label) (label_lt a.label c.label)
        (λ h k. ground (arith, h, k)) (λ h k. ground (arith, h, k)) (λ h k. ground (arith, h, k))
        (λ h k. ground (arith, h, k)) (label_lt_trans a.label b.label c.label)

  last_trans : by_last a b ≡ true → by_last b c ≡ true → by_last a c ≡ true
  last_trans =
      lex_trans (ltb_ℤ a.last b.last) (ltb_ℤ b.last c.last) (ltb_ℤ a.last c.last)
        (eqb_ℤ a.last b.last) (eqb_ℤ b.last c.last) (eqb_ℤ a.last c.last) (by_digits a b)
        (by_digits b c) (by_digits a c) (λ h k. ground (arith, h, k)) (λ h k. ground (arith, h, k))
        (λ h k. ground (arith, h, k)) (λ h k. ground (arith, h, k)) digits_trans

  item_lt_trans : item_lt a b ≡ true → item_lt b c ≡ true → item_lt a c ≡ true
  unfolding item_lt
  item_lt_trans =
      lex_trans (ltb_ℤ a.first b.first) (ltb_ℤ b.first c.first) (ltb_ℤ a.first c.first)
        (eqb_ℤ a.first b.first) (eqb_ℤ b.first c.first) (eqb_ℤ a.first c.first) (by_last a b)
        (by_last b c) (by_last a c) (λ h k. ground (arith, h, k)) (λ h k. ground (arith, h, k))
        (λ h k. ground (arith, h, k)) (λ h k. ground (arith, h, k)) last_trans

  item_lt_total : item_lt a b ≡ false → item_lt b a ≡ false → a ≡ b
  unfolding item_lt
  item_lt_total h k =
      let (first, last_ab, last_ba) =
        lex_total (ltb_ℤ a.first b.first) (ltb_ℤ b.first a.first) (eqb_ℤ a.first b.first)
          (eqb_ℤ b.first a.first) (by_last a b) (by_last b a) (λ h k. ground (arith, h, k)) h k in
      let (last, digits_ab, digits_ba) =
        lex_total (ltb_ℤ a.last b.last) (ltb_ℤ b.last a.last) (eqb_ℤ a.last b.last)
          (eqb_ℤ b.last a.last) (by_digits a b) (by_digits b a) (λ h k. ground (arith, h, k))
          last_ab last_ba in
      let (digits, label_ab, label_ba) =
        lex_total (digits_lt a.hex_digits b.hex_digits) (digits_lt b.hex_digits a.hex_digits)
          (same_digits a.hex_digits b.hex_digits) (same_digits b.hex_digits a.hex_digits)
          (label_lt a.label b.label) (label_lt b.label a.label)
          (λ h k. same_both a.hex_digits b.hex_digits h k) digits_ab digits_ba in
      let e₁ : a.first ≡ b.first = (eqb_ℤ_iff a.first b.first).0 first in
      let e₂ : a.last ≡ b.last = (eqb_ℤ_iff a.last b.last).0 last in
      let e₃ : a.hex_digits ≡ b.hex_digits = (same_digits_iff a.hex_digits b.hex_digits).0 digits in
      let e₄ : a.label ≡ b.label = label_lt-IsStrictOrder.total a.label b.label label_ab label_ba in
      cc

pub item_lt-IsStrictOrder : IsStrictOrder item_lt
unfolding item_lt
item_lt-IsStrictOrder = record {
  irreflexive = λ a.
      rw
        (
          digits_lt-IsStrictOrder.irreflexive a.hex_digits,
          label_lt-IsStrictOrder.irreflexive a.label,
        )
        (ground arith);
  transitive = item_lt_trans;
  total = λ a b. item_lt_total a b a;
}
