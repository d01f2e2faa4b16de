-- ===== src/Catalog/Merge/Lookups.antt =====
-- The ranges of releases that crates/stm32wb-catalog/src/merge.rs makes give back the value of each release.
use stm32wb_hci.Prelude.{
  ℕ, zero, suc, ◌+◌, ◌-◌, ◌<◌, ◌≡◌, refl, ap, sym, ◌∙◌, Bool, true, false, not, ◌&&◌, Bool-cases,
  inl, inr, Option, none, some, List, [], ◌∷◌, ◌++◌, arith, length, get_elem?, ltb, leb, ◌==◌,
  if◌then◌else◌,
}
use stm32wb_hci.Prelude.Bytes.{All}
use stm32wb_hci.Catalog.Release.{Version, version_le, ReleaseRange, contains}
use stm32wb_hci.Catalog.Release.Overlaps.{version_le_refl, version_le_total}
use stm32wb_hci.Catalog.Domain.Items.Sorting.{Ascending}
use stm32wb_hci.Catalog.Merge.{Span}
use stm32wb_hci.Catalog.Merge.Spans.{repeat, expand, expand_all, Ordered}

abbrev pub version_lt : Version → Version → Bool
version_lt a b = not (version_le b a)

-- The value of a release, by its index, among the entries.
unfoldable pub value_at : {T : Type 0} → ℕ → List (ℕ × T) → Option T
value_at i [] = none
value_at i ((index, value) ∷ entries) =
    let others = value_at i entries in if index == i then some value else others

-- The value of a release among ranges: that of the first range with the release.
unfoldable pub lookup : {T : Type 0} → Version → List (ReleaseRange × T) → Option T
lookup release [] = none
lookup release ((range, value) ∷ found) =
    let others = lookup release found in if contains range release then some value else others

All-get {ℓ κ} :
    {A : Type ℓ} (P : A → Type κ) (xs : List A) (i : ℕ) (a : A)
    → All P xs
    → get_elem? xs i ≡ some a
    → P a
All-get P [] i a h q = cc
All-get P (x ∷ xs) zero a h q = let same : x ≡ a = cc in rw (← same) h.0
All-get P (x ∷ xs) (suc i) a h q = All-get P xs i a h.1 q

pub get_below {ℓ} :
    {A : Type ℓ} (xs : List A) (i : ℕ) → i < length xs → (a : A) × (get_elem? xs i ≡ some a)
get_below [] i h = elim h [ ]
get_below (x ∷ xs) zero h = (x, refl)
get_below (x ∷ xs) (suc i) h = get_below xs i (omega (arith, h))

-- Ascending versions are ordered as their indices.
pub get-version_le :
    (versions : List Version) (i j : ℕ) (v w : Version)
    → Ascending version_lt versions
    → get_elem? versions i ≡ some v
    → get_elem? versions j ≡ some w
    → version_le v w ≡ leb i j
get-version_le [] i j v w up p q = cc
get-version_le (head ∷ versions) zero zero v w up p q =
    let a : head ≡ v = cc in let b : head ≡ w = cc in rw (← a, ← b) (version_le_refl head)
get-version_le (head ∷ versions) zero (suc j) v w up p q =
    let a : head ≡ v = cc in
    let below : version_lt head w ≡ true =
      All-get (λ b. version_lt head b ≡ true) versions j w up.0 q in
    let least : leb 0 (suc j) ≡ true = ground arith in
    rw (← a) (version_le_total w head (ground (arith, below)) ∙ sym least)
get-version_le (head ∷ versions) (suc i) zero v w up p q =
    let b : head ≡ w = cc in
    let below : version_lt head v ≡ true =
      All-get (λ b. version_lt head b ≡ true) versions i v up.0 p in
    let greater : leb (suc i) 0 ≡ false = ground arith in
    let above : version_le v head ≡ false = ground (arith, below) in rw (← b) (above ∙ sym greater)
get-version_le (head ∷ versions) (suc i) (suc j) v w up p q =
    get-version_le versions i j v w up.1 p q ∙ ground arith

module _ {T : Type 0} (i : ℕ) where
  abbrev or_later : Option T → Option T → Option T
  or_later none later = later
  or_later (some value) later = some value

  value_at-append :
      (xs ys : List (ℕ × T)) → value_at i (xs ++ ys) ≡ or_later (value_at i xs) (value_at i ys)
  unfolding value_at
  value_at-append [] ys = refl
  value_at-append ((index, value) ∷ xs) ys = elim (Bool-cases (index == i)) [
    | inl here ↦ rw here refl
    | inr there ↦ rw there (value_at-append xs ys)
  ]

  value_at-repeat :
      (first n : ℕ) (value : T)
      → value_at i (repeat first n value)
        ≡ (if leb first i && ltb i (first + n) then some value else none)
  unfolding value_at repeat
  value_at-repeat first zero value =
      let outside : (leb first i && ltb i (first + 0)) ≡ false = ground arith in rw outside refl
  value_at-repeat first (suc n) value = elim (Bool-cases (first == i)) [
    | inl here ↦
        let inside : (leb first i && ltb i (first + suc n)) ≡ true = ground (arith, here) in
        rw (here, inside) refl
    | inr there ↦
        let tail : (leb (first + 1) i && ltb i (first + 1 + n))
            ≡ (leb first i && ltb i (first + suc n)) =
          ground (arith, there) in
        rw there
          (value_at-repeat (first + 1) n value ∙ ap (λ b. if b then some value else none) tail)
  ]

  unfoldable pub lookup_span : List (Span T) → Option T
  lookup_span [] = none
  lookup_span (span ∷ others) =
      if leb span.first i && leb i span.last then some span.value else lookup_span others

  pub value_at-lookup_span :
      (same : T → T → Bool) (list : List (Span T))
      → Ordered same list
      → value_at i (expand_all list) ≡ lookup_span list
  unfolding value_at expand_all lookup_span
  value_at-lookup_span same [] h = refl
  value_at-lookup_span same (span ∷ others) h =
      let bounds : (leb span.first i && ltb i (span.first + (span.last + 1 - span.first)))
          ≡ (leb span.first i && leb i span.last) =
        ground (arith, h.0) in
      value_at-append (expand span) (expand_all others)
      ∙ ap (λ o. or_later o (value_at i (expand_all others)))
          (value_at-repeat span.first (span.last + 1 - span.first) span.value
            ∙ ap (λ b. if b then some span.value else none) bounds)
      ∙ ap (or_later (if leb span.first i && leb i span.last then some span.value else none))
          (value_at-lookup_span same others h.1)
      ∙ of_choice (leb span.first i && leb i span.last) span.value (lookup_span others)
    where
      of_choice :
          (b : Bool) (value : T) (later : Option T)
          → or_later (if b then some value else none) later ≡ (if b then some value else later)
      of_choice true value later = refl
      of_choice false value later = refl
