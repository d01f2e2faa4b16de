-- ===== src/Catalog/Layout/Variants.antt =====
-- The widths of a union's variants in crates/stm32wb-catalog/src/layout.rs.
use stm32wb_hci.Prelude.{ℕ, ◌≤◌, ◌≡◌, ◌⊎◌, inl, inr, refl, List, [], ◌∷◌, arith, leb, if◌then◌else◌}
use stm32wb_hci.Catalog.Layout.{
  UnionVariant, Structs, Outcome, ok, err, unfinished, ◌>>=◌, distinct_variants, min_width,
  max_width, union_bounds,
}

abbrev pub IsWidthOf : ℕ → List UnionVariant → Type 0
IsWidthOf x [] = ⊥
IsWidthOf x (variant ∷ variants) = (x ≡ variant.width) ⊎ IsWidthOf x variants

pub bind_gives :
    {A B : Type 0} {made : B} (others : A → Outcome B) (first : Outcome A)
    → (first >>= others) ≡ ok made
    → (between : A) × (first ≡ ok between) × (others between ≡ ok made)
bind_gives others (ok between) ran = (between, refl, ran)
bind_gives others (err e) ran = cc
bind_gives others unfinished ran = cc

module _ (structs : Structs) (fuel : ℕ) where
  min_width-le_first :
      (variants : List UnionVariant) (least : ℕ) → min_width structs fuel least variants ≤ least
  unfolding min_width
  min_width-le_first [] least = omega arith
  min_width-le_first (variant ∷ variants) least =
      let smaller : (if leb least variant.width then least else variant.width) ≤ least =
        ground arith in
      omega (
        arith,
        smaller,
        min_width-le_first variants (if leb least variant.width then least else variant.width),
      )

  min_width-le :
      (variants : List UnionVariant) (least x : ℕ)
      → IsWidthOf x variants
      → min_width structs fuel least variants ≤ x
  unfolding min_width
  min_width-le [] least x h = elim h [ ]
  min_width-le (variant ∷ variants) least x (inl e) =
      let smaller : (if leb least variant.width then least else variant.width) ≤ variant.width =
        ground arith in
      omega (
        arith,
        e,
        smaller,
        min_width-le_first variants (if leb least variant.width then least else variant.width),
      )
  min_width-le (variant ∷ variants) least x (inr h) = min_width-le variants _ x h

  max_width-ge_first :
      (variants : List UnionVariant) (most : ℕ) → most ≤ max_width structs fuel most variants
  unfolding max_width
  max_width-ge_first [] most = omega arith
  max_width-ge_first (variant ∷ variants) most =
      let larger : most ≤ (if leb variant.width most then most else variant.width) = ground arith in
      omega (
        arith,
        larger,
        max_width-ge_first variants (if leb variant.width most then most else variant.width),
      )

  max_width-ge :
      (variants : List UnionVariant) (most x : ℕ)
      → IsWidthOf x variants
      → x ≤ max_width structs fuel most variants
  unfolding max_width
  max_width-ge [] most x h = elim h [ ]
  max_width-ge (variant ∷ variants) most x (inl e) =
      let larger : variant.width ≤ (if leb variant.width most then most else variant.width) =
        ground arith in
      omega (
        arith,
        e,
        larger,
        max_width-ge_first variants (if leb variant.width most then most else variant.width),
      )
  max_width-ge (variant ∷ variants) most x (inr h) = max_width-ge variants _ x h

  pub union_bounds-within :
      (variants : List UnionVariant) (lo hi x : ℕ)
      → union_bounds structs fuel variants ≡ ok (lo, hi)
      → IsWidthOf x variants
      → (lo ≤ x) × (x ≤ hi)
  union_bounds-within [] lo hi x e h = elim h [ ]
  union_bounds-within (variant ∷ variants) lo hi x e h =
      let (all, p, q) =
        bind_gives
          (λ all. ok (
            min_width structs fuel variant.width variants,
            max_width structs fuel variant.width variants,
          ))
          (distinct_variants structs fuel [] (variant ∷ variants)) e in
      let l : min_width structs fuel variant.width variants ≡ lo = cc in
      let m : max_width structs fuel variant.width variants ≡ hi = cc in rw (← l, ← m) (among h)
    where
      among :
          IsWidthOf x (variant ∷ variants)
          → (min_width structs fuel variant.width variants ≤ x)
            × (x ≤ max_width structs fuel variant.width variants)
      among (inl q) = (
        omega (arith, q, min_width-le_first variants variant.width),
        omega (arith, q, max_width-ge_first variants variant.width),
      )
      among (inr r) =
          (min_width-le variants variant.width x r, max_width-ge variants variant.width x r)
