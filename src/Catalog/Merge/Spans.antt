-- ===== src/Catalog/Merge/Spans.antt =====
-- The runs of crates/stm32wb-catalog/src/merge.rs hold what they are made of, and no two of them are one run.
use mathlib.Core.List.{append_assoc}
use stm32wb_hci.Prelude.{
  ℕ, zero, suc, ◌+◌, ◌-◌, ◌≤◌, ◌≡◌, refl, ap, ◌∙◌, Bool, true, false, ◌&&◌, Bool-cases, inl, inr,
  List, [], ◌∷◌, ◌++◌, arith, ◌==◌,
}
use stm32wb_hci.Catalog.Merge.{
  Span, Joined, joined, apart, Coalesce, coalesce_step, IsCoalesce, single_spans, join, spans,
}

-- The entries that a run stands for.
unfoldable pub repeat : {T : Type 0} → ℕ → ℕ → T → List (ℕ × T)
repeat first zero value = []
repeat first (suc n) value = (first, value) ∷ repeat (first + 1) n value

abbrev pub expand : {T : Type 0} → Span T → List (ℕ × T)
expand span = repeat span.first (span.last + 1 - span.first) span.value

unfoldable pub expand_all : {T : Type 0} → List (Span T) → List (ℕ × T)
expand_all [] = []
expand_all (span ∷ others) = expand span ++ expand_all others

repeat_snoc :
    {T : Type 0} (first n : ℕ) (value : T)
    → repeat first (suc n) value ≡ repeat first n value ++ ((first + n, value) ∷ [])
unfolding repeat
repeat_snoc first zero value = ap (λ i. (i, value) ∷ []) (omega arith)
repeat_snoc first (suc n) value =
    let shift : first + 1 + n ≡ first + suc n = omega arith in
    ap (λ l. (first, value) ∷ l) (rw (← shift) (repeat_snoc (first + 1) n value))

module _ {T : Type 0} (same : T → T → Bool) where
  abbrev pub extends : Span T → Span T → Bool
  extends run next = (run.last + 1 == next.first) && same run.value next.value

  -- No run extends the one before it.
  abbrev pub Maximal : List (Span T) → Type 0
  Maximal [] = Unit
  Maximal (run ∷ []) = Unit
  Maximal (run ∷ next ∷ others) = (extends run next ≡ false) × Maximal (next ∷ others)

  -- Every run holds a release.
  abbrev pub Ordered : List (Span T) → Type 0
  Ordered [] = Unit
  Ordered (run ∷ others) = (run.first ≤ run.last) × Ordered others

module _ {T : Type 0} (same : T → T → Bool) (same_sound : (a b : T) → same a b ≡ true → a ≡ b)
    (coalesce : Coalesce (Span T)) (documented : IsCoalesce coalesce) where
  abbrev Makes : Span T → List (ℕ × T) → List (Span T) → Type 0
  Makes run entries found =
      (head : Span T) × (others : List (Span T)) × (found ≡ head ∷ others)
      × (head.first ≡ run.first)
      × (head.value ≡ run.value)
      × Ordered same (head ∷ others)
      × Maximal same (head ∷ others)
      × (expand_all (head ∷ others) ≡ expand run ++ entries)

  abbrev single : ℕ → T → Span T
  single index value = record { first = index; last = index; value = value }

  expand-single : (index : ℕ) (value : T) → expand (single index value) ≡ (index, value) ∷ []
  unfolding repeat
  expand-single index value = let one : index + 1 - index ≡ 1 = omega arith in rw one refl

  expand-longer :
      (run : Span T) (index : ℕ) (value : T)
      → run.first ≤ run.last
      → run.last + 1 ≡ index
      → run.value ≡ value
      → expand (record run { last = index }) ≡ expand run ++ ((index, value) ∷ [])
  expand-longer run index value h i v =
      let count : index + 1 - run.first ≡ suc (run.last + 1 - run.first) = omega (arith, h, i) in
      let at : run.first + (run.last + 1 - run.first) ≡ index = omega (arith, h, i) in
      ap (λ n. repeat run.first n run.value) count
      ∙ repeat_snoc run.first (run.last + 1 - run.first) run.value
      ∙ ap (λ i. expand run ++ ((i, run.value) ∷ [])) at
      ∙ ap (λ v. expand run ++ ((index, v) ∷ [])) v

  join_longer :
      (run next : Span T)
      → extends same run next ≡ true
      → join same run next ≡ joined (record run { last = next.first })
  unfolding join
  join_longer run next h = rw h refl

  join_other :
      (run next : Span T)
      → extends same run next ≡ false
      → join same run next ≡ apart run (record next { last = next.first })
  unfolding join
  join_other run next h = rw h refl

  step :
      (run next : Span T) (others : List (Span T)) (result : Joined (Span T))
      → join same run next ≡ result
      → coalesce (join same) (run ∷ next ∷ others)
        ≡ coalesce_step coalesce (join same) result others
  step run next others result e =
      documented.next (join same) run next others
      ∙ ap (λ j. coalesce_step coalesce (join same) j others) e

  longer_run :
      (run : Span T) (index : ℕ) (value : T) (entries : List (ℕ × T)) (found : List (Span T))
      → run.first ≤ run.last
      → run.last + 1 ≡ index
      → run.value ≡ value
      → Makes (record run { last = index }) entries found
      → Makes run ((index, value) ∷ entries) found
  longer_run run index value entries found h i v
        (head, others, place, first, of_run, ordered, maximal, holds) =
      (
        head,
        others,
        place,
        first,
        of_run,
        ordered,
        maximal,
        holds
            ∙ ap (λ l. l ++ entries) (expand-longer run index value h i v)
            ∙ append_assoc (expand run) ((index, value) ∷ []) entries,
      )

  other_run :
      (run : Span T) (index : ℕ) (value : T) (entries : List (ℕ × T)) (found : List (Span T))
      → run.first ≤ run.last
      → extends same run (single index value) ≡ false
      → Makes (single index value) entries found
      → Makes run ((index, value) ∷ entries) (run ∷ found)
  unfolding expand_all
  other_run run index value entries found h new
        (head, others, place, first, of_run, ordered, maximal, holds) =
      (
        run,
        head ∷ others,
        ap (λ l. run ∷ l) place,
        refl,
        refl,
        (h, ordered),
        (
          ap (λ i. (run.last + 1 == i) && same run.value head.value) first
              ∙ ap (λ v. (run.last + 1 == index) && same run.value v) of_run
              ∙ new,
          maximal,
        ),
        ap (λ l. expand run ++ l) (holds ∙ ap (λ l. l ++ entries) (expand-single index value)),
      )

  started :
      (run : Span T) (entries : List (ℕ × T))
      → run.first ≤ run.last
      → Makes run entries (coalesce (join same) (run ∷ single_spans entries))
  unfolding single_spans expand_all
  started run [] h = (run, [], documented.one (join same) run, refl, refl, (h, tt), tt, refl)
  started run ((index, value) ∷ entries) h =
      elim (Bool-cases (extends same run (single index value))) [
        | inl longer ↦
            let next_index : run.last + 1 ≡ index = ground (arith, longer) in
            let same_value : run.value ≡ value =
              same_sound run.value value (ground (arith, longer)) in
            rw
              (step run (single index value) (single_spans entries) _
                (join_longer run (single index value) longer))
              (longer_run run index value entries _ h next_index same_value
                (started (record run { last = index }) entries (omega (arith, h, next_index))))
        | inr other ↦
            rw
              (step run (single index value) (single_spans entries) _
                (join_other run (single index value) other))
              (other_run run index value entries _ h other
                (started (single index value) entries (omega arith)))
      ]

  -- The runs hold exactly the entries that they are made of, each run at least one, and no run extends the
  -- one before it.
  pub spans_lem :
      (entries : List (ℕ × T))
      → (expand_all (spans same coalesce entries) ≡ entries)
        × Ordered same (spans same coalesce entries)
        × Maximal same (spans same coalesce entries)
  unfolding spans single_spans expand_all
  spans_lem [] = rw (documented.empty (join same)) (refl, tt, tt)
  spans_lem ((index, value) ∷ entries) =
      let (head, others, place, first, of_run, ordered, maximal, holds) =
        started (single index value) entries (omega arith) in
      rw place (holds ∙ ap (λ l. l ++ entries) (expand-single index value), ordered, maximal)
