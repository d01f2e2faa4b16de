-- ===== src/Wire/Documented/Scan.antt =====
-- The two loops of `covered` and `declared`: what one scan finds, and that the rounds end.
use stm32wb_hci.Prelude.{
  ℕ, zero, suc, ◌+◌, ◌≤◌, ◌<◌, ◌≡◌, ◌≢◌, ◌↔◌, ◌⊎◌, inl, inr, refl, Bool, true, false, ◌&&◌, ◌||◌,
  Option, none, some, List, [], ◌∷◌, length, arith, if◌then◌else◌, Bool-cases, Option-cases,
}
use stm32wb_hci.Prelude.Int.{ℤ, ◌≤ℤ◌, leb_ℤ, eqb_ℤ, suc_ℤ, suc_ℤ_parts, eqb_ℤ_iff}
use stm32wb_hci.Wire.Documented.{Range, within, farther, furthest, covered_loop, covered}

-- Whether some item holds `next` and ends at `e`.
ends_at : ℤ → ℤ → List Range → Bool
ends_at next e [] = false
ends_at next e ((from, to) ∷ items) =
    leb_ℤ from next && leb_ℤ next to && eqb_ℤ to e || ends_at next e items

abbrev next_acc : ℤ → ℤ → ℤ → Option ℤ → Option ℤ
next_acc next from to acc = if leb_ℤ from next && leb_ℤ next to then some (farther acc to) else acc

furthest-some :
    (next : ℤ) (items : List Range) (acc : Option ℤ) (e : ℤ)
    → furthest next items acc ≡ some e
    → (acc ≡ some e) ⊎ (ends_at next e items ≡ true)
unfolding furthest ends_at
furthest-some next [] acc e h = inl h
furthest-some next ((from, to) ∷ items) acc e h =
    ground (arith, eqb_ℤ_iff to e, furthest-some next items (next_acc next from to acc) e)

furthest-none :
    (next : ℤ) (items : List Range) (acc : Option ℤ)
    → furthest next items acc ≡ none
    → (acc ≡ none) × (within next items ≡ false)
unfolding furthest within
furthest-none next [] acc h = (h, refl)
furthest-none next ((from, to) ∷ items) acc h =
    ground (arith, furthest-none next items (next_acc next from to acc))

ends_at-within :
    (next e v : ℤ) (items : List Range)
    → ends_at next e items ≡ true
    → next ≤ℤ v
    → v ≤ℤ e
    → within v items ≡ true
unfolding ends_at within
ends_at-within next e v [] h lo hi = cc
ends_at-within next e v ((from, to) ∷ items) h lo hi =
    ground (arith, eqb_ℤ_iff to e, ends_at-within next e v items)

ends_at-le : (next e : ℤ) (items : List Range) → ends_at next e items ≡ true → next ≤ℤ e
unfolding ends_at
ends_at-le next e [] h = cc
ends_at-le next e ((from, to) ∷ items) h = ground (arith, eqb_ℤ_iff to e, ends_at-le next e items)

-- The items that end at `next` or behind it: what the rounds use up.
ahead : ℤ → List Range → ℕ
ahead next [] = 0
ahead next ((from, to) ∷ items) = (if leb_ℤ next to then 1 else 0) + ahead next items

ahead-le-length : (next : ℤ) (items : List Range) → ahead next items ≤ length items
unfolding ahead
ahead-le-length next [] = omega arith
ahead-le-length next ((from, to) ∷ items) = ground (arith, ahead-le-length next items)

ahead-suc_le :
    (next e : ℤ) (items : List Range) → next ≤ℤ e → ahead (suc_ℤ e) items ≤ ahead next items
unfolding ahead
ahead-suc_le next e [] h = omega arith
ahead-suc_le next e ((from, to) ∷ items) h =
    ground (arith, suc_ℤ_parts e, ahead-suc_le next e items)

ahead-suc_lt :
    (next e : ℤ) (items : List Range)
    → ends_at next e items ≡ true
    → ahead (suc_ℤ e) items < ahead next items
unfolding ahead ends_at
ahead-suc_lt next e [] h = cc
ahead-suc_lt next e ((from, to) ∷ items) h =
    elim (Bool-cases (leb_ℤ from next && leb_ℤ next to && eqb_ℤ to e)) [
      | inl hit ↦
          let here : (next ≤ℤ to) × (to ≡ e) = ground (arith, eqb_ℤ_iff to e) in
          let before : leb_ℤ next to ≡ true = ground arith in
          let behind : leb_ℤ (suc_ℤ e) to ≡ false = ground (arith, suc_ℤ_parts e) in
          rw (before, behind) (omega (arith, ahead-suc_le next e items (rw (here.1) at here.0)))
      | inr miss ↦
          let there : ends_at next e items ≡ true = ground arith in
          let le : next ≤ℤ e = ends_at-le next e items there in
          elim (Bool-cases (leb_ℤ (suc_ℤ e) to)) [
            | inl behind ↦
                let before : leb_ℤ next to ≡ true = ground (arith, suc_ℤ_parts e) in
                rw (before, behind) (omega (arith, ahead-suc_lt next e items there))
            | inr past ↦ rw past (omega (arith, ahead-suc_lt next e items there))
          ]
    ]

-- What a round finds, from no end seen so far.
round-some :
    (next e : ℤ) (items : List Range)
    → furthest next items none ≡ some e
    → ends_at next e items ≡ true
round-some next e items h = elim (furthest-some next items none e h) [ inl bad ↦ cc | inr r ↦ r ]

module _ (last : ℤ) (documented : List Range) where
  covered_loop_total :
      (fuel : ℕ) (next : ℤ)
      → ahead next documented < fuel
      → covered_loop fuel next last documented ≢ none
  unfolding covered_loop
  covered_loop_total zero next h = elim h [ ]
  covered_loop_total (suc fuel) next h = elim (Option-cases (furthest next documented none)) [
    | inl q ↦ rw (q, covered_loop) (λ bad. cc)
    | inr (e, q) ↦
        rw (q, covered_loop)
          (ground (
            arith,
            ahead-suc_lt next e documented (round-some next e documented q),
            covered_loop_total fuel (suc_ℤ e),
          ))
  ]

  covered_loop_sound :
      (fuel : ℕ) (next v : ℤ)
      → covered_loop fuel next last documented ≡ some true
      → next ≤ℤ v
      → v ≤ℤ last
      → within v documented ≡ true
  unfolding covered_loop
  covered_loop_sound zero next v h lo hi = cc
  covered_loop_sound (suc fuel) next v h lo hi =
      elim (Option-cases (furthest next documented none)) [
        | inl q ↦ absurd (ground (arith, q))
        | inr (e, q) ↦ ground (
          arith,
          q,
          suc_ℤ_parts e,
          ends_at-within next e v documented (round-some next e documented q),
          covered_loop_sound fuel (suc_ℤ e) v,
        )
      ]

  covered_loop_complete :
      (fuel : ℕ) (next : ℤ)
      → covered_loop fuel next last documented ≡ some false
      → next ≤ℤ last
      → ¬ ((v : ℤ) → next ≤ℤ v → v ≤ℤ last → within v documented ≡ true)
  unfolding covered_loop
  covered_loop_complete zero next h le all = cc
  covered_loop_complete (suc fuel) next h le all =
      elim (Option-cases (furthest next documented none)) [
        | inl q ↦ ground (arith, furthest-none next documented none q, all next)
        | inr (e, q) ↦ ground (
          arith,
          q,
          suc_ℤ_parts e,
          ends_at-le next e documented (round-some next e documented q),
          covered_loop_complete fuel (suc_ℤ e) (ground (arith, q))
              (ground (arith, q, suc_ℤ_parts e))
              (λ v lo hi.
                all v
                  (omega (
                    arith,
                    suc_ℤ_parts e,
                    ends_at-le next e documented (round-some next e documented q),
                  ))
                  hi),
        )
      ]

module _ (first last : ℤ) (documented : List Range) where
  -- The fuel of `covered` is enough: its loop ends by one of its returns.
  pub covered_total :
      (b : Bool) × (covered_loop (length documented + 1) first last documented ≡ some b)
  covered_total = elim (Option-cases (covered_loop (length documented + 1) first last documented)) [
    | inl out ↦ absurd (
        covered_loop_total last documented (length documented + 1) first
          (omega (arith, ahead-le-length first documented)) out)
    | inr r ↦ r
  ]

  -- `covered` answers whether every value from `first` to `last` lies in some item.
  pub covered_iff :
      first ≤ℤ last
      → (covered first last documented ≡ true)
        ↔ ((v : ℤ) → first ≤ℤ v → v ≤ℤ last → within v documented ≡ true)
  unfolding covered
  covered_iff le =
      let (b, e) = covered_total in
      (
        λ h v.
            covered_loop_sound last documented (length documented + 1) first v (ground (arith, e)),
        λ all. elim (Bool-cases b) [
          | inl yes_lem ↦ ground (arith, e, yes_lem)
          | inr no_lem ↦ absurd (
              covered_loop_complete last documented (length documented + 1) first
                (ground (arith, e, no_lem)) le all)
        ],
      )
