-- ===== src/Catalog/Domain/Items/Sorting.antt =====
-- The sort of crates/stm32wb-catalog/src/domain.rs, for any strict order: items taken in two passes from an
-- ascending list and sorted are those items in the order of the list.
use stm32wb_hci.Prelude.{
  ◌≡◌, inl, inr, refl, sym, ◌∙◌, Bool, true, false, ◌||◌, ◌&&◌, Bool-cases, false_ne_true, List, [],
  ◌∷◌, ◌++◌, arith, if◌then◌else◌,
}
use stm32wb_hci.Prelude.Bytes.{All}
use stm32wb_hci.Catalog.Domain.Items.{insert, sort}

pub record IsStrictOrder {ℓ} {A : Type ℓ} (lt : A → A → Bool) : Type ℓ where
  pub irreflexive : (a : A) → lt a a ≡ false
  pub transitive : (a b c : A) → lt a b ≡ true → lt b c ≡ true → lt a c ≡ true
  pub total : (a b : A) → lt a b ≡ false → lt b a ≡ false → a ≡ b

-- The items that a test takes, in order.
unfoldable pub pick {ℓ} : {A : Type ℓ} → (A → Bool) → List A → List A
pick takes [] = []
pick takes (a ∷ l) = let rest = pick takes l in if takes a then a ∷ rest else rest

pub All-pick {ℓ κ} :
    {A : Type ℓ} (P : A → Type κ) (takes : A → Bool) (l : List A) → All P l → All P (pick takes l)
unfolding pick
All-pick P takes [] h = tt
All-pick P takes (a ∷ l) h = elim (Bool-cases (takes a)) [
  | inl taken ↦ rw taken (h.0, All-pick P takes l h.1)
  | inr left ↦ rw left (All-pick P takes l h.1)
]

module _ {ℓ} {A : Type ℓ} (lt : A → A → Bool) where
  abbrev pub Ascending : List A → Type ℓ
  Ascending [] = Unit
  Ascending (a ∷ l) = All (λ b. lt a b ≡ true) l × Ascending l

module _ {ℓ} {A : Type ℓ} (lt : A → A → Bool) (order : IsStrictOrder lt) where
  asymmetric : (a b : A) → lt a b ≡ true → lt b a ≡ false
  asymmetric a b h = elim (Bool-cases (lt b a)) [
    | inr holds ↦ holds
    | inl back ↦ absurd (false_ne_true (sym (order.irreflexive a) ∙ order.transitive a b a h back))
  ]

  swap :
      (a b : A) (l : List A)
      → (if lt b a then b ∷ a ∷ l else a ∷ b ∷ l) ≡ (if lt a b then a ∷ b ∷ l else b ∷ a ∷ l)
  swap a b l = elim (Bool-cases (lt b a)) [
    | inl below ↦ rw (below, asymmetric b a below) refl
    | inr not_below ↦ elim (Bool-cases (lt a b)) [
      | inl above ↦ rw (not_below, above) refl
      | inr not_above ↦ let same : a ≡ b = order.total a b not_above not_below in rw same refl
    ]
  ]

  below_of : (a b c : A) → lt c a ≡ true → lt c b ≡ false → lt b a ≡ true
  below_of a b c h k = elim (Bool-cases (lt b c)) [
    | inl below ↦ order.transitive b c a below h
    | inr not_below ↦ let same : b ≡ c = order.total b c not_below k in rw same h
  ]

  insert-past : (a b : A) (l : List A) → lt b a ≡ true → insert lt a (b ∷ l) ≡ b ∷ insert lt a l
  unfolding insert
  insert-past a b l h = rw h refl

  insert-front : (a b : A) (l : List A) → lt b a ≡ false → insert lt a (b ∷ l) ≡ a ∷ b ∷ l
  unfolding insert
  insert-front a b l h = rw h refl

  insert_comm : (a b : A) (l : List A) → insert lt a (insert lt b l) ≡ insert lt b (insert lt a l)
  insert_comm a b [] = unfold insert in swap a b []
  insert_comm a b (c ∷ l) = elim (Bool-cases (lt c a)) [
    | inl ca ↦ elim (Bool-cases (lt c b)) [
      | inl cb ↦
          rw
            (
              insert-past b c l cb,
              insert-past a c l ca,
              insert-past a c (insert lt b l) ca,
              insert-past b c (insert lt a l) cb,
              insert_comm a b l,
            )
            refl
      | inr bc ↦
          rw
            (
              insert-front b c l bc,
              insert-past a c l ca,
              insert-past a b (c ∷ l) (below_of a b c ca bc),
              insert-past a c l ca,
              insert-front b c (insert lt a l) bc,
            )
            refl
    ]
    | inr ac ↦ elim (Bool-cases (lt c b)) [
      | inl cb ↦
          rw
            (
              insert-front a c l ac,
              insert-past b c l cb,
              insert-past b a (c ∷ l) (below_of b a c cb ac),
              insert-past b c l cb,
              insert-front a c (insert lt b l) ac,
            )
            refl
      | inr bc ↦
          rw (insert-front a c l ac, insert-front b c l bc)
            (unfold insert in rw (ac, bc) (swap a b (c ∷ l)))
    ]
  ]

  insert-least : (a : A) (l : List A) → All (λ b. lt a b ≡ true) l → insert lt a l ≡ a ∷ l
  unfolding insert
  insert-least a [] h = refl
  insert-least a (b ∷ l) h = rw (asymmetric a b h.0) refl

  sort-middle :
      (xs : List A) (y : A) (ys : List A)
      → sort lt (xs ++ (y ∷ ys)) ≡ insert lt y (sort lt (xs ++ ys))
  unfolding sort
  sort-middle [] y ys = refl
  sort-middle (x ∷ xs) y ys = rw (sort-middle xs y ys) (insert_comm x y (sort lt (xs ++ ys)))

  module _ (first second : A → Bool) (apart : (a : A) → (first a && second a) ≡ false) where
    abbrev either : A → Bool
    either a = first a || second a

    pub sort-pick :
        (l : List A) → Ascending lt l → sort lt (pick first l ++ pick second l) ≡ pick either l
    unfolding pick sort
    sort-pick [] h = refl
    sort-pick (a ∷ l) h =
        let ih : sort lt (pick first l ++ pick second l) ≡ pick either l = sort-pick l h.1 in
        let least : insert lt a (pick either l) ≡ a ∷ pick either l =
          insert-least a (pick either l) (All-pick (λ b. lt a b ≡ true) either l h.0) in
        elim (Bool-cases (first a)) [
          | inl one ↦
              let other : second a ≡ false = ground (arith, apart a, one) in
              rw (one, other, ih) least
          | inr not_one ↦ elim (Bool-cases (second a)) [
            | inl two ↦ rw (not_one, two, sort-middle (pick first l) a (pick second l), ih) least
            | inr not_two ↦ rw (not_one, not_two) ih
          ]
        ]
