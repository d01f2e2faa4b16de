-- ===== src/Catalog/Queries/Targets.antt =====
-- The targets of a catalog by its releases and the profiles that it finds for each, of crates/stm32wb-catalog/src/lib.rs.
use stm32wb_hci.Prelude.{◌≡◌, refl, ◌⊎◌, inl, inr, ◌↔◌, ap, List, [], ◌∷◌, ◌++◌}
use stm32wb_hci.Prelude.Bytes.{All}
use stm32wb_hci.Catalog.Release.{Version}
use stm32wb_hci.Catalog.Target.{Profile}
use stm32wb_hci.Catalog.Domain.Items.Results.{Listed}
use stm32wb_hci.Catalog.Entries.View.{Target}
use stm32wb_hci.Catalog.Queries.{Catalog, targets_of, targets_in, targets, versions, profiles_in}

module _ {A : Type 0} (a : A) where
  before : (xs ys : List A) → Listed a xs → Listed a (xs ++ ys)
  before [] ys h = elim h [ ]
  before (x ∷ xs) ys h = elim h [ inl same ↦ inl same | inr later ↦ inr (before xs ys later) ]

  behind : (xs ys : List A) → Listed a ys → Listed a (xs ++ ys)
  behind [] ys h = h
  behind (x ∷ xs) ys h = inr (behind xs ys h)

  Listed-append : (xs ys : List A) → Listed a (xs ++ ys) → Listed a xs ⊎ Listed a ys
  Listed-append [] ys h = inr h
  Listed-append (x ∷ xs) ys h = elim h [
    | inl same ↦ inl (inl same)
    | inr later ↦ elim (Listed-append xs ys later) [
      | inl left ↦ inl (inr left)
      | inr right ↦ inr right
    ]
  ]

pub All-Listed {ℓ} :
    {A : Type 0} (P : A → Type ℓ) (xs : List A) → ((a : A) → Listed a xs → P a) → All P xs
All-Listed P [] h = tt
All-Listed P (x ∷ xs) h = (h x (inl refl), All-Listed P xs (λ a listed. h a (inr listed)))

-- The targets of one release.
pub of_release :
    (target : Target) (release : Version) (list : List Profile)
    → Listed target (targets_of release list)
    → (target.release ≡ release) × Listed target.profile list
unfolding targets_of
of_release target release [] h = elim h [ ]
of_release target release (profile ∷ list) h = elim h [
  | inl same ↦ (ap (λ t. t.release) same, inl (ap (λ t. t.profile) same))
  | inr later ↦ let (own, listed) = of_release target release list later in (own, inr listed)
]

has_target :
    (release : Version) (profile : Profile) (list : List Profile)
    → Listed profile list
    → Listed (record { release = release; profile = profile }) (targets_of release list)
unfolding targets_of
has_target release profile [] h = elim h [ ]
has_target release profile (other ∷ list) h = elim h [
  | inl same ↦ inl (ap (λ p. record { release = release; profile = p }) same)
  | inr later ↦ inr (has_target release profile list later)
]

module _ {C E : Type 0} (self : Catalog C E) where
  abbrev pub Describes : Target → List Version → Type 0
  Describes target list =
      Listed target.release list × Listed target.profile (profiles_in self target.release)

  pub targets_in-Describes :
      (target : Target) (list : List Version)
      → Listed target (targets_in self list)
      → Describes target list
  unfolding targets_in
  targets_in-Describes target [] h = elim h [ ]
  targets_in-Describes target (release ∷ others) h =
      elim (Listed-append target (targets_of release (profiles_in self release))
        (targets_in self others) h) [
          | inl own ↦
              let (same, listed) = of_release target release (profiles_in self release) own in
              (inl same, rw same listed)
          | inr later ↦
              let (place, listed) = targets_in-Describes target others later in (inr place, listed)
        ]

  Describes-targets_in :
      (target : Target) (list : List Version)
      → Describes target list
      → Listed target (targets_in self list)
  unfolding targets_in
  Describes-targets_in target [] h = elim h.0 [ ]
  Describes-targets_in target (release ∷ others) h = elim h.0 [
    | inl same ↦
        before target (targets_of release (profiles_in self release)) (targets_in self others) (
          rw (← same)
            (has_target target.release target.profile (profiles_in self target.release) h.1))
    | inr later ↦
        behind target (targets_of release (profiles_in self release)) (targets_in self others)
          (Describes-targets_in target others (later, h.1))
  ]

  pub Describes_iff :
      (target : Target) → Listed target (targets self) ↔ Describes target (versions self)
  unfolding targets
  Describes_iff target =
      (targets_in-Describes target (versions self), Describes-targets_in target (versions self))
