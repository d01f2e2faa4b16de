-- ===== src/Catalog/Queries/Representatives.antt =====
-- The representatives that `distinct_targets` of crates/stm32wb-catalog/src/view.rs chooses.
use stm32wb_hci.Prelude.{
  ◌≡◌, ◌≢◌, ◌⊎◌, inl, inr, ◌↔◌, refl, ap, sym, Bool, true, false, ◌||◌, Bool-cases, arith, Option,
  none, some, List, [], ◌∷◌, if◌then◌else◌,
}
use stm32wb_hci.Prelude.Bytes.{All}
use stm32wb_hci.Catalog.Release.{Version}
use stm32wb_hci.Catalog.Release.Texts.{same_version}
use stm32wb_hci.Catalog.Domain.Items.Results.{Listed}
use stm32wb_hci.Catalog.Entries.View.{Target, Active}
use stm32wb_hci.Catalog.Queries.{
  Catalog, targets, versions, has_release, same_list, has_element, view, interface, cons_target,
  representatives, distinct_targets,
}
use stm32wb_hci.Catalog.Queries.Targets.{All-Listed, Describes, Describes_iff}

same_list_iff :
    {A : Type 0} (same : A → A → Bool)
    → ((a b : A) → (same a b ≡ true) ↔ (a ≡ b))
    → (xs ys : List A) → (same_list same xs ys ≡ true) ↔ (xs ≡ ys)
unfolding same_list
same_list_iff same same_iff [] [] = (λ h. refl, λ h. refl)
same_list_iff same same_iff [] (y ∷ ys) = (λ h. cc, λ h. cc)
same_list_iff same same_iff (x ∷ xs) [] = (λ h. cc, λ h. cc)
same_list_iff same same_iff (x ∷ xs) (y ∷ ys) =
    ground (arith, same_iff x y, same_list_iff same same_iff xs ys)

module _ {J : Type 0} (same : J → J → Bool) (key : Target → J) where
  -- The first target with an interface.
  unfoldable pub first_with : J → List Target → Option Target
  first_with found [] = none
  first_with found (target ∷ others) =
      let later = first_with found others in if same (key target) found then some target else later

  -- The targets whose interface no earlier one has.
  unfoldable pub firsts : List Target → List J → List Target
  firsts [] seen = []
  firsts (target ∷ others) seen =
      let known = firsts others seen in
      let inserted = firsts others (key target ∷ seen) in
      if has_element same (key target) seen then known else target ∷ inserted

  -- No two targets have the same interface.
  abbrev pub Distinct : List Target → Type 0
  Distinct [] = Unit
  Distinct (target ∷ others) = All (λ other. key other ≢ key target) others × Distinct others

module _ {J : Type 0} (same : J → J → Bool) (key : Target → J)
    (same_iff : (a b : J) → (same a b ≡ true) ↔ (a ≡ b)) where
  firsts-unseen :
      (target : Target) (list : List Target) (seen : List J)
      → Listed target (firsts same key list seen)
      → has_element same (key target) seen ≡ false
  unfolding firsts has_element
  firsts-unseen target [] seen h = elim h [ ]
  firsts-unseen target (head ∷ list) seen h = elim (Bool-cases (has_element same (key head) seen)) [
    | inl known ↦ firsts-unseen target list seen (rw (firsts, known) at h)
    | inr inserted ↦
        let listed : (target ≡ head) ⊎ Listed target (firsts same key list (key head ∷ seen)) =
          rw (firsts, inserted) at h in
        elim listed [
          | inl own ↦ rw own inserted
          | inr later ↦
              let unseen : (same (key head) (key target) || has_element same (key target) seen)
                  ≡ false =
                firsts-unseen target list (key head ∷ seen) later in
              ground (arith, unseen)
        ]
  ]

  first-listed :
      (target : Target) (list : List Target) (seen : List J)
      → has_element same (key target) seen ≡ false
      → first_with same key (key target) list ≡ some target
      → Listed target (firsts same key list seen)
  unfolding firsts first_with has_element
  first-listed target [] seen h p = cc
  first-listed target (head ∷ list) seen h p = elim (Bool-cases (same (key head) (key target))) [
    | inl equal ↦
        let found : some head ≡ some target = rw (first_with, equal) at p in
        let own : head ≡ target = cc in
        let inserted : has_element same (key head) seen ≡ false = rw own h in
        rw (firsts, inserted) (inl (sym own))
    | inr other ↦
        let later : first_with same key (key target) list ≡ some target =
          rw (first_with, other) at p in
        elim (Bool-cases (has_element same (key head) seen)) [
          | inl known ↦ rw (firsts, known) (first-listed target list seen h later)
          | inr inserted ↦
              rw (firsts, inserted)
                (inr (first-listed target list (key head ∷ seen) (ground (arith, other, h)) later))
        ]
  ]

  firsts-Distinct :
      (list : List Target) (seen : List J) → Distinct same key (firsts same key list seen)
  unfolding firsts has_element
  firsts-Distinct [] seen = tt
  firsts-Distinct (head ∷ list) seen = elim (Bool-cases (has_element same (key head) seen)) [
    | inl known ↦ rw (firsts, known) (firsts-Distinct list seen)
    | inr inserted ↦
        rw (firsts, inserted)
          (
            All-Listed (λ other. key other ≢ key head) (firsts same key list (key head ∷ seen))
                apart_from,
            firsts-Distinct list (key head ∷ seen),
          )
  ]
    where
      apart_from :
          (other : Target)
          → Listed other (firsts same key list (key head ∷ seen))
          → key other ≢ key head
      apart_from other listed equal =
          let unseen : (same (key head) (key other) || has_element same (key other) seen) ≡ false =
            firsts-unseen other list (key head ∷ seen) listed in
          let here : same (key head) (key other) ≡ true =
            (same_iff (key head) (key other)).1 (sym equal) in
          ground (arith, unseen, here)

  -- A target of the list is represented by the first with its interface.
  first_with-some :
      (target : Target) (list : List Target)
      → Listed target list
      → (first : Target) × (first_with same key (key target) list ≡ some first)
        × (key first ≡ key target)
  unfolding first_with
  first_with-some target [] h = elim h [ ]
  first_with-some target (head ∷ list) h = elim (Bool-cases (same (key head) (key target))) [
    | inl equal ↦ (head, rw equal refl, (same_iff (key head) (key target)).0 equal)
    | inr other ↦ elim h [
      | inl own ↦
          let equal : same (key head) (key target) ≡ true =
            (same_iff (key head) (key target)).1 (ap key (sym own)) in
          ground (arith, other, equal)
      | inr later ↦
          let (first, found, agree) = first_with-some target list later in
          (first, rw other found, agree)
    ]
  ]

has_release-Listed :
    (release : Version) (list : List Version)
    → Listed release list
    → has_release release list ≡ true
unfolding has_release
has_release-Listed release [] h = elim h [ ]
has_release-Listed release (version ∷ list) h = elim h [
  | inl own ↦
      let itself : same_version release release ≡ true = ground arith in rw (← own, itself) refl
  | inr later ↦ ground (arith, has_release-Listed release list later)
]

module _ {C E K : Type 0} (same_key : K → K → Bool) (command_key : Version → Active C → K)
    (event_key : Version → Active E → K) (self : Catalog C E) where
  abbrev pub interface_of : Target → List K
  interface_of target = interface same_key command_key event_key self target

  abbrev pub same_interface : List K → List K → Bool
  same_interface a b = same_list same_key a b

  -- The loop finds every release that it asks for.
  representatives-firsts :
      (list : List Target) (seen : List (List K))
      → ((target : Target) → Listed target list → view self target ≡ some target)
      → representatives same_key command_key event_key self list seen
        ≡ some (firsts same_interface interface_of list seen)
  unfolding representatives firsts
  representatives-firsts [] seen h = refl
  representatives-firsts (target ∷ list) seen h =
      let found : view self target ≡ some target = h target (inl refl) in
      elim (Bool-cases (has_element same_interface (interface_of target) seen)) [
        | inl known ↦
            rw (representatives, firsts, found, known)
              (representatives-firsts list seen (λ t listed. h t (inr listed)))
        | inr inserted ↦
            rw (representatives, firsts, found, inserted)
              (ap (cons_target same_key command_key event_key target) (
                representatives-firsts list (interface_of target ∷ seen)
                  (λ t listed. h t (inr listed))))
      ]

  view-targets : (target : Target) → Listed target (targets self) → view self target ≡ some target
  unfolding view
  view-targets target listed =
      rw
        (has_release-Listed target.release (versions self) ((Describes_iff self target).0 listed).0)
        refl

  -- `distinct_targets` does not panic. No two of the targets that it gives have the same interface, and the
  -- interface of a target that the catalog describes is that of one of them: the first with it in the catalog.
  pub distinct_targets_lem :
      (target : Target)
      → ((a b : K) → (same_key a b ≡ true) ↔ (a ≡ b))
      → Describes self target (versions self)
      → (chosen : List Target) × (distinct_targets same_key command_key event_key self
          ≡ some chosen)
        × Distinct same_interface interface_of chosen
        × (first : Target) × Listed first chosen
        × (interface_of first ≡ interface_of target)
        × (first_with same_interface interface_of (interface_of target) (targets self) ≡ some first)
  unfolding distinct_targets has_element
  distinct_targets_lem target same_key_iff described =
      let same_iff : (a b : List K) → (same_interface a b ≡ true) ↔ (a ≡ b) =
        same_list_iff same_key same_key_iff in
      let (first, found, agree) =
        first_with-some same_interface interface_of same_iff target (targets self)
          ((Describes_iff self target).1 described) in
      (
        firsts same_interface interface_of (targets self) [],
        representatives-firsts (targets self) [] view-targets,
        firsts-Distinct same_interface interface_of same_iff (targets self) [],
        first,
        first-listed same_interface interface_of same_iff first (targets self) [] refl
            (rw agree found),
        agree,
        found,
      )
