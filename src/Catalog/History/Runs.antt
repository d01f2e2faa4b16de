-- ===== src/Catalog/History/Runs.antt =====
-- What `segments` of crates/stm32wb-catalog/src/history.rs finds: maximal runs of consecutive releases.
use mathlib.Core.List.{reverse, reverse-cons, append_assoc, append-nil}
use stm32wb_hci.Prelude.{
  ◌≡◌, ◌⊎◌, inl, inr, refl, sym, ◌∙◌, Bool, true, false, Bool-cases, List, [], ◌∷◌, ◌++◌,
}
use stm32wb_hci.Catalog.History.{
  Segment, Resolution, resolved, ambiguous, missing, some_segments, Turn, goes, fails, single,
  extend, is_same, turn, segments_loop, segments,
}

resolved-injective :
    {V P T : Type 0} {xs ys : List (Segment V P T)} → resolved xs ≡ resolved ys → xs ≡ ys
resolved-injective h = cc

module _ {V P T : Type 0} (at : V → List (P × T)) (same_profiles : P → P → Bool)
    (same_entry : T → T → Bool) where
  -- A run with these facts ends before these releases: there is none, or the next has no entry or another.
  abbrev pub Stops : P → T → List V → Type 0
  Stops profiles entry [] = Unit
  Stops profiles entry (release ∷ releases) =
      (at release ≡ [])
      ⊎ ((next : P × T) × (at release ≡ next ∷ [])
          × (is_same at same_profiles same_entry profiles entry next.0 next.1 ≡ false))

  -- From a release in a run: the releases that follow, the run's last release, and those behind it.
  pub data Run (profiles : P) (entry : T) : V → List V → V → List V → Type 0 where
    ends :
        {release : V} {releases : List V}
        → Stops profiles entry releases
        → Run profiles entry release releases release releases
    continues :
        {release last next : V} {releases behind : List V} (facts : P × T)
        → at next ≡ facts ∷ []
        → is_same at same_profiles same_entry profiles entry facts.0 facts.1 ≡ true
        → Run profiles entry next releases last behind
        → Run profiles entry release (next ∷ releases) last behind

  -- The releases are runs, one for each segment in order, and releases without the entry between them.
  pub data Runs : List V → List (Segment V P T) → Type 0 where
    done : Runs [] []
    skips :
        {release : V} {releases : List V} {found : List (Segment V P T)}
        → at release ≡ []
        → Runs releases found
        → Runs (release ∷ releases) found
    runs :
        {release last : V} {releases behind : List V} {found : List (Segment V P T)} (facts : P × T)
        → at release ≡ facts ∷ []
        → Run facts.0 facts.1 release releases last behind
        → Runs behind found
        → Runs (release ∷ releases) (
            record {
              releases = record { first = release; last = last };
              profiles = facts.0;
              entry = facts.1;
            }
            ∷ found)

  -- What the loop finds from here, with no run open.
  abbrev Closed : List V → List (Segment V P T) → List (Segment V P T) → Type 0
  Closed releases before out =
      (found : List (Segment V P T)) × (out ≡ reverse before ++ found) × Runs releases found

  -- The same, with the run of the segment `s` open.
  abbrev Open : List V → Segment V P T → List (Segment V P T) → List (Segment V P T) → Type 0
  Open releases s before out =
      (last : V) × (behind : List V) × (found : List (Segment V P T)) × (out
        ≡ reverse before ++ (extend at same_profiles same_entry s last ∷ found))
      × Run s.profiles s.entry s.releases.last releases last behind
      × Runs behind found

  module _ (release : V) (releases : List V) (out : List (Segment V P T)) where
    abbrev After : Turn V P T → Type 0
    After t =
        elim t [
          | goes adjacent segments ↦
              segments_loop at same_profiles same_entry releases adjacent segments
          | fails count release ↦ ambiguous count release
        ]
        ≡ resolved out

    abbrev HypClosed : Type 0
    HypClosed =
        (before : List (Segment V P T))
        → segments_loop at same_profiles same_entry releases false before ≡ resolved out
        → Closed releases before out

    abbrev HypOpen : Type 0
    HypOpen =
        (s : Segment V P T) (before : List (Segment V P T))
        → segments_loop at same_profiles same_entry releases true (s ∷ before) ≡ resolved out
        → Open releases s before out

    -- A release whose entry begins a run.
    begins :
        HypOpen
        → (facts : P × T) (before : List (Segment V P T)) → at release ≡ facts ∷ []
        → segments_loop at same_profiles same_entry releases true
            (single at same_profiles same_entry release facts.0 facts.1 ∷ before)
          ≡ resolved out
        → Closed (release ∷ releases) before out
    begins o facts before e h =
        let (last, behind, found, q, run, others) =
          o (single at same_profiles same_entry release facts.0 facts.1) before h in
        (_, q, runs facts e run others)

    turn-Closed :
        HypClosed
        → HypOpen
        → (active : List (P × T)) (before : List (Segment V P T)) → at release ≡ active
        → After (turn at same_profiles same_entry release active false before)
        → Closed (release ∷ releases) before out
    turn-Closed c o [] before e h =
        let (found, q, others) = c before h in (found, q, skips e others)
    turn-Closed c o (facts ∷ []) [] e h = begins o facts [] e h
    turn-Closed c o (facts ∷ []) (s ∷ before) e h = begins o facts (s ∷ before) e h
    turn-Closed c o (one ∷ two ∷ active) before e h = cc

    turn-Open :
        HypClosed
        → HypOpen
        → (active : List (P × T)) (s : Segment V P T) (before : List (Segment V P T))
        → at release ≡ active
        → After (turn at same_profiles same_entry release active true (s ∷ before))
        → Open (release ∷ releases) s before out
    turn-Open c o [] s before e h =
        let (found, q, others) = c (s ∷ before) h in
        (
          s.releases.last,
          release ∷ releases,
          found,
          q ∙ rw (reverse-cons s before, append_assoc) refl,
          ends (inl e),
          skips e others,
        )
    turn-Open c o (facts ∷ []) s before e h =
        elim (Bool-cases (is_same at same_profiles same_entry s.profiles s.entry facts.0 facts.1)) [
          | inl same ↦
              let (last, behind, found, q, run, others) =
                o (extend at same_profiles same_entry s release) before (rw same at h) in
              (last, behind, found, q, continues facts e same run, others)
          | inr other ↦
              let (found, q, others) = begins o facts (s ∷ before) e (rw other at h) in
              (
                s.releases.last,
                release ∷ releases,
                found,
                q ∙ rw (reverse-cons s before, append_assoc) refl,
                ends (inr (facts, e, other)),
                others,
              )
        ]
    turn-Open c o (one ∷ two ∷ active) s before e h = cc

  loop_both :
      (releases : List V) (out : List (Segment V P T))
      → ((before : List (Segment V P T))
          → segments_loop at same_profiles same_entry releases false before ≡ resolved out
          → Closed releases before out)
        × ((s : Segment V P T) (before : List (Segment V P T))
            → segments_loop at same_profiles same_entry releases true (s ∷ before) ≡ resolved out
            → Open releases s before out)
  unfolding segments_loop
  loop_both [] out = (
    λ before h. ([], sym (resolved-injective h) ∙ sym (append-nil (reverse before)), done),
    λ s before h. (
      s.releases.last,
      [],
      [],
      sym (resolved-injective h) ∙ reverse-cons s before,
      ends tt,
      done,
    ),
  )
  loop_both (release ∷ releases) out =
      let both = loop_both releases out in
      (
        λ before h. turn-Closed release releases out both.0 both.1 (at release) before refl h,
        λ s before h. turn-Open release releases out both.0 both.1 (at release) s before refl h,
      )

  some_segments_resolved :
      (r : Resolution V P T) (out : List (Segment V P T))
      → some_segments at same_profiles same_entry r ≡ resolved out
      → r ≡ resolved out
  some_segments_resolved (resolved []) out h = cc
  some_segments_resolved (resolved (s ∷ found)) out h = h
  some_segments_resolved (ambiguous count release) out h = cc
  some_segments_resolved missing out h = cc

  -- When `segments` returns segments, the releases are divided in order into maximal runs, one for each
  -- segment, and releases without the entry: in a run every release has one entry, whose profiles and
  -- facts are those of the segment, the segment's range is that of the run, and the release behind a run,
  -- if there is one, has no entry or another one.
  pub segments-Runs :
      (versions : List V) (out : List (Segment V P T))
      → segments at same_profiles same_entry versions ≡ resolved out
      → Runs versions out
  unfolding segments
  segments-Runs versions out h =
      let (found, q, divided) = (loop_both versions out).0 [] (some_segments_resolved _ out h) in
      rw q divided
