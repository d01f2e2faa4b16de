-- ===== src/Catalog/History/Examples.antt =====
-- A run of `segments` of crates/stm32wb-catalog/src/history.rs: releases are numbers, slices of profiles
-- and entries numbers that `==` compares.
use stm32wb_hci.Prelude.{ℕ, ◌≡◌, refl, List, [], ◌∷◌, ◌==◌, if◌then◌else◌}
use stm32wb_hci.Catalog.History.{Segment, resolved, missing, segments_loop, segments}
use stm32wb_hci.Catalog.History.Runs.{Runs, segments-Runs}

-- The releases 1 and 2 have the entry 7, 3 has none, and 4 has it again; 5 has another.
facts_at : ℕ → List (ℕ × ℕ)
facts_at release = if release == 3 then [] else if release == 5 then (0, 8) ∷ [] else (0, 7) ∷ []

abbrev releases : List ℕ
releases = 1 ∷ 2 ∷ 3 ∷ 4 ∷ 5 ∷ []

abbrev found : List (Segment ℕ ℕ ℕ)
found =
    record { releases = record { first = 1; last = 2 }; profiles = 0; entry = 7 }
    ∷ record { releases = record { first = 4; last = 4 }; profiles = 0; entry = 7 }
    ∷ record { releases = record { first = 5; last = 5 }; profiles = 0; entry = 8 }
    ∷ []

three_segments : segments facts_at ◌==◌ ◌==◌ releases ≡ resolved found
unfolding segments segments_loop facts_at
three_segments = refl

no_entry : segments facts_at ◌==◌ ◌==◌ (3 ∷ []) ≡ missing
unfolding segments segments_loop facts_at
no_entry = refl

segments-Runs_example : Runs facts_at ◌==◌ ◌==◌ releases found
segments-Runs_example = segments-Runs facts_at ◌==◌ ◌==◌ releases found three_segments
