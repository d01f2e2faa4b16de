-- ===== src/Catalog/History.antt =====
-- crates/stm32wb-catalog/src/history.rs: the segments of consecutive releases over which an entry's facts
-- stay the same. The vector of segments is a list, the last segment first.
pub mod Runs
mod Examples
use mathlib.Core.List.{reverse}
use stm32wb_hci.Prelude.{ℕ, suc, ◌≡◌, Bool, true, false, ◌&&◌, List, [], ◌∷◌, length, if◌then◌else◌}

pub record ReleaseRange (V : Type 0) : Type 0 where
  pub first : V
  pub last : V

pub record Segment (V P T : Type 0) : Type 0 where
  pub releases : ReleaseRange V
  pub profiles : P
  pub entry : T

-- One error names how many entries there are in which release, the other that no
-- release has the entry.
pub data Resolution (V P T : Type 0) : Type 0 where
  resolved : List (Segment V P T) → Resolution V P T
  ambiguous : ℕ → V → Resolution V P T
  missing : Resolution V P T

-- A turn of the loop: `adjacent` and the segments that it leaves, or the error.
pub data Turn (V P T : Type 0) : Type 0 where
  goes : Bool → List (Segment V P T) → Turn V P T
  fails : ℕ → V → Turn V P T

-- Versions, slices of profiles that `ptr::eq` compares, and entries that `same_entry` compares.
module _ {V P T : Type 0} (at : V → List (P × T)) (same_profiles : P → P → Bool)
    (same_entry : T → T → Bool) where
  abbrev pub single : V → P → T → Segment V P T
  single release profiles entry = record {
    releases = record { first = release; last = release };
    profiles = profiles;
    entry = entry;
  }

  abbrev pub extend : Segment V P T → V → Segment V P T
  extend last release = record last {
    releases = record { first = last.releases.first; last = release };
  }

  -- The facts of the last segment are those of the release.
  abbrev pub is_same : P → T → P → T → Bool
  is_same profiles entry profiles' entry' =
      same_profiles profiles profiles' && same_entry entry entry'

  abbrev pub add : V → P → T → Bool → List (Segment V P T) → List (Segment V P T)
  add release profiles entry extends [] = single release profiles entry ∷ []
  add release profiles entry extends (last ∷ segments) =
      if extends && is_same last.profiles last.entry profiles entry
      then extend last release ∷ segments
      else single release profiles entry ∷ last ∷ segments

  abbrev pub turn : V → List (P × T) → Bool → List (Segment V P T) → Turn V P T
  turn release [] adjacent segments = goes false segments
  turn release ((profiles, entry) ∷ []) adjacent segments =
      goes true (add release profiles entry adjacent segments)
  turn release (one ∷ two ∷ active) adjacent segments = fails (length (one ∷ two ∷ active)) release

  unfoldable pub segments_loop : List V → Bool → List (Segment V P T) → Resolution V P T
  segments_loop [] adjacent segments = resolved (reverse segments)
  segments_loop (release ∷ releases) adjacent segments =
      elim (turn release (at release) adjacent segments) [
        | goes adjacent segments ↦ segments_loop releases adjacent segments
        | fails count release ↦ ambiguous count release
      ]

  -- The test behind the loop.
  abbrev pub some_segments : Resolution V P T → Resolution V P T
  some_segments (resolved []) = missing
  some_segments (resolved (s ∷ found)) = resolved (s ∷ found)
  some_segments (ambiguous count release) = ambiguous count release
  some_segments missing = missing

  unfoldable pub segments : List V → Resolution V P T
  segments versions = some_segments (segments_loop versions false [])
