-- ===== src/Transport/Queue/Release.antt =====
-- `run_queue` of examples/embassy/src/transport.rs: two lists in one memory, and the loop that moves the
-- nodes of the local one to the front of the one of the other processor.
use mathlib.Core.List.{append_assoc, reverse, reverse-cons}
use stm32wb_hci.Prelude.{
  ℕ, zero, suc, ◌<◌, ◌≡◌, sym, ◌∙◌, ap, Option, none, some, List, [], ◌∷◌, ◌++◌, length, arith,
}
use stm32wb_hci.Prelude.Bytes.{All}
use stm32wb_hci.Transport.Queue.{Memory, insert_head, remove_head, release}
use stm32wb_hci.Transport.Queue.Chain.{NotIn, Represents, Represents-frame, All-map}
use stm32wb_hci.Transport.Queue.Operations.{AgreeOutside, insert_head_pushes, remove_head_pops}

abbrev pub Apart : List ℕ → List ℕ → Type 0
Apart xs ys = All (λ x. NotIn x ys) xs

-- Two lists without a common address, at the heads `local` and `free`.
pub record BothRepresent (memory : Memory) (local : ℕ) (ls : List ℕ) (free : ℕ) (fs : List ℕ)
    : Type 0 where
  pub local_nodes : Represents memory local ls
  pub free_nodes : Represents memory free fs
  pub apart : Apart (local ∷ ls) (free ∷ fs)

Apart-step : (xs : List ℕ) (y : ℕ) (ys : List ℕ) → NotIn y xs → Apart xs ys → Apart xs (y ∷ ys)
Apart-step [] y ys h a = tt
Apart-step (x ∷ xs) y ys h a = ((λ e. h.0 (sym e), a.0), Apart-step xs y ys h.1 a.1)

-- The order of two neighbours does not matter.
Apart-swap : (xs : List ℕ) (y z : ℕ) (ys : List ℕ) → Apart xs (y ∷ z ∷ ys) → Apart xs (z ∷ y ∷ ys)
Apart-swap xs y z ys a = All-map xs (λ x h. (h.1.0, (h.0, h.1.1))) a

Apart-drop : (x y : ℕ) (xs ys : List ℕ) → Apart (x ∷ y ∷ xs) ys → Apart (x ∷ xs) ys
Apart-drop x y xs ys a = (a.0, a.1.1)

-- What is apart from the touched addresses is as it was.
unchanged :
    (memory memory' : Memory) (touched nodes : List ℕ)
    → AgreeOutside touched memory memory'
    → Apart nodes touched
    → All (λ x. memory' x ≡ memory x) nodes
unchanged memory memory' touched nodes same a = All-map nodes same a

Apart-sym : (xs ys : List ℕ) → Apart xs ys → Apart ys xs
Apart-sym [] [] a = tt
Apart-sym [] (y ∷ ys) a = (tt, Apart-sym [] ys tt)
Apart-sym (x ∷ xs) ys a = Apart-step ys x xs a.0 (Apart-sym xs ys a.1)

-- One turn of the loop moves the first node of the local list to the front of the other.
move_one :
    (memory : Memory) (local node : ℕ) (ls : List ℕ) (free : ℕ) (fs : List ℕ)
    → BothRepresent memory local (node ∷ ls) free fs
    → (memory₁ : Memory) × (remove_head memory local ≡ (some node, memory₁))
      × BothRepresent (insert_head memory₁ free node) local ls free (node ∷ fs)
move_one memory local node ls free fs b =
    let (memory₁, e, popped, same) = remove_head_pops memory local (node ∷ ls) b.local_nodes in
    let rest_apart : Apart (local ∷ ls) (free ∷ fs) =
      Apart-drop local node ls (free ∷ fs) b.apart in
    let free₁ =
      Represents-frame memory memory₁ free fs
        (unchanged memory memory₁ (local ∷ ls) (free ∷ fs) same
          (Apart-sym (local ∷ ls) (free ∷ fs) rest_apart))
        b.free_nodes in
    let (pushed, same₂) = insert_head_pushes memory₁ free fs node free₁ b.apart.1.0 in
    let out : NotIn node (local ∷ ls) =
      ((λ q. b.local_nodes.distinct.0.0 (sym q)), b.local_nodes.distinct.1.0) in
    let apart₂ : Apart (local ∷ ls) (node ∷ free ∷ fs) =
      Apart-step (local ∷ ls) node (free ∷ fs) out rest_apart in
    (
      memory₁,
      e,
      record {
        local_nodes =
            Represents-frame memory₁ (insert_head memory₁ free node) local ls
              (unchanged memory₁ (insert_head memory₁ free node) (node ∷ free ∷ fs) (local ∷ ls)
                same₂ apart₂)
              popped;
        free_nodes = pushed;
        apart = Apart-swap (local ∷ ls) node free fs apart₂;
      },
    )

release_step :
    (fuel : ℕ) (memory memory₁ : Memory) (local free : ℕ) (taken : Option ℕ)
    → remove_head memory local ≡ (taken, memory₁)
    → release (suc fuel) memory local free ≡ elim taken [
      | none ↦ some memory₁
      | some node ↦ release fuel (insert_head memory₁ free node) local free
    ]
unfolding release
release_step fuel memory memory₁ local free taken e =
    ap
      (λ (r : Option ℕ × Memory). elim r.0 [
        | none ↦ some r.1
        | some node ↦ release fuel (insert_head r.1 free node) local free
      ])
      e

-- The loop of `run_queue` ends, with one turn more than there are released buffers, and hands all of
-- them back: the local list is empty, and the other has them in front, the last one first.
pub release_moves_all :
    (ls : List ℕ) (fuel : ℕ) (memory : Memory) (local free : ℕ) (fs : List ℕ)
    → length ls < fuel
    → BothRepresent memory local ls free fs
    → (memory' : Memory) × (release fuel memory local free ≡ some memory')
      × BothRepresent memory' local [] free (reverse ls ++ fs)
unfolding release
release_moves_all ls zero memory local free fs enough b = absurd (omega arith)
release_moves_all [] (suc fuel) memory local free fs enough b =
    let e = remove_head_pops memory local [] b.local_nodes in
    (memory, release_step fuel memory memory local free none e, b)
release_moves_all (node ∷ ls) (suc fuel) memory local free fs enough b =
    let (memory₁, e, moved) = move_one memory local node ls free fs b in
    let (memory', e', done) =
      release_moves_all ls fuel (insert_head memory₁ free node) local free (node ∷ fs) (omega arith)
        moved in
    (
      memory',
      release_step fuel memory memory₁ local free (some node) e ∙ e',
      rw (reverse-cons node ls, append_assoc) done,
    )
