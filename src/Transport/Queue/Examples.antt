-- ===== src/Transport/Queue/Examples.antt =====
-- Runs of the list operations of examples/embassy/src/transport.rs, and the theorems there.
use stm32wb_hci.Prelude.{ℕ, ◌≡◌, refl, some, List, [], ◌∷◌, ◌++◌, arith}
use mathlib.Core.List.{reverse}
use stm32wb_hci.Transport.Queue.{
  Memory, write_volatile, init_head, insert_head, remove_node, remove_head, release,
}
use stm32wb_hci.Transport.Queue.Chain.{Represents}
use stm32wb_hci.Transport.Queue.Operations.{AgreeOutside, insert_head_pushes, remove_node_unlinks}
use stm32wb_hci.Transport.Queue.Release.{BothRepresent, release_moves_all}

abbrev blank : Memory
blank = λ x. record { next = 0; prev = 0 }

-- The list at 1 with the nodes 6 and 5, and the empty one at 2.
abbrev two_nodes : Memory
two_nodes = insert_head (insert_head (init_head (init_head blank 2) 1) 1 5) 1 6

first_node : (remove_head two_nodes 1).0 ≡ some 6
unfolding remove_head insert_head init_head write_volatile
first_node = refl

two_nodes-Represents : Represents two_nodes 1 (6 ∷ 5 ∷ [])
unfolding insert_head init_head write_volatile
two_nodes-Represents = record {
  links = (refl, refl, (refl, refl, (refl, refl)));
  distinct = (
    ((λ e. omega (arith, e)), ((λ e. omega (arith, e)), tt)),
    (((λ e. omega (arith, e)), tt), (tt, tt)),
  );
}

two_nodes-free : Represents two_nodes 2 []
unfolding insert_head init_head write_volatile
two_nodes-free = record { links = (refl, refl); distinct = (tt, tt) }

two_nodes-Both : BothRepresent two_nodes 1 (6 ∷ 5 ∷ []) 2 []
two_nodes-Both = record {
  local_nodes = two_nodes-Represents;
  free_nodes = two_nodes-free;
  apart = (
    ((λ e. omega (arith, e)), tt),
    (((λ e. omega (arith, e)), tt), (((λ e. omega (arith, e)), tt), tt)),
  );
}

abbrev held : List ℕ
held = 6 ∷ 5 ∷ []

insert_head_pushes_example :
    Represents (insert_head two_nodes 1 9) 1 (9 ∷ 6 ∷ 5 ∷ [])
    × AgreeOutside (9 ∷ 1 ∷ 6 ∷ 5 ∷ []) two_nodes (insert_head two_nodes 1 9)
insert_head_pushes_example =
    insert_head_pushes two_nodes 1 (6 ∷ 5 ∷ []) 9 two_nodes-Represents
      ((λ e. omega (arith, e)), ((λ e. omega (arith, e)), ((λ e. omega (arith, e)), tt)))

remove_node_unlinks_example :
    Represents (remove_node two_nodes 5) 1 ((6 ∷ []) ++ [])
    × AgreeOutside (1 ∷ (6 ∷ []) ++ []) two_nodes (remove_node two_nodes 5)
remove_node_unlinks_example = remove_node_unlinks two_nodes 1 (6 ∷ []) 5 [] two_nodes-Represents

release_moves_all_example :
    (memory' : Memory) × (release 3 two_nodes 1 2 ≡ some memory')
    × BothRepresent memory' 1 [] 2 (reverse (6 ∷ 5 ∷ []) ++ [])
release_moves_all_example =
    release_moves_all (6 ∷ 5 ∷ []) 3 two_nodes 1 2 [] (omega arith) two_nodes-Both
