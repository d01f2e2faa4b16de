-- ===== src/Transport/Queue/Operations.antt =====
-- What the operations of `LinkedListNode` do to the list that the links represent.
use stm32wb_hci.Prelude.{
  ℕ, ◌≡◌, ◌≢◌, ◌↔◌, refl, sym, ◌∙◌, true, Option, none, some, List, [], ◌∷◌, ◌++◌, arith,
}
use stm32wb_hci.Prelude.Bytes.{All}
use stm32wb_hci.Transport.Queue.{
  Memory, write_volatile, init_head, is_empty, insert_head, remove_node, remove_head,
}
use stm32wb_hci.Transport.Queue.Chain.{
  Chain, NotIn, Distinct, Represents, All-append, Chain-agree, Chain-unlink, Chain-link, next-In,
  prev-In, updated,
}
use stm32wb_hci.Transport.Queue.Fields.{
  remove_node-next, remove_node-prev, insert_head-next, insert_head-prev, remove_node-other,
  insert_head-other,
}

-- Two memories that agree outside a head and its nodes.
abbrev pub AgreeOutside : List ℕ → Memory → Memory → Type 0
AgreeOutside touched memory memory' = (x : ℕ) → NotIn x touched → memory' x ≡ memory x

All-everywhere {κ} : {P : ℕ → Type κ} (xs : List ℕ) → ((x : ℕ) → P x) → All P xs
All-everywhere [] f = tt
All-everywhere (x ∷ xs) f = (f x, All-everywhere xs f)

NotIn-remove :
    (x : ℕ) (xs : List ℕ) (y : ℕ) (ys : List ℕ) → NotIn x (xs ++ (y ∷ ys)) → NotIn x (xs ++ ys)
NotIn-remove x [] y ys h = h.1
NotIn-remove x (z ∷ xs) y ys h = (h.0, NotIn-remove x xs y ys h.1)

Distinct-remove :
    (xs : List ℕ) (y : ℕ) (ys : List ℕ) → Distinct (xs ++ (y ∷ ys)) → Distinct (xs ++ ys)
Distinct-remove [] y ys d = d.1
Distinct-remove (x ∷ xs) y ys d = (NotIn-remove x xs y ys d.0, Distinct-remove xs y ys d.1)

-- What taking the head leaves.
abbrev pub Popped : Memory → ℕ → List ℕ → Option ℕ × Memory → Type 0
Popped memory head [] result = result ≡ (none, memory)
Popped memory head (node ∷ rest) result =
    (memory' : Memory) × (result ≡ (some node, memory'))
    × Represents memory' head rest
    × AgreeOutside (head ∷ rest) memory memory'

module _ (memory : Memory) (head : ℕ) where
  -- `init_head` makes an empty list.
  pub init_head-Represents : Represents (init_head memory head) head []
  unfolding init_head write_volatile
  init_head-Represents = record { links = (ground arith, ground arith); distinct = (tt, tt) }

  -- `is_empty` tells whether the list that the memory represents has no node.
  pub is_empty_iff :
      (nodes : List ℕ) → Represents memory head nodes → (is_empty memory head ≡ true) ↔ (nodes ≡ [])
  unfolding is_empty
  is_empty_iff [] r = (λ h. refl, λ h. let e = r.links.0 in ground (arith, e))
  is_empty_iff (node ∷ nodes) r =
      let e = r.links.0 in
      let ne = r.distinct.0.0 in (λ h. absurd (ne (ground (arith, e, h))), λ h. cc)

  first-NotIn :
      (nodes : List ℕ) (x : ℕ)
      → Chain (λ y. (memory y).next) (λ y. (memory y).prev) head nodes head
      → NotIn x (head ∷ nodes)
      → (memory head).next ≢ x
  first-NotIn [] x c h e = h.0 (sym c.0 ∙ e)
  first-NotIn (b ∷ bs) x c h e = h.1.0 (sym c.0 ∙ e)

  -- Inserting a node that the list does not hold puts it at the front, and changes the memory of no
  -- address but the head's, the node's and the list's.
  pub insert_head_pushes :
      (nodes : List ℕ) (node : ℕ)
      → Represents memory head nodes
      → NotIn node (head ∷ nodes)
      → Represents (insert_head memory head node) head (node ∷ nodes)
        × AgreeOutside (node ∷ head ∷ nodes) memory (insert_head memory head node)
  insert_head_pushes nodes node r new =
      let apart : node ≢ head = λ e. new.0 (sym e) in
      let fresh : node ≢ (memory head).next = λ e. first-NotIn nodes node r.links new (sym e) in
      (
        record {
          links =
              Chain-agree
                (updated (updated (λ y. (memory y).next) node (memory head).next) head node)
                (updated (updated (λ y. (memory y).prev) node head) (memory head).next node)
                (λ y. (insert_head memory head node y).next)
                (λ y. (insert_head memory head node y).prev) head (node ∷ nodes) head
                (All-everywhere (head ∷ node ∷ nodes)
                  (λ x. insert_head-next memory head node x apart fresh))
                (All-everywhere (node ∷ nodes)
                  (λ x. insert_head-prev memory head node x apart fresh))
                (insert_head-prev memory head node head apart fresh)
                (Chain-link (λ y. (memory y).next) (λ y. (memory y).prev) head nodes head node
                  r.links r.distinct r.distinct.0 new new.0);
          distinct = ((apart, r.distinct.0), (new.1, r.distinct.1));
        },
        λ x out.
            insert_head-other memory head node x (λ e. out.1.0 (sym e)) (λ e. out.0 (sym e))
              (λ e. first-NotIn nodes x r.links out.1 (sym e)),
      )

  -- Where the links represent a list without repetitions, `remove_node` takes a node out of it, wherever
  -- the node stands, and changes the memory of no address outside the list.
  pub remove_node_unlinks :
      (before : List ℕ) (node : ℕ) (behind : List ℕ)
      → Represents memory head (before ++ (node ∷ behind))
      → Represents (remove_node memory node) head (before ++ behind)
        × AgreeOutside (head ∷ before ++ behind) memory (remove_node memory node)
  remove_node_unlinks before node behind r = (
    record {
      links =
          Chain-agree (updated (λ y. (memory y).next) (memory node).prev (memory node).next)
            (updated (λ y. (memory y).prev) (memory node).next (memory node).prev)
            (λ y. (remove_node memory node y).next) (λ y. (remove_node memory node y).prev) head
            (before ++ behind) head
            (All-everywhere (head ∷ before ++ behind) (λ x. remove_node-next memory node x))
            (All-everywhere (before ++ behind) (λ x. remove_node-prev memory node x))
            (remove_node-prev memory node head)
            (Chain-unlink (λ y. (memory y).next) (λ y. (memory y).prev) head before node behind head
              r.links r.distinct.1 r.distinct.0 r.distinct.0);
      distinct = (
        NotIn-remove head before node behind r.distinct.0,
        Distinct-remove before node behind r.distinct.1,
      );
    },
    λ x out.
        let (l, rest) = All-append (λ v. v ≢ x) (head ∷ before) behind out in
        remove_node-other memory node x
          (λ e.
            next-In (λ y. (memory y).next) (λ y. (memory y).prev) (λ v. v ≢ x) head before node
              behind head r.links rest l.0 (sym e))
          (λ e.
            prev-In (λ y. (memory y).next) (λ y. (memory y).prev) (λ v. v ≢ x) head before node
              behind head r.links l (sym e)),
  )

  -- `remove_head` on an empty list gives nothing and writes nothing; else it gives the first node and
  -- leaves the list of the others, with nothing outside the list written.
  pub remove_head_pops :
      (nodes : List ℕ)
      → Represents memory head nodes
      → Popped memory head nodes (remove_head memory head)
  unfolding remove_head
  remove_head_pops [] r = let back = r.links.0 in ground (arith, back)
  remove_head_pops (node ∷ rest) r =
      let first : (memory head).next ≡ node = r.links.0 in
      let ne : node ≢ head = r.distinct.0.0 in
      let (made, same) = remove_node_unlinks [] node rest r in
      (remove_node memory node, ground (arith, first, ne), made, same)
