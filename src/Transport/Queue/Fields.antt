-- ===== src/Transport/Queue/Fields.antt =====
-- What the operations of `LinkedListNode` do to the two links of every address: each sets at most two
-- `next` and two `prev` fields, on both of its branches.
use stm32wb_hci.Prelude.{ℕ, ◌≡◌, ◌≢◌, arith}
use stm32wb_hci.Transport.Queue.{Memory, write_volatile, insert_head, remove_node}
use stm32wb_hci.Transport.Queue.Chain.{updated}

module _ (memory : Memory) (node x : ℕ) where
  pub remove_node-next :
      (remove_node memory node x).next
      ≡ updated (λ y. (memory y).next) (memory node).prev (memory node).next x
  unfolding remove_node write_volatile
  remove_node-next = ground arith

  pub remove_node-prev :
      (remove_node memory node x).prev
      ≡ updated (λ y. (memory y).prev) (memory node).next (memory node).prev x
  unfolding remove_node write_volatile
  remove_node-prev = ground arith

module _ (memory : Memory) (head node x : ℕ) (apart : node ≢ head)
    (new : node ≢ (memory head).next) where
  pub insert_head-next :
      (insert_head memory head node x).next
      ≡ updated (updated (λ y. (memory y).next) node (memory head).next) head node x
  unfolding insert_head write_volatile
  insert_head-next = ground (arith, apart, new)

  pub insert_head-prev :
      (insert_head memory head node x).prev
      ≡ updated (updated (λ y. (memory y).prev) node head) (memory head).next node x
  unfolding insert_head write_volatile
  insert_head-prev = ground (arith, apart, new)

pub remove_node-other :
    (memory : Memory) (node x : ℕ)
    → x ≢ (memory node).next
    → x ≢ (memory node).prev
    → remove_node memory node x ≡ memory x
unfolding remove_node write_volatile
remove_node-other memory node x hn hp = ground (arith, hn, hp)

pub insert_head-other :
    (memory : Memory) (head node x : ℕ)
    → x ≢ head
    → x ≢ node
    → x ≢ (memory head).next
    → insert_head memory head node x ≡ memory x
unfolding insert_head write_volatile
insert_head-other memory head node x hh hn hf = ground (arith, hh, hn, hf)
