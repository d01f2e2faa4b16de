-- ===== src/Transport/Queue.antt =====
-- examples/embassy/src/transport.rs: `LinkedListNode`, the circular doubly linked list that the two
-- processors share, on an explicit memory, and the loop of `MemoryManager::run_queue` that hands
-- buffers back. An address is a number; the operations run in critical sections.
pub mod Chain
pub mod Fields
pub mod Operations
pub mod Release
mod Examples
use stm32wb_hci.Prelude.{
  ℕ, zero, suc, ◌≡◌, Bool, true, false, Option, none, some, ◌==◌, if◌then◌else◌,
}

pub record LinkedListNode : Type 0 where
  pub next : ℕ
  pub prev : ℕ

abbrev pub Memory : Type 0
Memory = ℕ → LinkedListNode

unfoldable pub write_volatile : Memory → ℕ → LinkedListNode → Memory
write_volatile memory address node x = if x == address then node else memory x

unfoldable pub init_head : Memory → ℕ → Memory
init_head memory head = write_volatile memory head (record { next = head; prev = head })

unfoldable pub is_empty : Memory → ℕ → Bool
is_empty memory head = (memory head).next == head

unfoldable pub insert_head : Memory → ℕ → ℕ → Memory
insert_head memory head node =
    let list_head = memory head in
    let new_node : LinkedListNode = record { next = list_head.next; prev = head } in
    if head == list_head.next
    then (let memory₁ = write_volatile memory node new_node in
        write_volatile memory₁ head (record { next = node; prev = node }))
    else (let node_next : LinkedListNode = record {
      next = (memory list_head.next).next;
      prev = node;
    } in
        let memory₁ = write_volatile memory node new_node in
        let memory₂ = write_volatile memory₁ new_node.next node_next in
        write_volatile memory₂ head (record { next = node; prev = list_head.prev }))

unfoldable pub remove_node : Memory → ℕ → Memory
remove_node memory node =
    let value = memory node in
    let next = memory value.next in
    if value.next == value.prev
    then write_volatile memory value.next (record { next = value.next; prev = value.prev })
    else (let prev = memory value.prev in
        let memory₁ =
          write_volatile memory value.next (record { next = next.next; prev = value.prev }) in
        write_volatile memory₁ value.prev (record { next = value.next; prev = prev.prev }))

unfoldable pub remove_head : Memory → ℕ → Option ℕ × Memory
remove_head memory head =
    let node = (memory head).next in
    if node == head then (none, memory) else (some node, remove_node memory node)

-- The loop of `run_queue` in the callback of `send`, with fuel; `none` is fuel that ran out.
unfoldable pub release : ℕ → Memory → ℕ → ℕ → Option Memory
release zero memory local free = none
release (suc fuel) memory local free =
    let (taken, memory₁) = remove_head memory local in
    elim taken [
      | none ↦ some memory₁
      | some node ↦ release fuel (insert_head memory₁ free node) local free
    ]
