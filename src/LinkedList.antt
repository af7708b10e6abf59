-- ===== src/LinkedList.antt =====
-- src/list.c and list.h: the intrusive, doubly linked lists. An address is a number and NULL is 0.
-- The nodes are embedded in larger structs; a node's address stands for its struct's. A list head has an
-- address of its own.
pub mod Segment
pub mod IsList
pub mod Lists
use spindly.Prelude.{ℕ, ◌==◌, if◌then◌else◌}

abbrev pub Ptr : Type 0
Ptr = ℕ

-- struct list_node
pub record ListNode : Type 0 where
  pub next : Ptr
  pub prev : Ptr
  pub head : Ptr

-- struct list_head
pub record ListHead : Type 0 where
  pub last : Ptr
  pub first : Ptr

abbrev pub Nodes : Type 0
Nodes = Ptr → ListNode

pub record Heap : Type 0 where
  pub nodes : Nodes
  pub heads : Ptr → ListHead

-- The store after a write through a pointer.
abbrev pub update {ℓ} : {A : Type ℓ} → (Ptr → A) → Ptr → A → Ptr → A
update f p v q = if q == p then v else f q

abbrev pub set_node : Heap → Ptr → ListNode → Heap
set_node g p n = record g { nodes = update g.nodes p n }

abbrev pub set_head : Heap → Ptr → ListHead → Heap
set_head g h l = record g { heads = update g.heads h l }

unfoldable pub list_init : Heap → Ptr → Heap
list_init g head = set_head g head (record { last = 0; first = 0 })

-- The node that list_add writes into the entry.
abbrev pub added_node : Heap → (head : Ptr) → ListNode
added_node g head = record { next = 0; prev = (g.heads head).last; head = head }

unfoldable pub list_add : Heap → (head entry : Ptr) → Heap
list_add g head entry =
    let g1 = set_node g entry (added_node g head) in
    let g2 = set_head g1 head (record (g1.heads head) { last = entry }) in
    let prev = (g2.nodes entry).prev in
    if prev == 0
    then set_head g2 head (record (g2.heads head) { first = entry })
    else set_node g2 prev (record (g2.nodes prev) { next = entry })

abbrev pub list_first : Heap → (head : Ptr) → Ptr
list_first g head = (g.heads head).first

abbrev pub list_next : Heap → (node : Ptr) → Ptr
list_next g node = (g.nodes node).next

abbrev pub list_prev : Heap → (node : Ptr) → Ptr
list_prev g node = (g.nodes node).prev

-- The first `if` of _spindly_list_remove.
unfoldable pub unlink_next : Heap → Ptr → Heap
unlink_next g entry =
    let e = g.nodes entry in
    if e.prev == 0
    then set_head g e.head (record (g.heads e.head) { first = e.next })
    else set_node g e.prev (record (g.nodes e.prev) { next = e.next })

-- The second `if`.
unfoldable pub unlink_prev : Heap → Ptr → Heap
unlink_prev g entry =
    let e = g.nodes entry in
    if e.next == 0
    then set_head g e.head (record (g.heads e.head) { last = e.prev })
    else set_node g e.next (record (g.nodes e.next) { prev = e.prev })

unfoldable pub list_remove : Heap → (entry : Ptr) → Heap
unfolding unlink_next unlink_prev
list_remove g entry = unlink_prev (unlink_next g entry) entry
