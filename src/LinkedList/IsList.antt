-- ===== src/LinkedList/IsList.antt =====
-- The operations of src/list.c on lists of addresses.
use spindly.Prelude.{
  ◌≡◌, ◌≢◌, refl, true, false, List, [], ◌∷◌, ◌++◌, ◌==◌, arith, ==_refl, append-nil,
}
use spindly.LinkedList.{
  Ptr, ListNode, Heap, update, added_node, list_init, list_add, list_remove, unlink_next,
  unlink_prev,
}
use spindly.LinkedList.Segment.{
  has, Seg, frame, last-mem, head-mem, relink_last, relink_first, Disjoint, split, split-Disjoint,
  join, Seg-nil, Seg-cons,
}

-- The list head at `h` links the nodes `xs` in this order, both ways.
abbrev pub IsList : Heap → (h : Ptr) → List Ptr → Type 0
IsList g h xs = Seg g.nodes h 0 (g.heads h).first (g.heads h).last 0 xs

pub ne→== : {p : Ptr} → p ≢ 0 → (p == 0) ≡ false
ne→== {p} ne = ground arith

module _ (g : Heap) (h p : Ptr) where
  -- What list_add makes of a list that is not empty.
  abbrev pub linked : Heap
  linked =
      let last = (g.heads h).last in
      let n1 = update g.nodes p (added_node g h) in
      record {
        nodes = update n1 last (record (n1 last) { next = p });
        heads = update g.heads h (record (g.heads h) { last = p });
      }

module _ (g : Heap) (h p : Ptr) (ne : p ≢ 0) where
  add_nil : IsList g h [] → IsList (list_add g h p) h (p ∷ [])
  unfolding list_add Seg
  add_nil (a, b) = rw (==_refl p, ==_refl h) (ground arith)

  pub add_linked : (g.heads h).last ≢ 0 → list_add g h p ≡ linked g h p
  unfolding list_add
  add_linked nz = rw (==_refl p, ne→== nz)

  one : (n : Ptr → ListNode) → n p ≡ added_node g h → Seg n h (g.heads h).last p p 0 (p ∷ [])
  unfolding Seg
  one n e = rw e (ground arith)

  add_cons :
      (x : Ptr) (xs : List Ptr)
      → IsList g h (x ∷ xs)
      → has p (x ∷ xs) ≡ false
      → IsList (list_add g h p) h (x ∷ (xs ++ p ∷ []))
  add_cons x xs s out =
      let last = (g.heads h).last in
      let first = (g.heads h).first in
      let n1 = update g.nodes p (added_node g h) in
      let s1 : Seg n1 h 0 first last 0 (x ∷ xs) =
        frame _ _ p (added_node g h) 0 _ _ _ (x ∷ xs) s out in
      let m = last-mem g.nodes h 0 first last 0 x xs s in
      let (_, nz) = head-mem g.nodes h last 0 first last 0 (x ∷ xs) s m in
      let left = relink_last n1 h 0 first last 0 p x xs s1 in
      let n2 = update n1 last (record (n1 last) { next = p }) in
      let right : Seg n2 h last p p 0 (p ∷ []) = one n2 (n2-p last m) in
      let apart : Disjoint (x ∷ xs) (p ∷ []) = λ q i. ground arith in
      let whole = join n2 h 0 first last p p 0 (x ∷ xs) (p ∷ []) left right apart in
      rw (add_linked nz) (rw (==_refl h) whole)
    where
      n2-p :
          (last : Ptr)
          → has last (x ∷ xs) ≡ true
          → (update
                (update g.nodes p (added_node g h))
                last
                (record ((update g.nodes p (added_node g h)) last) { next = p })
                p
              ≡ added_node g h)
      n2-p last m = ground arith

-- A list whose first half is unlinked from `p`: what _spindly_list_remove has done between its two
-- tests.
pub record Half (g : Heap) (h p : Ptr) (xs ys : List Ptr) : Type 0 where
  left : Seg g.nodes h 0 (g.heads h).first (g.nodes p).prev (g.nodes p).next xs
  pub right : Seg g.nodes h p (g.nodes p).next (g.heads h).last 0 ys
  pub owner : (g.nodes p).head ≡ h
  apart : Disjoint xs ys

module _ (g : Heap) (h p : Ptr) where
  unlink_next-nil : (ys : List Ptr) → IsList g h (p ∷ ys) → Half (unlink_next g p) h p [] ys
  unfolding unlink_next Seg
  unlink_next-nil ys (a, b, c, d, e, s) =
      rw (d, e)
        (record {
          left = rw (==_refl h) (refl, d);
          right = rw (==_refl h) s;
          owner = e;
          apart = λ q i. cc;
        })

  unlink_next-cons :
      (x : Ptr) (xs ys : List Ptr)
      → IsList g h (x ∷ (xs ++ p ∷ ys))
      → Half (unlink_next g p) h p (x ∷ xs) ys
  unfolding unlink_next
  unlink_next-cons x xs ys s =
      let first = (g.heads h).first in
      let last = (g.heads h).last in
      let (l, m, left, right) = split g.nodes h 0 first last 0 (x ∷ xs) (p ∷ ys) s in
      let apart = split-Disjoint g.nodes h 0 first last 0 (x ∷ xs) (p ∷ ys) s in
      let (a, b, c, d, e, t) = Seg-cons g.nodes h l m last 0 p ys right in
      let i = last-mem g.nodes h 0 first l m x xs left in
      let (_, nz) = head-mem g.nodes h l 0 first l m (x ∷ xs) left i in
      let v = record (g.nodes l) { next = (g.nodes p).next } in
      let n = update g.nodes l v in
      let other : (l == p) ≡ false = ground (arith, apart l i) in
      let same : n p ≡ g.nodes p = ground arith in
      let out : has l ys ≡ false = ground (arith, apart l i) in
      rw (d, ne→== nz)
        (record {
          left = rw (same, d) (relink_last g.nodes h 0 first l m (g.nodes p).next x xs left);
          right = rw same (frame g.nodes h l v p (g.nodes p).next last 0 ys t out);
          owner = rw same e;
          apart = λ q k. ground (arith, apart q k);
        })

  unlink_prev-nil : (xs : List Ptr) → Half g h p xs [] → IsList (unlink_prev g p) h xs
  unfolding unlink_prev
  unlink_prev-nil xs half =
      let (a, b) = Seg-nil g.nodes h p (g.nodes p).next (g.heads h).last 0 half.right in
      rw (a, half.owner, ==_refl h) (rw a at half.left)

  unlink_prev-cons :
      (xs : List Ptr) (y : Ptr) (ys : List Ptr)
      → Half g h p xs (y ∷ ys)
      → IsList (unlink_prev g p) h (xs ++ y ∷ ys)
  unfolding unlink_prev
  unlink_prev-cons xs y ys half =
      let first = (g.heads h).first in
      let last = (g.heads h).last in
      let next = (g.nodes p).next in
      let prev = (g.nodes p).prev in
      let (a, b, c, d, e, t) = Seg-cons g.nodes h p next last 0 y ys half.right in
      let v = record (g.nodes y) { prev = prev } in
      let left =
        frame g.nodes h y v 0 first prev next xs half.left (ground (arith, half.apart y)) in
      let right = relink_first g.nodes h p prev next last 0 y ys half.right in
      rw (a, ne→== b)
        (join (update g.nodes y v) h 0 first prev next last 0 xs (y ∷ ys) left right half.apart)

pub unlink_next-Half :
    (g : Heap) (h p : Ptr) (xs ys : List Ptr)
    → IsList g h (xs ++ p ∷ ys)
    → Half (unlink_next g p) h p xs ys
unlink_next-Half g h p [] ys s = unlink_next-nil g h p ys s
unlink_next-Half g h p (x ∷ xs) ys s = unlink_next-cons g h p x xs ys s

-- Adding a node appends its address.
pub list_add-append :
    (g : Heap) (h p : Ptr) (xs : List Ptr)
    → p ≢ 0
    → has p xs ≡ false
    → IsList g h xs
    → IsList (list_add g h p) h (xs ++ p ∷ [])
list_add-append g h p [] ne out s = add_nil g h p ne s
list_add-append g h p (x ∷ xs) ne out s = add_cons g h p ne x xs s out

-- Removing a node anywhere in a list drops its address.
pub list_remove-middle :
    (g : Heap) (h p : Ptr) (xs ys : List Ptr)
    → IsList g h (xs ++ p ∷ ys)
    → IsList (list_remove g p) h (xs ++ ys)
unfolding list_remove
list_remove-middle g h p [] [] s = unlink_prev-nil _ h p [] (unlink_next-nil g h p [] s)
list_remove-middle g h p [] (y ∷ ys) s =
    unlink_prev-cons _ h p [] y ys (unlink_next-nil g h p (y ∷ ys) s)
list_remove-middle g h p (x ∷ xs) [] s =
    rw (append-nil xs) (unlink_prev-nil _ h p (x ∷ xs) (unlink_next-cons g h p x xs [] s))
list_remove-middle g h p (x ∷ xs) (y ∷ ys) s =
    unlink_prev-cons _ h p (x ∷ xs) y ys (unlink_next-cons g h p x xs (y ∷ ys) s)

pub list_init-nil : (g : Heap) (h : Ptr) → IsList (list_init g h) h []
unfolding list_init Seg
list_init-nil g h = rw (==_refl h) (refl, refl)
