-- ===== src/LinkedList/Lists.antt =====
-- Many lists in one store: an operation on one list leaves the others alone.
use mathlib.Core.Path.{subst}
use spindly.Prelude.{
  sym, ◌∙◌, ◌≡◌, ◌≢◌, ◌⊎◌, inl, inr, false, List, [], ◌∷◌, ◌++◌, ◌==◌, arith, ==_refl, Bool-cases,
  ==_iff,
}
use spindly.LinkedList.{
  Ptr, Heap, update, added_node, list_add, list_remove, unlink_next, unlink_prev,
}
use spindly.LinkedList.Segment.{has, Seg, frame, last-mem, head-mem, split, Seg-nil, Seg-cons}
use spindly.LinkedList.IsList.{
  IsList, linked, Half, unlink_next-Half, list_add-append, list_remove-middle,
}

-- Every list head `h` links the nodes `f h`.
abbrev pub Lists : Heap → (Ptr → List Ptr) → Type 0
Lists g f = (h : Ptr) → IsList g h (f h)

-- NULL, or a node of the list at `h`.
abbrev IsNullOrIn : Heap → (h q : Ptr) → Type 0
IsNullOrIn g h q = (q ≡ 0) ⊎ ((g.nodes q).head ≡ h)

known : (g : Heap) (h q : Ptr) → IsNullOrIn g h q → (q == 0) ≡ false → (g.nodes q).head ≡ h
known g h q (inl z) nz = absurd (ground arith)
known g h q (inr e) nz = e

-- What list_add makes of an empty list.
abbrev lone : (g : Heap) (h p : Ptr) → Heap
lone g h p =
    let heads = update g.heads h (record (g.heads h) { last = p }) in
    record {
      nodes = update g.nodes p (added_node g h);
      heads = update heads h (record (heads h) { first = p });
    }

list_add-lone : (g : Heap) (h p : Ptr) → (g.heads h).last ≡ 0 → list_add g h p ≡ lone g h p
unfolding list_add
list_add-lone g h p z = rw (==_refl p, z)

list_add_linked :
    (g : Heap) (h p : Ptr) → ((g.heads h).last == 0) ≡ false → list_add g h p ≡ linked g h p
unfolding list_add
list_add_linked g h p nz = rw (==_refl p, nz)

module _ (g : Heap) (h k : Ptr) (ne : k ≢ h) where
  differ : (k == h) ≡ false
  differ = ground arith

  stranger : (q : Ptr) (zs : List Ptr) → (g.nodes q).head ≡ h → IsList g k zs → has q zs ≡ false
  stranger q zs e s = elim (Bool-cases (has q zs)) [
    | inl i ↦ let (own, _) = head-mem g.nodes k q 0 _ _ 0 zs s i in absurd (ne (sym own ∙ e))
    | inr o ↦ o
  ]

  last_known : (xs : List Ptr) → IsList g h xs → IsNullOrIn g h (g.heads h).last
  last_known [] s = inl (Seg-nil g.nodes h 0 _ _ 0 s).1
  last_known (x ∷ xs) s =
      inr (head-mem g.nodes h _ 0 _ _ 0 (x ∷ xs) s (last-mem g.nodes h 0 _ _ 0 x xs s)).0

  list_add_other :
      (p : Ptr) (xs zs : List Ptr)
      → IsList g h xs
      → IsList g k zs
      → has p zs ≡ false
      → IsList (list_add g h p) k zs
  list_add_other p xs zs s t out =
      let fresh = frame g.nodes k p (added_node g h) 0 _ _ 0 zs t out in
      elim (Bool-cases ((g.heads h).last == 0)) [
        | inl z ↦ rw (list_add-lone g h p ((==_iff _ _).0 z), differ) fresh
        | inr nz ↦
            let m = last_known xs s in
            let apart : has (g.heads h).last zs ≡ false = stranger _ zs (known g h _ m nz) t in
            rw (list_add_linked g h p nz, differ)
              (frame (update g.nodes p (added_node g h)) k _ _ 0 _ _ 0 zs fresh apart)
      ]

  unlink_next_other :
      (p : Ptr) (zs : List Ptr)
      → (g.nodes p).head ≡ h
      → IsNullOrIn g h (g.nodes p).prev
      → IsList g k zs
      → IsList (unlink_next g p) k zs
  unfolding unlink_next
  unlink_next_other p zs own near t = elim (Bool-cases ((g.nodes p).prev == 0)) [
    | inl z ↦ rw (z, own, differ) t
    | inr nz ↦ rw nz (frame g.nodes k _ _ 0 _ _ 0 zs t (stranger _ zs (ground arith) t))
  ]

  unlink_prev_other :
      (p : Ptr) (zs : List Ptr)
      → (g.nodes p).head ≡ h
      → IsNullOrIn g h (g.nodes p).next
      → IsList g k zs
      → IsList (unlink_prev g p) k zs
  unfolding unlink_prev
  unlink_prev_other p zs own near t = elim (Bool-cases ((g.nodes p).next == 0)) [
    | inl z ↦ rw (z, own, differ) t
    | inr nz ↦ rw nz (frame g.nodes k _ _ 0 _ _ 0 zs t (stranger _ zs (ground arith) t))
  ]

ne_of_test : {k h : Ptr} → (k == h) ≡ false → k ≢ h
ne_of_test {k} {h} e = ground arith

-- The owner of a node in a list, and what stands on either side of it.
module _ (g : Heap) (h p : Ptr) (xs ys : List Ptr) (s : IsList g h (xs ++ p ∷ ys)) where
  before_known : ((g.nodes p).head ≡ h) × IsNullOrIn g h (g.nodes p).prev
  before_known =
      let (l, m, left, right) = split g.nodes h 0 _ _ 0 xs (p ∷ ys) s in
      let (_, _, _, prev, own, _) = Seg-cons g.nodes h l m _ 0 p ys right in
      (own, rw prev (before xs l m left))
    where
      before :
          (zs : List Ptr) (l m : Ptr) → Seg g.nodes h 0 (g.heads h).first l m zs → IsNullOrIn g h l
      before [] l m t = inl (Seg-nil g.nodes h 0 _ l m t).1
      before (z ∷ zs) l m t =
          inr (head-mem g.nodes h l 0 _ l m (z ∷ zs) t (last-mem g.nodes h 0 _ l m z zs t)).0

after_known :
    (g : Heap) (h p : Ptr) (xs ys : List Ptr) → Half g h p xs ys → IsNullOrIn g h (g.nodes p).next
after_known g h p xs [] half = inl (Seg-nil g.nodes h p _ _ 0 half.right).0
after_known g h p xs (y ∷ ys) half =
    let (next, _, _, _, own, _) = Seg-cons g.nodes h p _ _ 0 y ys half.right in rw next (inr own)

list_remove_other :
    (g : Heap) (h k p : Ptr) (xs ys zs : List Ptr)
    → k ≢ h
    → IsList g h (xs ++ p ∷ ys)
    → IsList g k zs
    → IsList (list_remove g p) k zs
unfolding list_remove
list_remove_other g h k p xs ys zs ne s t =
    let (own, near) = before_known g h p xs ys s in
    let half = unlink_next-Half g h p xs ys s in
    unlink_prev_other (unlink_next g p) h k ne p zs half.owner (after_known _ h p xs ys half)
      (unlink_next_other g h k ne p zs own near t)

module _ (g : Heap) (f : Ptr → List Ptr) (all : Lists g f) where
  -- In a store of well-formed lists, list_add of a node that is not NULL and in no list appends it to the
  -- list of the head, and every list is well formed, the others as before.
  pub list_add-Lists :
      (h p : Ptr)
      → p ≢ 0
      → ((k : Ptr) → has p (f k) ≡ false)
      → Lists (list_add g h p) (update f h (f h ++ p ∷ []))
  list_add-Lists h p ne out k = elim (Bool-cases (k == h)) [
    | inl e ↦ rw e (
        subst (λ j. IsList (list_add g h p) j (f h ++ p ∷ [])) (sym ((==_iff k h).0 e))
          (list_add-append g h p (f h) ne (out h) (all h)))
    | inr e ↦ rw e (list_add_other g h k (ne_of_test e) p (f h) (f k) (all h) (all k) (out k))
  ]

  -- In a store of well-formed lists, list_remove of a node that stands anywhere in a list drops just it from
  -- that list, and every list is well formed, the others as before. The list's head is not an argument.
  pub list_remove-Lists :
      (h p : Ptr) (xs ys : List Ptr)
      → f h ≡ xs ++ p ∷ ys
      → Lists (list_remove g p) (update f h (xs ++ ys))
  list_remove-Lists h p xs ys split k =
      let s = rw split at (all h) in
      elim (Bool-cases (k == h)) [
        | inl e ↦ rw e (
            subst (λ j. IsList (list_remove g p) j (xs ++ ys)) (sym ((==_iff k h).0 e))
              (list_remove-middle g h p xs ys s))
        | inr e ↦ rw e (list_remove_other g h k p xs ys (f k) (ne_of_test e) s (all k))
      ]

  -- What the head's `first` holds.
  pub list_first-nil : (h : Ptr) → f h ≡ [] → (g.heads h).first ≡ 0
  list_first-nil h e = (Seg-nil g.nodes h 0 _ _ 0 (rw e at (all h))).0

  pub list_first-cons :
      (h p : Ptr) (ps : List Ptr) → f h ≡ p ∷ ps → ((g.heads h).first ≡ p) × (p ≢ 0)
  list_first-cons h p ps e =
      let (a, b, _, _, _, _) = Seg-cons g.nodes h 0 _ _ 0 p ps (rw e at (all h)) in (a, b)

  -- A removed first node is in no list any more.
  pub removed_first :
      (h p : Ptr) (ps : List Ptr) → f h ≡ p ∷ ps → (k : Ptr) → has p (update f h ps k) ≡ false
  removed_first h p ps e k =
      let (_, _, out, _, own, _) = Seg-cons g.nodes h 0 _ _ 0 p ps (rw e at (all h)) in
      elim (Bool-cases (k == h)) [
        | inl same ↦ rw same out
        | inr other ↦ rw other (stranger g h k (ne_of_test other) p (f k) own (all k))
      ]
