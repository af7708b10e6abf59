-- ===== src/LinkedList/Segment.antt =====
-- Linked segments of nodes: what the `prev`, `next` and `head` members of consecutive nodes say.
use spindly.Prelude.{
  ◌≡◌, ◌≢◌, refl, Bool, true, false, ◌||◌, List, [], ◌∷◌, ◌++◌, ◌==◌, arith, Bool-cases, inl, inr,
}
use spindly.LinkedList.{Ptr, ListNode, Nodes, update}

abbrev pub has : Ptr → List Ptr → Bool
has p [] = false
has p (q ∷ qs) = (p == q) || has p qs

-- From `first`, whose `prev` is `prev`, the `next` members lead through the distinct nodes of the list
-- `head` to `stop`; `last` is the last of them, or `prev` if there is none.
unfoldable pub Seg : Nodes → (head prev first last stop : Ptr) → List Ptr → Type 0
Seg n head prev first last stop [] = (first ≡ stop) × (last ≡ prev)
Seg n head prev first last stop (p ∷ ps) =
    (first ≡ p)
    × (p ≢ 0)
    × (has p ps ≡ false)
    × ((n p).prev ≡ prev)
    × ((n p).head ≡ head)
    × Seg n head p (n p).next last stop ps

module _ (n : Nodes) (head : Ptr) where
  -- A segment survives a write to a node of another list.
  pub frame :
      (q : Ptr) (v : ListNode) (prev first last stop : Ptr) (xs : List Ptr)
      → Seg n head prev first last stop xs
      → has q xs ≡ false
      → Seg (update n q v) head prev first last stop xs
  unfolding Seg
  frame q v prev first last stop [] s out = s
  frame q v prev first last stop (p ∷ ps) s out =
      ground (arith, frame q v p (n p).next last stop ps)

  pub last-mem :
      (prev first last stop x : Ptr) (xs : List Ptr)
      → Seg n head prev first last stop (x ∷ xs)
      → has last (x ∷ xs) ≡ true
  unfolding Seg
  last-mem prev first last stop x [] s = ground arith
  last-mem prev first last stop x (y ∷ ys) s = ground (arith, last-mem x (n x).next last stop y ys)

  -- Every node of a segment names its list.
  pub head-mem :
      (q prev first last stop : Ptr) (xs : List Ptr)
      → Seg n head prev first last stop xs
      → has q xs ≡ true
      → ((n q).head ≡ head) × (q ≢ 0)
  unfolding Seg
  head-mem q prev first last stop [] s h = cc
  head-mem q prev first last stop (p ∷ ps) s h = elim (Bool-cases (q == p)) [
    | inl e ↦ ground arith
    | inr e ↦ head-mem q p (n p).next last stop ps s.5 (ground arith)
  ]

  -- A write to the last node's `next` moves the stop.
  pub relink_last :
      (prev first last stop stop' x : Ptr) (xs : List Ptr)
      → Seg n head prev first last stop (x ∷ xs)
      → Seg (update n last (record (n last) { next = stop' })) head prev first last stop' (x ∷ xs)
  unfolding Seg
  relink_last prev first last stop stop' x [] s = ground arith
  relink_last prev first last stop stop' x (y ∷ ys) s =
      ground
        (arith, last-mem x (n x).next last stop y ys, relink_last x (n x).next last stop stop' y ys)

  -- A write to the first node's `prev` moves the start.
  pub relink_first :
      (prev prev' first last stop x : Ptr) (xs : List Ptr)
      → Seg n head prev first last stop (x ∷ xs)
      → Seg (update n x (record (n x) { prev = prev' })) head prev' first last stop (x ∷ xs)
  unfolding Seg
  relink_first prev prev' first last stop x xs s =
      ground (arith, frame x (record (n x) { prev = prev' }) x (n x).next last stop xs s.5 s.2)

pub has-append : (q : Ptr) (xs ys : List Ptr) → has q (xs ++ ys) ≡ (has q xs || has q ys)
has-append q [] ys = refl
has-append q (x ∷ xs) ys = ground (arith, has-append q xs ys)

abbrev pub Disjoint : List Ptr → List Ptr → Type 0
Disjoint xs ys = (q : Ptr) → has q xs ≡ true → has q ys ≡ false

module _ (n : Nodes) (head : Ptr) where
  -- A segment in two parts, with the node before and the node at the cut.
  pub split :
      (prev first last stop : Ptr) (xs ys : List Ptr)
      → Seg n head prev first last stop (xs ++ ys)
      → (l m : Ptr) × Seg n head prev first l m xs × Seg n head l m last stop ys
  unfolding Seg
  split prev first last stop [] ys s = (prev, first, (refl, refl), s)
  split prev first last stop (x ∷ xs) ys (a, b, c, d, e, s) =
      let (l, m, left, right) = split x (n x).next last stop xs ys s in
      (l, m, (a, b, ground (arith, has-append x xs ys), d, e, left), right)

  pub split-Disjoint :
      (prev first last stop : Ptr) (xs ys : List Ptr)
      → Seg n head prev first last stop (xs ++ ys)
      → Disjoint xs ys
  unfolding Seg
  split-Disjoint prev first last stop [] ys s = λ q h. cc
  split-Disjoint prev first last stop (x ∷ xs) ys s =
      λ q h. ground (arith, has-append x xs ys, split-Disjoint x (n x).next last stop xs ys s.5 q)

  pub join :
      (prev first l m last stop : Ptr) (xs ys : List Ptr)
      → Seg n head prev first l m xs
      → Seg n head l m last stop ys
      → Disjoint xs ys
      → Seg n head prev first last stop (xs ++ ys)
  unfolding Seg
  join prev first l m last stop [] ys (p, q) t apart = rw (p, ← q) t
  join prev first l m last stop (x ∷ xs) ys (a, b, c, d, e, s) t apart = (
    a,
    b,
    ground (arith, has-append x xs ys, apart x),
    d,
    e,
    join x (n x).next l m last stop xs ys s t (λ q h. ground (arith, apart q)),
  )

  pub Seg-nil :
      (prev first last stop : Ptr)
      → Seg n head prev first last stop []
      → (first ≡ stop) × (last ≡ prev)
  unfolding Seg
  Seg-nil prev first last stop s = s

  -- The parts of a segment that starts with `p`.
  pub Seg-cons :
      (prev first last stop p : Ptr) (ps : List Ptr)
      → Seg n head prev first last stop (p ∷ ps)
      → (first ≡ p)
        × (p ≢ 0)
        × (has p ps ≡ false)
        × ((n p).prev ≡ prev)
        × ((n p).head ≡ head)
        × Seg n head p (n p).next last stop ps
  unfolding Seg
  Seg-cons prev first last stop p ps s = s

  -- A node of a segment is not also one of the others.
  pub not-mem_middle :
      (prev first last stop p : Ptr) (xs ys : List Ptr)
      → Seg n head prev first last stop (xs ++ p ∷ ys)
      → has p (xs ++ ys) ≡ false
  not-mem_middle prev first last stop p xs ys s =
      let (l, m, left, right) = split prev first last stop xs (p ∷ ys) s in
      let (_, _, out, _, _, _) = Seg-cons l m last stop p ys right in
      let apart = split-Disjoint prev first last stop xs (p ∷ ys) s p in
      elim (Bool-cases (has p xs)) [
        | inl i ↦ absurd (ground arith)
        | inr o ↦ rw (has-append p xs ys, o, out)
      ]

-- The list alone tells where a segment begins.
pub same_first :
    (n n' : Nodes) (head prev first last prev' first' last' stop : Ptr) (ps : List Ptr)
    → Seg n head prev first last stop ps
    → Seg n' head prev' first' last' stop ps
    → first ≡ first'
unfolding Seg
same_first n n' head prev first last prev' first' last' stop [] s t = omega arith
same_first n n' head prev first last prev' first' last' stop (p ∷ ps) s t = omega arith
