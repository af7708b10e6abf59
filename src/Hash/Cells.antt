-- ===== src/Hash/Cells.antt =====
-- What a hash holds: the address and the content of each node, in the list's order.
use spindly.Prelude.{
  ℕ, zero, suc, ◌<◌, ◌≡◌, ◌≢◌, Option, none, some, List, [], ◌∷◌, done, ◌==◌, if◌then◌else◌, arith,
  length, All,
}
use spindly.LinkedList.{Ptr}
use spindly.LinkedList.Segment.{Seg, Seg-nil, Seg-cons}
use spindly.LinkedList.IsList.{IsList, ne→==}
use spindly.Hash.{HashEntry, Hash, HashStore, entry_at, get_loop, hash_get}

abbrev pub Cells : Type 0
Cells = List (Ptr × HashEntry)

abbrev pub nodes_of : Cells → List Ptr
nodes_of [] = []
nodes_of ((p, e) ∷ cells) = p ∷ nodes_of cells

abbrev pub Holds : HashStore → Cells → Type 0
Holds s cells = All (λ c. s.entries c.0 ≡ some c.1) cells

-- The reference lookup of what is stored under an id.
unfoldable pub find : ℕ → Cells → Option Ptr
find id [] = none
find id ((p, e) ∷ cells) = if e.id == id then some e.ptr else find id cells

-- No id twice.
abbrev pub HasDistinctIds : Cells → Type 0
HasDistinctIds [] = Unit {0}
HasDistinctIds ((p, e) ∷ cells) = (find e.id cells ≡ none) × HasDistinctIds cells

pub record IsHash (s : HashStore) (h : Hash) (cells : Cells) : Type 0 where
  pub linked : IsList s.heap h.lhead (nodes_of cells)
  pub held : Holds s cells
  pub distinct : HasDistinctIds cells

-- The reference lookup: the first node with the id, or NULL.
unfoldable pub node_of : ℕ → Cells → Ptr
node_of id [] = 0
node_of id ((p, e) ∷ cells) = if e.id == id then p else node_of id cells

pub entry_at-some :
    (s : HashStore) (p : Ptr) (e : HashEntry) → s.entries p ≡ some e → entry_at s p ≡ done e
unfolding entry_at
entry_at-some s p e h = rw (h, entry_at)

get_loop-node_of :
    (k : ℕ) (s : HashStore) (id head prev first last : ℕ) (cells : Cells)
    → Seg s.heap.nodes head prev first last 0 (nodes_of cells)
    → Holds s cells
    → length cells < k
    → get_loop k s id first ≡ done (node_of id cells)
unfolding get_loop node_of
get_loop-node_of zero s id head prev first last cells g held fuel = absurd (omega arith)
get_loop-node_of (suc k) s id head prev first last [] g held fuel =
    let (e, _) = Seg-nil s.heap.nodes head prev first last 0 g in rw e
get_loop-node_of (suc k) s id head prev first last ((p, e) ∷ cells) g (h, held) fuel =
    let (at, ne, _, _, _, rest) =
      Seg-cons s.heap.nodes head prev first last 0 p (nodes_of cells) g in
    let ih =
      get_loop-node_of k s id head p (s.heap.nodes p).next last cells rest held (omega arith) in
    rw (at, ne→== ne, entry_at-some s p e h) (ground arith)

-- In a well-formed hash, with more rounds than nodes and an id that is not 0, _spindly_hash_get returns the
-- first node that has the id, or NULL.
pub hash_get-node_of :
    (rounds : ℕ) (s : HashStore) (h : Hash) (id : ℕ) (cells : Cells)
    → IsHash s h cells
    → id ≢ 0
    → length cells < rounds
    → hash_get rounds s h id ≡ done (node_of id cells)
unfolding hash_get
hash_get-node_of rounds s h id cells is ne fuel =
    rw (ne→== ne) (get_loop-node_of rounds s id h.lhead 0 _ _ cells is.linked is.held fuel)
