-- ===== src/NvBlock/Supply.antt =====
-- src/spdy_nv_block.c and the allocator: which answers parsing a block leaves.
use spindly.Prelude.{
  ℕ, zero, suc, ◌+◌, ◌-◌, List, [], ◌∷◌, done, ◌>>=◌, ltb, ◌==◌, length, set, drop, Post, Post-bind,
  Post-bind_any, Post-if,
}
use spindly.Codes.{Code}
use spindly.Bytes.{be_load_16}
use spindly.Memory.{Answers, malloc, memcpy}
use spindly.NvBlock.{
  NvPair, NvBlock, Item, short, refused, item, held, freed, null, read_item, pair_at, parse_pairs,
  pair_array, parse_counted, spdy_nv_block_parse,
}

module _ (Q : Answers → Type 0) (tail : (p : ℕ) (m : Answers) → Q (p ∷ m) → Q m) where
  pub malloc-Answers : (m : Answers) → Q m → Q (malloc m).1
  malloc-Answers [] q = q
  malloc-Answers (p ∷ m) q = tail p m q

  -- What an item leaves.
  Left : Item → Type 0
  Left short = Unit {0}
  Left (refused later) = Q later
  Left (item text rest later) = Q later

  read_item-Left :
      (bytes : List ℕ) (memory : Answers) → Q memory → Post Left (read_item bytes memory)
  unfolding read_item Left
  read_item-Left bytes memory q =
      Post-if Left (ltb (length bytes) 2) _ _ (λ _. tt)
        (λ _. Post-bind_any Left (be_load_16 bytes) _ (λ size.
          Post-if Left (ltb (length (drop 2 bytes)) size) _ _ (λ _. tt)
            (λ _.
              Post-if Left ((malloc memory).0 == 0) _ _ (λ _. malloc-Answers memory q)
                (λ _.
                  Post-bind_any Left (memcpy size (drop 2 bytes)) _
                    (λ text. malloc-Answers memory q)))))

  after_value :
      (n i : ℕ) (pairs : List NvPair) (text : List ℕ) (pair : NvPair) (later : Answers)
      (value : Item)
      → ((j : ℕ) (ps : List NvPair) (bytes : List ℕ) (m : Answers)
          → Q m
          → Post (λ r. Q r.3) (parse_pairs n j ps bytes m))
      → Q later
      → Left value
      → Post {A = Code × ℕ × List NvPair × Answers}
          (λ r. Q r.3)
          (elim value [
            | short ↦ done (Code.insuff, i, set pairs i (record pair { name = freed }), later)
            | refused last ↦
                done
                  (Code.nomem, i, set pairs i (record pair { name = freed; values = null }), last)
            | item text' rest' last ↦
                parse_pairs n
                  (i + 1)
                  (set pairs i (record pair { name = held text; values = held text' }))
                  rest'
                  last
          ])
  unfolding Left
  after_value n i pairs text pair later short again q left = q
  after_value n i pairs text pair later (refused last) again q left = left
  after_value n i pairs text pair later (item text' rest' last) again q left =
      again _ _ rest' last left

  parse_pairs-Answers :
      (n i : ℕ) (pairs : List NvPair) (bytes : List ℕ) (memory : Answers)
      → Q memory
      → Post (λ r. Q r.3) (parse_pairs n i pairs bytes memory)
  unfolding parse_pairs Left
  parse_pairs-Answers zero i pairs bytes memory q = q
  parse_pairs-Answers (suc n) i pairs bytes memory q =
      Post-bind Left (λ r. Q r.3) (read_item bytes memory) _ (read_item-Left bytes memory q)
        (λ name left.
          elim name
              as (λ name.
                Left name
                → Post {A = Code × ℕ × List NvPair × Answers} (λ r. Q r.3)
                    (elim name [
                      | short ↦ done (Code.insuff, i, pairs, memory)
                      | refused later ↦
                          (pair_at pairs i >>= λ pair.
                          done (Code.nomem, i, set pairs i (record pair { name = null }), later))
                      | item text rest later ↦
                          (pair_at pairs i >>= λ pair. read_item rest later >>= λ value.
                          elim value [
                            | short ↦
                                done (
                                  Code.insuff,
                                  i,
                                  set pairs i (record pair { name = freed }),
                                  later,
                                )
                            | refused last ↦ done (
                              Code.nomem,
                              i,
                              set pairs i (record pair { name = freed; values = null }),
                              last,
                            )
                            | item text' rest' last ↦
                                parse_pairs n (i + 1)
                                  (set pairs i
                                    (record pair { name = held text; values = held text' }))
                                  rest' last
                          ])
                    ])) [
                      | short ↦ λ l. q
                      | refused later ↦
                          λ l. Post-bind_any (λ r. Q r.3) (pair_at pairs i) _ (λ pair. l)
                      | item text rest later ↦ λ l.
                          Post-bind_any (λ r. Q r.3) (pair_at pairs i) _
                            (λ pair.
                              Post-bind Left (λ r. Q r.3) (read_item rest later) _
                                (read_item-Left rest later l)
                                (λ value v.
                                  after_value n i pairs text pair later value
                                    (parse_pairs-Answers n) l v))
                    ]
            left)

  parse_counted-Answers :
      (block : NvBlock) (bytes : List ℕ) (memory : Answers)
      → Q memory
      → Post (λ r. Q r.2) (parse_counted block bytes memory)
  unfolding parse_counted
  parse_counted-Answers block bytes memory q =
      let n = block.count - block.pairs_parsed in
      Post-bind (λ r. Q r.3) (λ r. Q r.2)
        (parse_pairs n block.pairs_parsed (pair_array block) bytes memory) _
        (parse_pairs-Answers n block.pairs_parsed (pair_array block) bytes memory q) (λ r h. h)

  pub spdy_nv_block_parse-Answers :
      (block : NvBlock) (bytes : List ℕ) (memory : Answers)
      → Q memory
      → Post (λ r. Q r.2) (spdy_nv_block_parse block bytes memory)
  unfolding spdy_nv_block_parse
  spdy_nv_block_parse-Answers block bytes memory q =
      Post-if (λ r. Q r.2) block.has_count _ _ (λ _. parse_counted-Answers block bytes memory q)
        (λ _.
          Post-if (λ r. Q r.2) (ltb (length bytes) 2) _ _ (λ _. q)
            (λ _.
              Post-bind_any (λ r. Q r.2) (be_load_16 bytes) _
                (λ count.
                  Post-if (λ r. Q r.2) (count == 0) _ _ (λ _. q)
                    (λ _.
                      Post-if (λ r. Q r.2) ((malloc memory).0 == 0) _ _
                        (λ _. malloc-Answers memory q)
                        (λ _.
                          parse_counted-Answers _ (drop 2 bytes) (malloc memory).1
                            (malloc-Answers memory q))))))
