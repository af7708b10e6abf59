-- ===== src/Env.antt =====
-- The members of struct spindly_phys that the parsers reach through their `phys` argument: the
-- incoming zlib context and the lookup of stream ids, and the allocator's coming answers.
use spindly.Prelude.{ℕ}
use spindly.Memory.{Answers}
use spindly.Hash.{Hash, HashStore}

-- `rounds` bounds the lookup's loop.
pub record Env (Strm : Type 0) : Type 0 where
  pub zlib_in : Strm
  pub store : HashStore
  pub streamhash : Hash
  pub rounds : ℕ
  pub memory : Answers
