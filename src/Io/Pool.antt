-- ===== src/Io/Pool.antt =====
-- The pool of the blocks that ranges are received in (src/io.cpp, `ReceiveBlockPool`).
pub mod Sound
mod Tests
use ngs3fs.Prelude.{
  ℕ, suc, ◌+◌, ◌-◌, ◌*◌, ◌/◌, min, Bool, leb, ◌==◌, if◌then◌else◌, List, [], ◌∷◌, Option, none,
  some, add64, sub64,
}
use ngs3fs.Io.Range.{block_size}

-- The blocks are their addresses; `free` is the list that is linked through the free blocks.
pub record Pool : Type 0 where
  pub capacity : ℕ
  pub mapped : ℕ
  pub idle : ℕ
  pub free : List ℕ

-- `none`: the constructor throws.
unfoldable pub new_pool : ℕ → Option Pool
new_pool capacity =
    let whole = capacity / block_size * block_size in
    if whole == 0 then none else some (record { capacity = whole; mapped = 0; idle = 0; free = [] })

-- What `acquire` does under its lock: it returns a free block, throws, or goes on to map one.
pub data Acquired : Type 0 where
  reused : ℕ → Pool → Acquired
  exhausted : Acquired
  mapping : Pool → Acquired

unfoldable pub map_more : Pool → Pool
map_more p = record p { mapped = add64 p.mapped block_size }

unfoldable pub acquire_from : Pool → List ℕ → Acquired
acquire_from p (block ∷ rest) =
    reused block (record p { free = rest; idle = sub64 p.idle block_size })
acquire_from p [] = if p.mapped == p.capacity then exhausted else mapping (map_more p)

unfoldable pub acquire : Pool → Acquired
acquire p = acquire_from p p.free

-- `allocate_block`, where the kernel maps no block.
unfoldable pub map_failed : Pool → Pool
map_failed p = record p { mapped = sub64 p.mapped block_size }

-- A null pointer is not released.
unfoldable pub release : Pool → ℕ → Pool
release p block = record p { free = block ∷ p.free; idle = add64 p.idle block_size }

-- A round of `preallocate` up to the mapping of its block, which is then released.
unfoldable pub preallocate : Pool → ℕ → Option Pool
preallocate p count =
    let target = min count (p.capacity / block_size) * block_size in
    if leb target p.mapped then none else some (map_more p)
