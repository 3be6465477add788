-- ===== src/Io/Pool/Tests.antt =====
-- The theorem of the block pool at a concrete run.
use ngs3fs.Prelude.{ℕ, ◌≡◌, refl, List, [], ◌∷◌, arith, some}
use ngs3fs.Io.Pool.{Pool, new_pool, acquire, mapping, reused, release}
use ngs3fs.Io.Pool.Sound.{
  System, system, Reach, start, next, begin_map, end_map, give_back, reuse, IsPooled,
  Reach-IsPooled,
}

-- A pool for two blocks, and a block that is mapped, released, and handed out again.
abbrev two_blocks : ℕ → ℕ → List ℕ → Pool
two_blocks mapped idle free = record {
  capacity = 4194304;
  mapped = mapped;
  idle = idle;
  free = free;
}

made : new_pool 5000000 ≡ some (two_blocks 0 0 [])
unfolding new_pool
made = refl

begun : acquire (two_blocks 0 0 []) ≡ mapping (two_blocks 2097152 0 [])
unfolding acquire ngs3fs.Io.Pool.acquire_from ngs3fs.Io.Pool.map_more
begun = refl

handed_out : Reach (system (two_blocks 2097152 0 []) (77 ∷ []) 0)
unfolding ngs3fs.Io.Pool.Sound.times
handed_out = next (next (start 5000000 (omega arith) made) (begin_map begun)) (end_map 77 refl)

handed_back : Reach (system (two_blocks 2097152 2097152 (77 ∷ [])) [] 0)
unfolding release
handed_back = next handed_out (give_back [] [] 77)

again : acquire (two_blocks 2097152 2097152 (77 ∷ [])) ≡ reused 77 (two_blocks 2097152 0 [])
unfolding acquire ngs3fs.Io.Pool.acquire_from
again = refl

handed_out_again : Reach (system (two_blocks 2097152 0 []) (77 ∷ []) 0)
handed_out_again = next handed_back (reuse 77 again)

Reach-IsPooled_example : IsPooled (two_blocks 2097152 0 []) (77 ∷ []) 0
Reach-IsPooled_example = Reach-IsPooled handed_out_again
