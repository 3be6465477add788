-- ===== src/Io/Range.antt =====
-- The memory that a range of an object is received in (src/io.cpp, `AnonymousRangeStorage`): blocks
-- of 2 MiB, filled one behind the other, and recycled when they are no longer needed.
pub mod Tiled
pub mod Kept
pub mod Reach
pub mod Recycle
pub mod Counts
pub mod Charge
mod Tests
use ngs3fs.Prelude.{
  ℕ, zero, suc, ◌+◌, ◌-◌, ◌*◌, ◌/◌, ◌%◌, min, Bool, true, false, ◌||◌, ◌&&◌, ltb, leb, ◌==◌, not,
  if◌then◌else◌, List, [], ◌∷◌, ◌++◌, Option, none, some, length, drop, word,
}
use ngs3fs.Prelude.Slices.{take}
use mathlib.Core.Option

-- `kReceiveBlockSize`
abbrev pub block_size : ℕ
block_size = 2097152

-- `mapping` holds the bytes that were received into the block, up to `used`; `none`: a null pointer.
pub record Chunk : Type 0 where
  pub mapping : Option (List ℕ)
  pub offset : ℕ
  pub length : ℕ
  pub used : ℕ

-- `charge`: the bytes of the reservation, 0 without one; `page_size`: that of the reservation.
pub record Storage : Type 0 where
  pub size : ℕ
  pub produced : ℕ
  pub charge : ℕ
  pub page_size : ℕ
  pub chunks : List Chunk

unfoldable pub block_count : ℕ → ℕ
block_count size = (size + (block_size - 1)) / block_size

-- `none`: the constructor throws.
unfoldable pub new_storage : ℕ → ℕ → ℕ → Option Storage
new_storage size charge page =
    if size == 0 || ltb (word - 1 - (block_size - 1)) size
    then none
    else if not (charge == 0)
        && (not (charge == block_count size * block_size) || not (block_size % page == 0))
    then none
    else some (record { size = size; produced = 0; charge = charge; page_size = page; chunks = [] })

-- `chunks_.back()`
unfoldable pub back : List Chunk → Option Chunk
back [] = none
back (c ∷ []) = some c
back (c ∷ d ∷ ds) = back (d ∷ ds)

unfoldable pub put_back : Chunk → List Chunk → List Chunk
put_back b [] = []
put_back b (c ∷ []) = b ∷ []
put_back b (c ∷ d ∷ ds) = c ∷ put_back b (d ∷ ds)

-- The pool's `acquire` may throw as well; then nothing is changed.
unfoldable pub allocate_next : Storage → Option Storage
allocate_next s =
    if leb s.size s.produced
    then none
    else some (record s {
      chunks =
          s.chunks
          ++ record {
            mapping = some [];
            offset = s.produced;
            length = min block_size (s.size - s.produced);
            used = 0;
          }
            ∷ [];
    })

unfoldable pub needs_block : ℕ → Option Chunk → Bool
needs_block produced none = true
needs_block produced (some chunk) = leb (chunk.offset + chunk.length) produced

unfoldable pub is_null : Option (List ℕ) → Bool
is_null none = true
is_null (some bytes) = false

-- The length of the span.
unfoldable pub span_length : ℕ → ℕ → Option Chunk → Option ℕ
span_length maximum produced none = none
span_length maximum produced (some chunk) =
    if is_null chunk.mapping
      || (ltb produced chunk.offset || ltb (chunk.offset + chunk.length) produced)
    then none
    else some (min maximum (chunk.length - (produced - chunk.offset)))

unfoldable pub with_span : ℕ → Option Storage → Option (ℕ × Storage)
with_span maximum none = none
with_span maximum (some s) =
    Option.map (λ (n : ℕ). (n, s)) (span_length maximum s.produced (back s.chunks))

-- How many bytes can be written behind those that were produced. `none`: the call throws.
unfoldable pub writable : Storage → ℕ → Option (ℕ × Storage)
writable s maximum =
    if maximum == 0 || s.produced == s.size
    then some (0, s)
    else with_span maximum
        (if needs_block s.produced (back s.chunks) then allocate_next s else some s)

-- The chunk with the bytes that stand in its memory behind the used ones.
unfoldable pub filled : List ℕ → Chunk → Chunk
filled bytes chunk = record chunk {
  mapping = Option.map (λ (t : List ℕ). t ++ bytes) chunk.mapping;
  used = chunk.used + length bytes;
}

unfoldable pub commit_to : Storage → List ℕ → Option Chunk → Option Storage
commit_to s bytes none = none
commit_to s bytes (some chunk) =
    if is_null chunk.mapping
      || (not (s.produced == chunk.offset + chunk.used)
          || ltb (chunk.length - chunk.used) (length bytes))
    then none
    else some (record s {
      chunks = put_back (filled bytes chunk) s.chunks;
      produced = s.produced + length bytes;
    })

-- `commit(bytes.size())`, where `bytes` were written to the span.
unfoldable pub commit : Storage → List ℕ → Option Storage
commit s bytes = if length bytes == 0 then none else commit_to s bytes (back s.chunks)

-- Whether the loops over the chunks pass over this one.
unfoldable pub is_passed : ℕ → Chunk → Bool
is_passed position chunk = ltb position chunk.offset || leb (chunk.offset + chunk.used) position

unfoldable pub available_loop : List Chunk → ℕ → ℕ → Bool
available_loop [] position remaining = false
available_loop (chunk ∷ chunks) position remaining =
    let count = min remaining (chunk.used - (position - chunk.offset)) in
    let passed = available_loop chunks position remaining in
    let more = available_loop chunks (position + count) (remaining - count) in
    if is_passed position chunk
    then passed
    else if is_null chunk.mapping
    then false
    else if remaining == count
    then true
    else more

unfoldable pub available : Storage → ℕ → ℕ → Bool
available s offset size =
    if ltb s.produced offset || ltb (s.produced - offset) size
    then false
    else if size == 0
    then true
    else available_loop (drop (offset / block_size) s.chunks) offset size

-- What a mapping holds from an index on.
unfoldable pub bytes_at : ℕ → ℕ → Option (List ℕ) → Option (List ℕ)
bytes_at at count none = none
bytes_at at count (some bytes) = some (take count (drop at bytes))

unfoldable pub joined : Option (List ℕ) → Option (List ℕ) → Option (List ℕ)
joined none more = none
joined (some bytes) none = none
joined (some bytes) (some more) = some (bytes ++ more)

unfoldable pub copy_loop : List Chunk → ℕ → ℕ → Option (List ℕ)
copy_loop [] position remaining = none
copy_loop (chunk ∷ chunks) position remaining =
    let at = position - chunk.offset in
    let count = min remaining (chunk.used - at) in
    let passed = copy_loop chunks position remaining in
    let more = copy_loop chunks (position + count) (remaining - count) in
    let bytes = bytes_at at count chunk.mapping in
    if is_passed position chunk
    then passed
    else if remaining == count
    then bytes
    else joined bytes more

-- The bytes that are copied to the output. `none`: the call returns false.
unfoldable pub copy_to : Storage → ℕ → ℕ → Option (List ℕ)
copy_to s offset size =
    if ltb s.produced offset || ltb (s.produced - offset) size
    then none
    else if size == 0
    then some []
    else copy_loop (drop (offset / block_size) s.chunks) offset size

-- A loop that recycles chunks: the chunks behind it, the bytes of those recycled, and what is
-- given back of the reservation.
pub record Discarded : Type 0 where
  pub chunks : List Chunk
  pub bytes : ℕ
  pub released : ℕ

abbrev pub discarded : List Chunk → ℕ → ℕ → Discarded
discarded chunks bytes released = record { chunks = chunks; bytes = bytes; released = released }

unfoldable pub is_kept : ℕ → ℕ → Chunk → Bool
is_kept offset end chunk =
    is_null chunk.mapping
    || (not (chunk.used == chunk.length)
        || (ltb chunk.offset offset || ltb end (chunk.offset + chunk.length)))

unfoldable pub discard_loop : ℕ → ℕ → List Chunk → Discarded
discard_loop offset end [] = discarded [] 0 0
discard_loop offset end (chunk ∷ chunks) =
    let rest = discard_loop offset end chunks in
    if leb end chunk.offset
    then discarded (chunk ∷ chunks) 0 0
    else if is_kept offset end chunk
    then discarded (chunk ∷ rest.chunks) rest.bytes rest.released
    else discarded (record chunk { mapping = none } ∷ rest.chunks) (rest.bytes + chunk.length)
        (rest.released + block_size)

-- The first `n` chunks are those that the loop begins behind.
unfoldable pub discard_from : ℕ → ℕ → ℕ → List Chunk → Discarded
discard_from zero offset end chunks = discard_loop offset end chunks
discard_from (suc n) offset end [] = discarded [] 0 0
discard_from (suc n) offset end (chunk ∷ chunks) =
    let rest = discard_from n offset end chunks in
    discarded (chunk ∷ rest.chunks) rest.bytes rest.released

-- `split` throws on more bytes than are left, and on bytes that are no pages.
unfoldable pub give_back : Storage → Discarded → Option (ℕ × Storage)
give_back s d =
    if not (s.charge == 0) && not (d.released == 0)
    then (if ltb s.charge d.released || not (d.released % s.page_size == 0)
        then none
        else some (d.bytes, record s { chunks = d.chunks; charge = s.charge - d.released }))
    else some (d.bytes, record s { chunks = d.chunks })

-- `none`: the end of the reservation throws, and the program is terminated.
unfoldable pub discard : Storage → ℕ → ℕ → Option (ℕ × Storage)
discard s offset size =
    if ltb s.produced offset || ltb (s.produced - offset) size
    then some (0, s)
    else give_back s (discard_from (offset / block_size) offset (offset + size) s.chunks)

-- The charge that is passed on, and the empty storage.
unfoldable pub release_for_retry : Storage → ℕ × Storage
release_for_retry s = (s.charge, record s { chunks = []; produced = 0; charge = 0; page_size = 0 })
