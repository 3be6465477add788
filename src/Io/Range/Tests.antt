-- ===== src/Io/Range/Tests.antt =====
-- The theorems of the range storage at concrete runs.
use ngs3fs.Prelude.{ℕ, ◌≡◌, ◌≢◌, refl, List, [], ◌∷◌, arith, none, some, inr, if◌then◌else◌, drop}
use ngs3fs.Prelude.Slices.{take}
use ngs3fs.Io.Range.{Chunk, Storage, new_storage, writable, commit, discard, available, copy_to}
use ngs3fs.Io.Range.Reach.{Reach, begin, reserve, receive, copy_to-committed}
use ngs3fs.Io.Range.Recycle.{copy_to-discard}
use ngs3fs.Io.Range.Charge.{discard_runs}

-- A storage for five bytes with a reservation of a block, and its one block, with the bytes that were received.
abbrev storage : List Chunk → ℕ → Storage
storage chunks produced = record {
  size = 5;
  produced = produced;
  charge = 2097152;
  page_size = 4096;
  chunks = chunks;
}

abbrev block : List ℕ → ℕ → List Chunk
block bytes used = record { mapping = some bytes; offset = 0; length = 5; used = used } ∷ []

abbrev received_bytes : List ℕ
received_bytes = 10 ∷ 11 ∷ 12 ∷ 13 ∷ 14 ∷ []

made : new_storage 5 2097152 4096 ≡ some (storage [] 0)
unfolding new_storage ngs3fs.Io.Range.block_count
made = refl

taken : writable (storage [] 0) 8 ≡ some (5, storage (block [] 0) 0)
unfolding writable ngs3fs.Io.Range.allocate_next ngs3fs.Io.Range.needs_block ngs3fs.Io.Range.back
    ngs3fs.Io.Range.with_span ngs3fs.Io.Range.span_length ngs3fs.Io.Range.is_null
taken = refl

received :
    commit (storage (block [] 0) 0) received_bytes ≡ some (storage (block received_bytes 5) 5)
unfolding commit ngs3fs.Io.Range.commit_to ngs3fs.Io.Range.put_back ngs3fs.Io.Range.filled
    ngs3fs.Io.Range.back ngs3fs.Io.Range.is_null
received = refl

in_use : Reach (storage (block received_bytes 5) 5) received_bytes
in_use = receive received_bytes (reserve 8 5 (begin 5 2097152 4096 made) taken) received

copy_to-committed_example : copy_to (storage (block received_bytes 5) 5) 1 3 ≡ (
    if available (storage (block received_bytes 5) 5) 1 3
    then some (take 3 (drop 1 received_bytes))
    else none)
copy_to-committed_example =
    copy_to-committed (storage (block received_bytes 5) 5) received_bytes 1 3 in_use

-- The interval does not have the whole block, which is kept.
kept :
    discard (storage (block received_bytes 5) 5) 0 3 ≡ some (0, storage (block received_bytes 5) 5)
unfolding discard ngs3fs.Io.Range.discard_from ngs3fs.Io.Range.discard_loop ngs3fs.Io.Range.is_kept
    ngs3fs.Io.Range.is_null ngs3fs.Io.Range.give_back
kept = refl

copy_to-discard_example :
    copy_to (storage (block received_bytes 5) 5) 3 2
    ≡ copy_to (storage (block received_bytes 5) 5) 3 2
copy_to-discard_example =
    copy_to-discard (storage (block received_bytes 5) 5) (storage (block received_bytes 5) 5)
      received_bytes 0 3 0 3 2 in_use kept (inr (omega arith))

discard_runs_example : discard (storage (block received_bytes 5) 5) 0 5 ≢ none
discard_runs_example = discard_runs (storage (block received_bytes 5) 5) received_bytes 0 5 in_use
