-- ===== src/Io/Range/Reach.antt =====
-- A storage through all its uses: what is copied out of it is what was committed to it.
use ngs3fs.Prelude.{
  ℕ, ◌+◌, ◌-◌, ◌*◌, ◌/◌, ◌%◌, ◌≤◌, Bool, true, false, ◌||◌, ◌&&◌, ltb, leb, ◌==◌, not,
  if◌then◌else◌, if_elim, List, [], ◌++◌, Option, none, some, length, drop, ◌≡◌, refl, arith, subst,
  word,
}
use mathlib.Core.Option
use ngs3fs.Prelude.Slices.{take, length-append}
use ngs3fs.Io.Range.{
  block_size, Chunk, Storage, new_storage, back, allocate_next, needs_block, is_null, span_length,
  with_span, writable, commit_to, commit, Discarded, give_back, block_count, discard,
  release_for_retry, available, copy_to,
}
use ngs3fs.Io.Range.Tiled.{Tiled, IsStored, copy_to-IsStored}
use ngs3fs.Io.Range.Kept.{KeepsTiles, Tiled-new, Tiled-filled, discard_from-KeepsTiles, back_inside}

-- The uses of a storage, in any order, and the bytes that were committed since it was last empty.
pub data Reach : Storage → List ℕ → Type 0 where
  begin : {s : Storage} (size charge page : ℕ) → new_storage size charge page ≡ some s → Reach s []
  reserve :
      {s t : Storage} {log : List ℕ} (maximum count : ℕ)
      → Reach s log
      → writable s maximum ≡ some (count, t)
      → Reach t log
  receive :
      {s t : Storage} {log : List ℕ} (bytes : List ℕ)
      → Reach s log
      → commit s bytes ≡ some t
      → Reach t (log ++ bytes)
  recycle :
      {s t : Storage} {log : List ℕ} (offset size count : ℕ)
      → Reach s log
      → discard s offset size ≡ some (count, t)
      → Reach t log
  again : {s : Storage} {log : List ℕ} → Reach s log → Reach (release_for_retry s).1 []

abbrev pub OnSome : {A : Type 0} → (A → Type 0) → Option A → Type 0
OnSome P none = Unit
OnSome P (some a) = P a

pub on_some : {A : Type 0} (P : A → Type 0) (o : Option A) (a : A) → o ≡ some a → OnSome P o → P a
on_some P o a e h = subst (OnSome P) e h

empty-IsStored :
    (size charge page : ℕ)
    → IsStored
        (record { size = size; produced = 0; charge = charge; page_size = page; chunks = [] })
        []
unfolding Tiled
empty-IsStored size charge page = record { counts = refl; fits = omega arith; tiled = refl }

new_storage-IsStored :
    (size charge page : ℕ) → OnSome (λ s. IsStored s []) (new_storage size charge page)
unfolding new_storage
new_storage-IsStored size charge page =
    if_elim (OnSome (λ s. IsStored s [])) (size == 0 || ltb (word - 1 - (block_size - 1)) size)
      (λ _. tt)
      (λ _.
        if_elim (OnSome (λ s. IsStored s []))
          (not (charge == 0)
            && (not (charge == block_count size * block_size) || not (block_size % page == 0)))
          (λ _. tt) (λ _. empty-IsStored size charge page))

allocate_next-IsStored :
    (s : Storage) (log : List ℕ)
    → IsStored s log
    → needs_block s.produced (back s.chunks) ≡ true
    → OnSome (λ t. IsStored t log) (allocate_next s)
unfolding allocate_next
allocate_next-IsStored s log v n =
    if_elim (OnSome (λ t. IsStored t log)) (leb s.size s.produced) (λ _. tt)
      (λ room. record {
        counts = v.counts;
        fits = v.fits;
        tiled =
            Tiled-new s.size 0 s.produced s.chunks log v.tiled (omega (arith, v.counts))
              (ground (arith, room)) n;
      })

with_span-IsStored :
    (maximum : ℕ) (log : List ℕ) (o : Option Storage)
    → OnSome (λ t. IsStored t log) o
    → OnSome (λ (r : ℕ × Storage). IsStored r.1 log) (with_span maximum o)
unfolding with_span
with_span-IsStored maximum log none h = tt
with_span-IsStored maximum log (some s) h =
    spanned (span_length maximum s.produced (back s.chunks)) h
  where
    spanned :
        (o : Option ℕ)
        → IsStored s log
        → OnSome (λ (r : ℕ × Storage). IsStored r.1 log) (Option.map (λ (n : ℕ). (n, s)) o)
    spanned none h = tt
    spanned (some n) h = h

writable-IsStored :
    (s : Storage) (log : List ℕ) (maximum : ℕ)
    → IsStored s log
    → OnSome (λ (r : ℕ × Storage). IsStored r.1 log) (writable s maximum)
unfolding writable
writable-IsStored s log maximum v =
    if_elim (OnSome (λ (r : ℕ × Storage). IsStored r.1 log)) (maximum == 0 || s.produced == s.size)
      (λ _. v)
      (λ _. with_span-IsStored maximum log _ (
        if_elim (OnSome (λ t. IsStored t log)) (needs_block s.produced (back s.chunks))
          (λ n. allocate_next-IsStored s log v n) (λ _. v)))

committed :
    (produced at used span count : ℕ) (null : Bool)
    → (null || (not (produced == at + used) || ltb (span - used) count)) ≡ false
    → (produced ≡ at + used) × (count ≤ span - used)
committed produced at used span count null h = ground arith

commit_to-IsStored :
    (s : Storage) (log bytes : List ℕ) (o : Option Chunk)
    → IsStored s log
    → back s.chunks ≡ o
    → OnSome (λ t. IsStored t (log ++ bytes)) (commit_to s bytes o)
unfolding commit_to
commit_to-IsStored s log bytes none v e = tt
commit_to-IsStored s log bytes (some chunk) v e =
    if_elim (OnSome (λ t. IsStored t (log ++ bytes)))
      (is_null chunk.mapping
        || (not (s.produced == chunk.offset + chunk.used)
            || ltb (chunk.length - chunk.used) (length bytes)))
      (λ _. tt)
      (λ h.
        let fit = committed s.produced chunk.offset chunk.used chunk.length (length bytes) _ h in
        let inside = back_inside s.size 0 s.chunks log chunk v.tiled e in
        record {
          counts = omega (arith, v.counts, length-append log bytes);
          fits = omega (arith, v.fits, fit.0, fit.1, inside);
          tiled =
              Tiled-filled s.size 0 s.chunks log bytes chunk v.tiled e
                (omega (arith, v.counts, fit.0)) fit.1;
        })

give_back-IsStored :
    (s : Storage) (log : List ℕ) (d : Discarded)
    → IsStored s log
    → KeepsTiles s.size 0 s.chunks log d
    → OnSome (λ (r : ℕ × Storage). IsStored r.1 log) (give_back s d)
unfolding give_back
give_back-IsStored s log d v k =
    if_elim (OnSome (λ (r : ℕ × Storage). IsStored r.1 log))
      (not (s.charge == 0) && not (d.released == 0))
      (λ _.
        if_elim (OnSome (λ (r : ℕ × Storage). IsStored r.1 log))
          (ltb s.charge d.released || not (d.released % s.page_size == 0)) (λ _. tt) (λ _. kept))
      (λ _. kept)
  where
    kept : {charge : ℕ} → IsStored (record s { chunks = d.chunks; charge = charge }) log
    kept = record { counts = v.counts; fits = v.fits; tiled = k.0 }

pub discard-IsStored :
    (s : Storage) (log : List ℕ) (offset size : ℕ)
    → IsStored s log
    → OnSome (λ (r : ℕ × Storage). IsStored r.1 log) (discard s offset size)
unfolding discard
discard-IsStored s log offset size v =
    if_elim (OnSome (λ (r : ℕ × Storage). IsStored r.1 log))
      (ltb s.produced offset || ltb (s.produced - offset) size) (λ _. v)
      (λ _. give_back-IsStored s log _ v (
        discard_from-KeepsTiles (offset / block_size) offset (offset + size) s.size 0 s.chunks log
          v.tiled))

commit-IsStored :
    (s : Storage) (log bytes : List ℕ)
    → IsStored s log
    → OnSome (λ t. IsStored t (log ++ bytes)) (commit s bytes)
unfolding commit
commit-IsStored s log bytes v =
    if_elim (OnSome (λ t. IsStored t (log ++ bytes))) (length bytes == 0) (λ _. tt)
      (λ _. commit_to-IsStored s log bytes (back s.chunks) v refl)

-- However blocks are taken, filled, recycled and given up: the chunks lie side by side within the
-- size, and those that are not recycled hold the bytes that were committed.
pub Reach-IsStored : {s : Storage} {log : List ℕ} → Reach s log → IsStored s log
Reach-IsStored (begin size charge page h) =
    on_some (λ s. IsStored s []) _ _ h (new_storage-IsStored size charge page)
Reach-IsStored (reserve maximum count r h) =
    on_some (λ (t : ℕ × Storage). IsStored t.1 _) _ _ h
      (writable-IsStored _ _ maximum (Reach-IsStored r))
Reach-IsStored (receive bytes r h) =
    on_some (λ t. IsStored t _) _ _ h (commit-IsStored _ _ bytes (Reach-IsStored r))
Reach-IsStored (recycle offset size count r h) =
    on_some (λ (t : ℕ × Storage). IsStored t.1 _) _ _ h
      (discard-IsStored _ _ offset size (Reach-IsStored r))
Reach-IsStored (again r) = unfold release_for_retry in empty-IsStored _ 0 0

-- Of a storage in use, `copy_to` copies the bytes that were committed, from the offset on, where
-- the range is available, and returns false where it is not.
pub copy_to-committed :
    (s : Storage) (log : List ℕ) (offset size : ℕ)
    → Reach s log
    → copy_to s offset size
      ≡ (if available s offset size then some (take size (drop offset log)) else none)
copy_to-committed s log offset size r = copy_to-IsStored s log offset size (Reach-IsStored r)
