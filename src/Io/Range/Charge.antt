-- ===== src/Io/Range/Charge.antt =====
-- What a discard gives back is there, in whole pages: `split` does not throw.
use native.Mathlib.Nat.{mod-add-mod, zero-mod}
use ngs3fs.Prelude.{
  ℕ, zero, suc, ap, sym, ◌∙◌, ◌+◌, ◌-◌, ◌*◌, ◌/◌, ◌%◌, ◌≤◌, ◌<◌, Bool, true, false, ◌||◌, ◌&&◌, ltb,
  leb, ◌==◌, not, if_elim, List, Option, none, some, length, ◌≡◌, ◌≢◌, refl, arith, ◌⊎◌, inl, inr,
  word,
}
use mathlib.Core.Option
use ngs3fs.Io.Range.{
  block_size, Chunk, Storage, block_count, new_storage, back, allocate_next, needs_block, is_null,
  span_length, with_span, writable, commit_to, commit, Discarded, discard_from, give_back, discard,
  release_for_retry,
}
use ngs3fs.Io.Range.Kept.{discard_from-KeepsTiles}
use ngs3fs.Io.Range.Reach.{
  Reach, begin, reserve, receive, recycle, again, OnSome, on_some, Reach-IsStored,
}
use ngs3fs.Io.Range.Counts.{
  recycled, recycled-fit, recycled-new, recycled-filled, Counts, discard_from-Counts,
}

-- The storage has no reservation, or one of a block for each chunk that is not recycled, in pages
-- that divide a block.
IsCharged : Storage → Type 0
IsCharged s =
    (s.charge ≡ 0)
    ⊎ ((s.charge + recycled s.chunks * block_size ≡ block_count s.size * block_size)
        × (block_size % s.page_size ≡ 0))

new_storage-IsCharged : (size charge page : ℕ) → OnSome IsCharged (new_storage size charge page)
unfolding new_storage IsCharged recycled
new_storage-IsCharged size charge page =
    if_elim (OnSome IsCharged) (size == 0 || ltb (word - 1 - (block_size - 1)) size) (λ _. tt)
      (λ _.
        if_elim (OnSome IsCharged)
          (not (charge == 0)
            && (not (charge == block_count size * block_size) || not (block_size % page == 0)))
          (λ _. tt) (λ h. charged charge (block_count size * block_size) (block_size % page) h))
  where
    charged :
        (charge all rest : ℕ)
        → (not (charge == 0) && (not (charge == all) || not (rest == 0))) ≡ false
        → (charge ≡ 0) ⊎ ((charge + 0 * block_size ≡ all) × (rest ≡ 0))
    charged charge all rest h = ground arith

-- Taking and filling blocks recycles none.
same-IsCharged :
    (s : Storage) (cs : List Chunk) (produced : ℕ)
    → recycled cs ≡ recycled s.chunks
    → IsCharged s
    → IsCharged (record s { chunks = cs; produced = produced })
unfolding IsCharged
same-IsCharged s cs produced e (inl none_left) = inl none_left
same-IsCharged s cs produced e (inr (v, paged)) = inr (omega (arith, e, v), paged)

allocate_next-IsCharged : (s : Storage) → IsCharged s → OnSome IsCharged (allocate_next s)
unfolding allocate_next
allocate_next-IsCharged s v =
    if_elim (OnSome IsCharged) (leb s.size s.produced) (λ _. tt)
      (λ _. same-IsCharged s _ s.produced (recycled-new s.chunks s.size s.produced) v)

with_span-IsCharged :
    (maximum : ℕ) (o : Option Storage)
    → OnSome IsCharged o
    → OnSome (λ (r : ℕ × Storage). IsCharged r.1) (with_span maximum o)
unfolding with_span
with_span-IsCharged maximum none h = tt
with_span-IsCharged maximum (some s) h = spanned (span_length maximum s.produced (back s.chunks)) h
  where
    spanned :
        (o : Option ℕ)
        → IsCharged s
        → OnSome (λ (r : ℕ × Storage). IsCharged r.1) (Option.map (λ (n : ℕ). (n, s)) o)
    spanned none h = tt
    spanned (some n) h = h

writable-IsCharged :
    (s : Storage) (maximum : ℕ)
    → IsCharged s
    → OnSome (λ (r : ℕ × Storage). IsCharged r.1) (writable s maximum)
unfolding writable
writable-IsCharged s maximum v =
    if_elim (OnSome (λ (r : ℕ × Storage). IsCharged r.1)) (maximum == 0 || s.produced == s.size)
      (λ _. v)
      (λ _. with_span-IsCharged maximum _ (
        if_elim (OnSome IsCharged) (needs_block s.produced (back s.chunks))
          (λ _. allocate_next-IsCharged s v) (λ _. v)))

commit_to-IsCharged :
    (s : Storage) (bytes : List ℕ) (o : Option Chunk)
    → back s.chunks ≡ o
    → IsCharged s
    → OnSome IsCharged (commit_to s bytes o)
unfolding commit_to
commit_to-IsCharged s bytes none e v = tt
commit_to-IsCharged s bytes (some chunk) e v =
    if_elim (OnSome IsCharged)
      (is_null chunk.mapping
        || (not (s.produced == chunk.offset + chunk.used)
            || ltb (chunk.length - chunk.used) (length bytes)))
      (λ _. tt) (λ _. same-IsCharged s _ _ (recycled-filled s.chunks chunk bytes e) v)

commit-IsCharged : (s : Storage) (bytes : List ℕ) → IsCharged s → OnSome IsCharged (commit s bytes)
unfolding commit
commit-IsCharged s bytes v =
    if_elim (OnSome IsCharged) (length bytes == 0) (λ _. tt)
      (λ _. commit_to-IsCharged s bytes (back s.chunks) refl v)

-- A discard of a reservation that covers the chunks gives a result, and such a reservation.
IsRun : Option (ℕ × Storage) → Type 0
IsRun none = ⊥
IsRun (some r) = IsCharged r.1

nothing_back :
    (charge released : ℕ)
    → (not (charge == 0) && not (released == 0)) ≡ false
    → (charge ≡ 0) ⊎ (released ≡ 0)
nothing_back charge released h = ground arith

charged_back :
    (charge : ℕ) (none_back : Bool) → (not (charge == 0) && not none_back) ≡ true → charge ≢ 0
charged_back charge none_back h e = ground (arith, h, e)

-- Blocks are pages where a block is.
blocks-mod : (n page : ℕ) → block_size % page ≡ 0 → (n * block_size) % page ≡ 0
blocks-mod zero page h = zero-mod page
blocks-mod (suc n) page h =
    let sum : suc n * block_size ≡ block_size + n * block_size = omega arith in
    let rest : 0 + n * block_size ≡ n * block_size = omega arith in
    ap (λ (m : ℕ). m % page) sum
    ∙ sym (mod-add-mod block_size page (n * block_size))
    ∙ ap (λ (m : ℕ). (m + n * block_size) % page) h
    ∙ ap (λ (m : ℕ). m % page) rest
    ∙ blocks-mod n page h

released-mod :
    (s : Storage) (d : Discarded)
    → Counts s.chunks d
    → block_size % s.page_size ≡ 0
    → d.released % s.page_size ≡ 0
released-mod s d k h =
    let blocks : d.released ≡ (recycled d.chunks - recycled s.chunks) * block_size =
      omega (arith, k) in
    ap (λ (m : ℕ). m % s.page_size) blocks
    ∙ blocks-mod (recycled d.chunks - recycled s.chunks) s.page_size h

give_back-IsRun :
    (s : Storage) (d : Discarded)
    → IsCharged s
    → Counts s.chunks d
    → recycled d.chunks ≤ block_count s.size
    → IsRun (give_back s d)
unfolding give_back IsRun IsCharged
give_back-IsRun s d (inl none_left) k fit =
    if_elim IsRun (not (s.charge == 0) && not (d.released == 0))
      (λ go. absurd (charged_back s.charge (d.released == 0) go none_left)) (λ _. inl none_left)
give_back-IsRun s d (inr (v, paged)) k fit =
    if_elim IsRun (not (s.charge == 0) && not (d.released == 0))
      (λ _.
        if_elim IsRun (ltb s.charge d.released || not (d.released % s.page_size == 0))
          (λ bad.
            absurd (
              omega
                (arith, v, k, fit, low_lt s.charge d.released _ (released-mod s d k paged) bad)))
          (λ fine. inr (omega (arith, v, k, high_le s.charge d.released _ fine), paged)))
      (λ stays. stay (nothing_back s.charge d.released stays))
  where
    low_lt : (m n rest : ℕ) → rest ≡ 0 → (ltb m n || not (rest == 0)) ≡ true → m < n
    low_lt m n rest e h = ground arith

    high_le : (m n rest : ℕ) → (ltb m n || not (rest == 0)) ≡ false → n ≤ m
    high_le m n rest h = ground arith

    stay : (s.charge ≡ 0) ⊎ (d.released ≡ 0) → IsCharged (record s { chunks = d.chunks })
    stay (inl e) = inl e
    stay (inr z) = inr (omega (arith, v, k, z), paged)

-- In a storage in use, `discard` returns.
discard-IsRun :
    (s : Storage) (log : List ℕ) (offset size : ℕ)
    → Reach s log
    → IsCharged s
    → IsRun (discard s offset size)
unfolding discard IsRun
discard-IsRun s log offset size r v =
    if_elim IsRun (ltb s.produced offset || ltb (s.produced - offset) size) (λ _. v)
      (λ _.
        give_back-IsRun s _ v
          (discard_from-Counts (offset / block_size) offset (offset + size) s.chunks)
          (recycled-fit s.size
            (discard_from (offset / block_size) offset (offset + size) s.chunks).chunks log
            (discard_from-KeepsTiles (offset / block_size) offset (offset + size) s.size 0 s.chunks
              log (Reach-IsStored r).tiled).0))

run_some : (o : Option (ℕ × Storage)) → IsRun o → OnSome (λ (r : ℕ × Storage). IsCharged r.1) o
unfolding IsRun
run_some none h = absurd h
run_some (some r) h = h

run_not_none : (o : Option (ℕ × Storage)) → IsRun o → o ≢ none
unfolding IsRun
run_not_none none h e = h
run_not_none (some r) h e = absurd (cc)

Reach-IsCharged : {s : Storage} {log : List ℕ} → Reach s log → IsCharged s
Reach-IsCharged (begin size charge page h) =
    on_some IsCharged _ _ h (new_storage-IsCharged size charge page)
Reach-IsCharged (reserve maximum count r h) =
    on_some (λ (t : ℕ × Storage). IsCharged t.1) _ _ h
      (writable-IsCharged _ maximum (Reach-IsCharged r))
Reach-IsCharged (receive bytes r h) =
    on_some IsCharged _ _ h (commit-IsCharged _ bytes (Reach-IsCharged r))
Reach-IsCharged (recycle offset size count r h) =
    on_some (λ (t : ℕ × Storage). IsCharged t.1) _ _ h
      (run_some _ (discard-IsRun _ _ offset size r (Reach-IsCharged r)))
Reach-IsCharged (again r) = unfold release_for_retry in unfold IsCharged in inl refl

-- In a storage in use, a discard never ends the program: what it gives back of the reservation is
-- no more than is left of it, in whole pages.
pub discard_runs :
    (s : Storage) (log : List ℕ) (offset size : ℕ) → Reach s log → discard s offset size ≢ none
discard_runs s log offset size r =
    run_not_none (discard s offset size) (discard-IsRun s log offset size r (Reach-IsCharged r))
