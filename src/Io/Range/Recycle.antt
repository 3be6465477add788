-- ===== src/Io/Range/Recycle.antt =====
-- A discard leaves the bytes outside its interval.
use ngs3fs.Prelude.{
  ℕ, zero, suc, ◌+◌, ◌%◌, ◌-◌, ◌/◌, ◌≤◌, ◌<◌, min, Bool, false, ◌||◌, ltb, leb, ◌==◌, not, ◌&&◌,
  if◌then◌else◌, if_elim, List, [], ◌∷◌, none, some, length, drop, ◌≡◌, refl, arith, ap, sym, ◌∙◌,
  ◌⊎◌, inl, inr,
}
use ngs3fs.Prelude.Slices.{take}
use ngs3fs.Io.Range.{
  block_size, Chunk, Storage, is_null, is_passed, available_loop, available, copy_to, Discarded,
  is_kept, discard_loop, discard_from, give_back, discard,
}
use ngs3fs.Io.Range.Tiled.{Bool_cases, ==_ne, copy_to-IsStored}
use ngs3fs.Io.Range.Reach.{Reach, recycle, OnSome, on_some, Reach-IsStored}

-- A chunk stays, or is recycled and lies in the interval.
abbrev IsRecycled : ℕ → ℕ → Chunk → Chunk → Type 0
IsRecycled first end c d =
    (d ≡ c)
    ⊎ ((d ≡ record c { mapping = none })
        × (c.used ≡ c.length)
        × (first ≤ c.offset)
        × (c.offset + c.length ≤ end))

AreRecycled : ℕ → ℕ → List Chunk → List Chunk → Type 0
AreRecycled first end [] [] = Unit
AreRecycled first end [] (d ∷ ds) = ⊥
AreRecycled first end (c ∷ cs) [] = ⊥
AreRecycled first end (c ∷ cs) (d ∷ ds) = IsRecycled first end c d × AreRecycled first end cs ds

AreRecycled-refl : (first end : ℕ) (cs : List Chunk) → AreRecycled first end cs cs
unfolding AreRecycled
AreRecycled-refl first end [] = tt
AreRecycled-refl first end (c ∷ cs) = (inl refl, AreRecycled-refl first end cs)

AreRecycled-cons :
    (first end : ℕ) (c d : Chunk) (cs ds : List Chunk)
    → IsRecycled first end c d
    → AreRecycled first end cs ds
    → AreRecycled first end (c ∷ cs) (d ∷ ds)
unfolding AreRecycled
AreRecycled-cons first end c d cs ds h t = (h, t)

recycled_inside :
    (used span at first end : ℕ) (null : Bool)
    → (null || (not (used == span) || (ltb at first || ltb end (at + span)))) ≡ false
    → (used ≡ span) × (first ≤ at) × (at + span ≤ end)
recycled_inside used span at first end null h = ground arith

discard_loop-AreRecycled :
    (first end : ℕ) (cs : List Chunk) → AreRecycled first end cs (discard_loop first end cs).chunks
unfolding discard_loop AreRecycled is_kept
discard_loop-AreRecycled first end [] = tt
discard_loop-AreRecycled first end (c ∷ cs) =
    let rest = discard_loop-AreRecycled first end cs in
    if_elim (λ (d : Discarded). AreRecycled first end (c ∷ cs) d.chunks) (leb end c.offset)
      (λ _. AreRecycled-refl first end (c ∷ cs))
      (λ _.
        if_elim (λ (d : Discarded). AreRecycled first end (c ∷ cs) d.chunks)
          (is_null c.mapping
            || (not (c.used == c.length) || (ltb c.offset first || ltb end (c.offset + c.length))))
          (λ _. AreRecycled-cons first end c c cs _ (inl refl) rest)
          (λ k.
            AreRecycled-cons first end c (record c { mapping = none }) cs _
              (let q = recycled_inside c.used c.length c.offset first end (is_null c.mapping) k in
                inr (refl, q.0, q.1, q.2))
              rest))

discard_from-AreRecycled :
    (n first end : ℕ) (cs : List Chunk)
    → AreRecycled first end cs (discard_from n first end cs).chunks
unfolding discard_from AreRecycled
discard_from-AreRecycled zero first end cs = discard_loop-AreRecycled first end cs
discard_from-AreRecycled (suc n) first end [] = tt
discard_from-AreRecycled (suc n) first end (c ∷ cs) =
    (inl refl, discard_from-AreRecycled n first end cs)

AreRecycled-drop :
    (n first end : ℕ) (cs ds : List Chunk)
    → AreRecycled first end cs ds
    → AreRecycled first end (drop n cs) (drop n ds)
unfolding AreRecycled
AreRecycled-drop zero first end cs ds h = h
AreRecycled-drop (suc n) first end [] [] h = h
AreRecycled-drop (suc n) first end [] (d ∷ ds) h = absurd h
AreRecycled-drop (suc n) first end (c ∷ cs) [] h = absurd h
AreRecycled-drop (suc n) first end (c ∷ cs) (d ∷ ds) h = AreRecycled-drop n first end cs ds h.1

-- The range meets the interval nowhere.
abbrev pub IsApart : ℕ → ℕ → ℕ → ℕ → Type 0
IsApart first end position remaining = (position + remaining ≤ first) ⊎ (end ≤ position)

IsApart-next :
    (first end position remaining count : ℕ)
    → count ≤ remaining
    → IsApart first end position remaining
    → IsApart first end (position + count) (remaining - count)
IsApart-next first end position remaining count h (inl a) = inl (omega (arith, a, h))
IsApart-next first end position remaining count h (inr a) = inr (omega (arith, a))

-- A chunk that is not passed over holds the position.
not_passed :
    (first end position remaining : ℕ) (c : Chunk)
    → is_passed position c ≡ false
    → c.used ≡ c.length
    → first ≤ c.offset
    → c.offset + c.length ≤ end
    → 0 < remaining
    → IsApart first end position remaining
    → ⊥
unfolding is_passed
not_passed first end position remaining c p u a b k (inl x) = ground arith
not_passed first end position remaining c p u a b k (inr x) = ground arith

is_passed-null :
    (position : ℕ) (c : Chunk)
    → is_passed position (record c { mapping = none }) ≡ is_passed position c
unfolding is_passed
is_passed-null position c = refl

available_loop-AreRecycled :
    (first end : ℕ) (cs ds : List Chunk) (position remaining : ℕ)
    → AreRecycled first end cs ds
    → 0 < remaining
    → IsApart first end position remaining
    → available_loop cs position remaining ≡ available_loop ds position remaining
unfolding AreRecycled available_loop
available_loop-AreRecycled first end [] [] position remaining h k a = refl
available_loop-AreRecycled first end [] (d ∷ ds) position remaining h k a = absurd h
available_loop-AreRecycled first end (c ∷ cs) [] position remaining h k a = absurd h
available_loop-AreRecycled first end (c ∷ cs) (d ∷ ds) position remaining (inl same, rest) k a =
    let count = min remaining (c.used - (position - c.offset)) in
    let le : count ≤ remaining = omega arith in
    let here = available_loop-AreRecycled first end cs ds position remaining rest k a in
    Bool_cases (remaining == count) (λ q. rw (same, q, here) refl)
      (λ q.
        let ne = ==_ne remaining count q in
        let next =
          available_loop-AreRecycled first end cs ds (position + count) (remaining - count) rest
            (omega (arith, le, ne)) (IsApart-next first end position remaining count le a) in
        rw (same, here, next) refl)
available_loop-AreRecycled first end (c ∷ cs) (d ∷ ds) position remaining (inr (e, u, x, y), rest) k
      a =
    let here = available_loop-AreRecycled first end cs ds position remaining rest k a in
    Bool_cases (is_passed position c) (λ p. rw (e, is_passed-null position c, p) here)
      (λ p. absurd (not_passed first end position remaining c p u x y k a))

-- A discard changes no availability outside its interval.
available-AreRecycled :
    (s : Storage) (ds : List Chunk) (charge first end offset size : ℕ)
    → AreRecycled first end s.chunks ds
    → IsApart first end offset size
    → available s offset size ≡ available (record s { chunks = ds; charge = charge }) offset size
unfolding available
available-AreRecycled s ds charge first end offset size h a =
    Bool_cases (ltb s.produced offset || ltb (s.produced - offset) size) (λ out. rw out refl)
      (λ inside. rw inside (
        Bool_cases (size == 0) (λ e. rw e refl)
          (λ e.
            let ne = ==_ne size 0 e in
            rw e (
              available_loop-AreRecycled first end (drop (offset / block_size) s.chunks)
                (drop (offset / block_size) ds) offset size
                (AreRecycled-drop (offset / block_size) first end s.chunks ds h) (omega (arith, ne))
                a))))

discard-available :
    (s : Storage) (first length offset size : ℕ)
    → IsApart first (first + length) offset size
    → OnSome
        (λ (r : ℕ × Storage). available s offset size ≡ available r.1 offset size)
        (discard s first length)
unfolding discard give_back
discard-available s first length offset size a =
    let h = discard_from-AreRecycled (first / block_size) first (first + length) s.chunks in
    let d = discard_from (first / block_size) first (first + length) s.chunks in
    if_elim (OnSome (λ (r : ℕ × Storage). available s offset size ≡ available r.1 offset size))
      (ltb s.produced first || ltb (s.produced - first) length) (λ _. refl)
      (λ _.
        if_elim (OnSome (λ (r : ℕ × Storage). available s offset size ≡ available r.1 offset size))
          (not (s.charge == 0) && not (d.released == 0))
          (λ _.
            if_elim
              (OnSome (λ (r : ℕ × Storage). available s offset size ≡ available r.1 offset size))
              (ltb s.charge d.released || not (d.released % s.page_size == 0)) (λ _. tt)
              (λ _.
                available-AreRecycled s d.chunks (s.charge - d.released) first (first + length)
                  offset size h a))
          (λ _. available-AreRecycled s d.chunks s.charge first (first + length) offset size h a))

-- Behind a discard in a storage in use, a range that lies outside the discarded interval is copied
-- as before, whether the bytes are still there or not.
pub copy_to-discard :
    (s t : Storage) (log : List ℕ) (first length count offset size : ℕ)
    → Reach s log
    → discard s first length ≡ some (count, t)
    → IsApart first (first + length) offset size
    → copy_to t offset size ≡ copy_to s offset size
copy_to-discard s t log first length count offset size r h a =
    let same =
      on_some _ (discard s first length) (count, t) h
        (discard-available s first length offset size a) in
    copy_to-IsStored t log offset size (Reach-IsStored (recycle first length count r h))
    ∙ ap (λ b. if b then some (take size (drop offset log)) else none) (sym same)
    ∙ sym (copy_to-IsStored s log offset size (Reach-IsStored r))
