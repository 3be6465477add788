-- ===== src/Io/Range/Tiled.antt =====
-- The chunks lie side by side and hold the bytes that were received; what is copied from them.
use ngs3fs.Prelude.{
  ℕ, zero, suc, ◌+◌, ◌-◌, ◌*◌, ◌/◌, ◌≤◌, ◌<◌, min, Bool, true, false, ◌||◌, ltb, leb, ◌==◌,
  if◌then◌else◌, if_elim, List, [], ◌∷◌, ◌++◌, Option, none, some, length, drop, ◌≡◌, ◌≢◌, refl,
  arith, ap, sym, ◌∙◌, subst, ◌⊎◌, ==_iff,
}
use ngs3fs.Prelude.Slices.{take, length-drop, drop-nil, drop-drop, take-drop-take, take-split}
use ngs3fs.Io.Range.{
  block_size, Chunk, Storage, is_null, is_passed, available_loop, available, bytes_at, joined,
  copy_loop, copy_to,
}

pub Bool_cases : {P : Type 0} (b : Bool) → (b ≡ true → P) → (b ≡ false → P) → P
Bool_cases true f g = f refl
Bool_cases false f g = g refl

-- A mapping that is not recycled holds these bytes.
abbrev pub Holds : Option (List ℕ) → List ℕ → Type 0
Holds none bytes = Unit
Holds (some held) bytes = held ≡ bytes

-- A chunk for the bytes from `start` on, of which `rest` were received.
pub record IsChunk (size start : ℕ) (rest : List ℕ) (c : Chunk) : Type 0 where
  pub starts : c.offset ≡ start
  pub inside : start < size
  pub spans : c.length ≡ min block_size (size - start)
  pub counts : c.used ≡ min block_size (length rest)
  pub holds : Holds c.mapping (take block_size rest)

abbrev pub is_last : List Chunk → Bool
is_last [] = true
is_last (c ∷ cs) = false

-- Chunks for the bytes from `start` on; only the last one may be filled in part.
unfoldable pub Tiled : ℕ → ℕ → List Chunk → List ℕ → Type 0
Tiled size start [] rest = rest ≡ []
Tiled size start (c ∷ cs) rest =
    IsChunk size start rest c
    × ((is_last cs ≡ true) ⊎ (block_size ≤ length rest))
    × Tiled size (start + block_size) cs (drop block_size rest)

-- The whole storage, and the bytes that were committed to it.
pub record IsStored (s : Storage) (log : List ℕ) : Type 0 where
  pub counts : s.produced ≡ length log
  pub fits : s.produced ≤ s.size
  pub tiled : Tiled s.size 0 s.chunks log

pub Tiled-drop :
    (size start k : ℕ) (cs : List Chunk) (rest : List ℕ)
    → k * block_size ≤ length rest
    → Tiled size start cs rest
    → Tiled size (start + k * block_size) (drop k cs) (drop (k * block_size) rest)
unfolding Tiled
Tiled-drop size start zero cs rest h t = subst (λ n. Tiled size n cs rest) (omega arith) t
Tiled-drop size start (suc k) [] rest h t = rw t (drop-nil (suc k * block_size))
Tiled-drop size start (suc k) (c ∷ cs) rest h t =
    let e : (start + block_size) + k * block_size ≡ start + suc k * block_size = omega arith in
    let d : k * block_size + block_size ≡ suc k * block_size = omega arith in
    let long = length-drop block_size rest in
    subst (λ n. Tiled size n (drop k cs) (drop (suc k * block_size) rest)) e
      (subst (λ (bs : List ℕ). Tiled size ((start + block_size) + k * block_size) (drop k cs) bs)
        (drop-drop (k * block_size) block_size rest ∙ ap (λ n. drop n rest) d)
        (Tiled-drop size (start + block_size) k cs (drop block_size rest) (omega (arith, long, h))
          t.2))

-- What both loops do with a chunk that they do not pass over.
chunk_copied :
    (m : Option (List ℕ)) (rest : List ℕ) (at count remaining : ℕ) (more : Option (List ℕ))
    (av : Bool)
    → Holds m (take block_size rest)
    → count ≤ remaining
    → at + count ≤ block_size
    → ((remaining == count) ≡ false
        → more ≡ (if av then some (take (remaining - count) (drop (at + count) rest)) else none))
    → (if remaining == count then bytes_at at count m else joined (bytes_at at count m) more) ≡ (
        if (if is_null m then false else if remaining == count then true else av)
        then some (take remaining (drop at rest))
        else none)
unfolding bytes_at joined is_null
chunk_copied none rest at count remaining more av h le fit next =
    if_elim (λ (o : Option (List ℕ)). o ≡ none) (remaining == count) (λ _. refl) (λ _. refl)
chunk_copied (some held) rest at count remaining more av h le fit next =
    let part : take count (drop at held) ≡ take count (drop at rest) =
      ap (λ (t : List ℕ). take count (drop at t)) h ∙ take-drop-take at count block_size rest fit in
    Bool_cases (remaining == count)
      (λ e.
        let same : remaining ≡ count = (==_iff remaining count).0 e in
        rw e (ap some part ∙ ap (λ n. some (take n (drop at rest))) (sym same)))
      (λ e. rw e (rw (next e) (whole part av)))
  where
    whole :
        take count (drop at held) ≡ take count (drop at rest)
        → (b : Bool)
        → joined
            (some (take count (drop at held)))
            (if b then some (take (remaining - count) (drop (at + count) rest)) else none)
          ≡ (if b then some (take remaining (drop at rest)) else none)
    whole part true =
        let e : count + (remaining - count) ≡ remaining = omega (arith, le) in
        let d : count + at ≡ at + count = omega arith in
        ap some (
          ap (λ (t : List ℕ). t ++ take (remaining - count) (drop (at + count) rest)) part
          ∙ ap (λ (t : List ℕ). take count (drop at rest) ++ take (remaining - count) t)
              (sym (drop-drop count at rest ∙ ap (λ n. drop n rest) d))
          ∙ take-split count (remaining - count) (drop at rest)
          ∙ ap (λ n. take n (drop at rest)) e)
    whole part false = refl

drop_next :
    (start position : ℕ) (rest : List ℕ)
    → start + block_size ≤ position
    → drop (position - (start + block_size)) (drop block_size rest) ≡ drop (position - start) rest
drop_next start position rest h =
    let e : position - (start + block_size) + block_size ≡ position - start = omega (arith, h) in
    drop-drop (position - (start + block_size)) block_size rest ∙ ap (λ n. drop n rest) e

pub ==_ne : (m n : ℕ) → (m == n) ≡ false → m ≢ n
==_ne m n h e = ground (arith, h, e)

behind_end :
    (first end position : ℕ)
    → (ltb position first || leb end position) ≡ true
    → first ≤ position
    → end ≤ position
behind_end first end position p h = ground arith

before_end :
    (first end position : ℕ) → (ltb position first || leb end position) ≡ false → position < end
before_end first end position p = ground arith

-- A chunk is passed over only if the position is behind its block.
passed_lem :
    (size start : ℕ) (rest : List ℕ) (c : Chunk) (position remaining : ℕ)
    → IsChunk size start rest c
    → is_passed position c ≡ true
    → start ≤ position
    → 0 < remaining
    → position + remaining ≤ start + length rest
    → start + block_size ≤ position
unfolding is_passed
passed_lem size start rest c position remaining v p h k l = omega (
  arith,
  v.starts,
  v.counts,
  h,
  k,
  l,
  behind_end c.offset (c.offset + c.used) position p (omega (arith, v.starts, h)),
)

here_lem :
    (size start : ℕ) (rest : List ℕ) (c : Chunk) (position remaining : ℕ)
    → IsChunk size start rest c
    → is_passed position c ≡ false
    → start ≤ position
    → position < start + c.used
unfolding is_passed
here_lem size start rest c position remaining v p h =
    omega (arith, v.starts, h, before_end c.offset (c.offset + c.used) position p)

-- The copied bytes are the received ones from the position on, if the range is available.
copy_loop_lem :
    (size start : ℕ) (cs : List Chunk) (rest : List ℕ) (position remaining : ℕ)
    → Tiled size start cs rest
    → start ≤ position
    → 0 < remaining
    → position + remaining ≤ start + length rest
    → copy_loop cs position remaining ≡ (
        if available_loop cs position remaining
        then some (take remaining (drop (position - start) rest))
        else none)
unfolding Tiled copy_loop available_loop
copy_loop_lem size start [] rest position remaining t h k l =
    let none_left : length rest ≡ 0 = ap length t in absurd (omega (arith, none_left))
copy_loop_lem size start (c ∷ cs) rest position remaining t h k l =
    let v = t.0 in
    let long = length-drop block_size rest in
    let next : (p r : ℕ)
        → start + block_size ≤ p
        → 0 < r
        → p + r ≤ start + length rest
        → copy_loop cs p r
          ≡ (if available_loop cs p r then some (take r (drop (p - start) rest)) else none) =
      λ p r a b d.
        subst
          (λ (x : List ℕ).
            copy_loop cs p r ≡ (if available_loop cs p r then some (take r x) else none))
          (drop_next start p rest a)
          (copy_loop_lem size (start + block_size) cs (drop block_size rest) p r t.2 a b
            (omega (arith, long, a, b, d))) in
    Bool_cases (is_passed position c)
      (λ p.
        rw p
          (next position remaining (passed_lem size start rest c position remaining v p h k l) k l))
      (λ p.
        let q = here_lem size start rest c position remaining v p h in
        rw (p, v.starts)
          (chunk_copied c.mapping rest (position - start)
            (min remaining (c.used - (position - start))) remaining _ _ v.holds (omega arith)
            (omega (arith, v.counts, q))
            (λ e.
              let ne = ==_ne remaining _ e in
              let d : position + min remaining (c.used - (position - start)) - start
                  ≡ position - start + min remaining (c.used - (position - start)) =
                omega (arith, h) in
              subst
                (λ n.
                  copy_loop cs (position + min remaining (c.used - (position - start)))
                    (remaining - min remaining (c.used - (position - start)))
                  ≡ (if available_loop cs (position + min remaining (c.used - (position - start)))
                        (remaining - min remaining (c.used - (position - start)))
                      then some (
                          take (remaining - min remaining (c.used - (position - start)))
                            (drop n rest))
                      else none))
                d
                (next (position + min remaining (c.used - (position - start)))
                  (remaining - min remaining (c.used - (position - start)))
                  (omega (arith, ne, v.counts, q, l, h)) (omega (arith, ne))
                  (omega (arith, l, h))))))

pub in_range :
    (produced offset size : ℕ)
    → (ltb produced offset || ltb (produced - offset) size) ≡ false
    → offset + size ≤ produced
in_range produced offset size h = ground arith

-- What is copied out of a storage is the part of the received bytes, where it is available.
pub copy_to-IsStored :
    (s : Storage) (log : List ℕ) (offset size : ℕ)
    → IsStored s log
    → copy_to s offset size
      ≡ (if available s offset size then some (take size (drop offset log)) else none)
unfolding copy_to available
copy_to-IsStored s log offset size v =
    let k = offset / block_size in
    Bool_cases (ltb s.produced offset || ltb (s.produced - offset) size) (λ out. rw out refl)
      (λ inside.
        let l = in_range s.produced offset size inside in
        let rest = length-drop (k * block_size) log in
        rw inside (
          Bool_cases (size == 0) (λ e. let z : size ≡ 0 = (==_iff size 0).0 e in rw (e, z) refl)
            (λ e.
              let d : offset - (0 + k * block_size) + k * block_size ≡ offset = omega arith in
              rw e (
                subst
                  (λ (t : List ℕ). copy_loop (drop k s.chunks) offset size ≡ (
                    if available_loop (drop k s.chunks) offset size
                    then some (take size t)
                    else none))
                  (drop-drop (offset - (0 + k * block_size)) (k * block_size) log
                    ∙ ap (λ n. drop n log) d)
                  (copy_loop_lem s.size (0 + k * block_size) (drop k s.chunks)
                    (drop (k * block_size) log) offset size
                    (Tiled-drop s.size 0 k s.chunks log (omega (arith, v.counts, l)) v.tiled)
                    (omega arith) (omega (arith, ==_ne size 0 e))
                    (omega (arith, rest, l, v.counts)))))))
