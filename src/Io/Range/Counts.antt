-- ===== src/Io/Range/Counts.antt =====
-- How many chunks of a storage are recycled, and what a discard gives back for them.
use ngs3fs.Prelude.{
  ℕ, zero, suc, ◌+◌, ◌-◌, ◌*◌, ◌≤◌, Bool, true, false, ◌||◌, ltb, leb, ◌==◌, not, if◌then◌else◌,
  if_elim, List, [], ◌∷◌, ◌++◌, Option, none, some, length, drop, ◌≡◌, refl, arith, ap, sym, ◌∙◌,
}
use mathlib.Core.Option
use ngs3fs.Io.Range.{
  block_size, Chunk, block_count, back, put_back, is_null, filled, Discarded, is_kept, discard_loop,
  discard_from,
}
use ngs3fs.Io.Range.Tiled.{Tiled}
use ngs3fs.Io.Range.Kept.{new_chunk}

-- How many chunks were recycled.
unfoldable pub recycled : List Chunk → ℕ
recycled [] = 0
recycled (c ∷ cs) = (if is_null c.mapping then 1 else 0) + recycled cs

recycled-le : (cs : List Chunk) → recycled cs ≤ length cs
unfolding recycled
recycled-le [] = omega arith
recycled-le (c ∷ cs) =
    if_elim (λ n. n + recycled cs ≤ suc (length cs)) (is_null c.mapping)
      (λ _. omega (arith, recycled-le cs)) (λ _. omega (arith, recycled-le cs))

length-chunks :
    (size start : ℕ) (cs : List Chunk) (rest : List ℕ)
    → Tiled size start cs rest
    → length cs * block_size ≤ size - start + block_size - 1
unfolding Tiled
length-chunks size start [] rest t = omega arith
length-chunks size start (c ∷ cs) rest (v, last, t) =
    omega (arith, v.inside, length-chunks size (start + block_size) cs (drop block_size rest) t)

pub recycled-fit :
    (size : ℕ) (cs : List Chunk) (log : List ℕ)
    → Tiled size 0 cs log
    → recycled cs ≤ block_count size
unfolding block_count
recycled-fit size cs log t = omega (arith, recycled-le cs, length-chunks size 0 cs log t)

pub recycled-new :
    (cs : List Chunk) (size produced : ℕ)
    → recycled (cs ++ new_chunk size produced ∷ []) ≡ recycled cs
unfolding recycled is_null
recycled-new [] size produced = refl
recycled-new (c ∷ cs) size produced =
    ap (λ n. (if is_null c.mapping then 1 else 0) + n) (recycled-new cs size produced)

is_null-filled :
    (m : Option (List ℕ)) (bytes : List ℕ)
    → is_null (Option.map (λ (t : List ℕ). t ++ bytes) m) ≡ is_null m
unfolding is_null
is_null-filled none bytes = refl
is_null-filled (some held) bytes = refl

pub recycled-filled :
    (cs : List Chunk) (b : Chunk) (bytes : List ℕ)
    → back cs ≡ some b
    → recycled (put_back (filled bytes b) cs) ≡ recycled cs
unfolding recycled back put_back filled
recycled-filled [] b bytes q = absurd (cc)
recycled-filled (c ∷ []) b bytes q =
    let same : c ≡ b = cc in
    ap (λ n. (if n then 1 else 0) + 0)
      (is_null-filled b.mapping bytes ∙ ap (λ (x : Chunk). is_null x.mapping) (sym same))
recycled-filled (c ∷ d ∷ ds) b bytes q =
    ap (λ n. (if is_null c.mapping then 1 else 0) + n) (recycled-filled (d ∷ ds) b bytes q)

-- What a discard gives back is a block for each chunk that it recycles.
abbrev pub Counts : List Chunk → Discarded → Type 0
Counts cs d = d.released + recycled cs * block_size ≡ recycled d.chunks * block_size

null_none : is_null none ≡ true
unfolding is_null
null_none = refl

not_null : (null kept : Bool) → (null || kept) ≡ false → null ≡ false
not_null true kept h = absurd (cc)
not_null false kept h = refl

discard_loop-Counts : (first end : ℕ) (cs : List Chunk) → Counts cs (discard_loop first end cs)
unfolding discard_loop recycled is_kept
discard_loop-Counts first end [] = refl
discard_loop-Counts first end (c ∷ cs) =
    let rest = discard_loop-Counts first end cs in
    if_elim (Counts (c ∷ cs)) (leb end c.offset) (λ _. omega arith)
      (λ _.
        if_elim (Counts (c ∷ cs))
          (is_null c.mapping
            || (not (c.used == c.length) || (ltb c.offset first || ltb end (c.offset + c.length))))
          (λ _. omega (arith, rest))
          (λ k.
            let live = not_null (is_null c.mapping) _ k in
            rw (live, null_none) (omega (arith, rest))))

pub discard_from-Counts :
    (n first end : ℕ) (cs : List Chunk) → Counts cs (discard_from n first end cs)
unfolding discard_from recycled
discard_from-Counts zero first end cs = discard_loop-Counts first end cs
discard_from-Counts (suc n) first end [] = refl
discard_from-Counts (suc n) first end (c ∷ cs) = omega (arith, discard_from-Counts n first end cs)
