-- ===== src/Io/Range/Kept.antt =====
-- The calls of a storage keep its chunks tiled, and what they hold the bytes that were committed.
use ngs3fs.Prelude.{
  ℕ, zero, suc, ◌+◌, ◌-◌, ◌≤◌, ◌<◌, min, true, leb, if_elim, List, [], ◌∷◌, ◌++◌, Option, none,
  some, length, drop, ◌≡◌, refl, arith, ap, sym, ◌∙◌, subst, inl, inr,
}
use mathlib.Core.Option
use ngs3fs.Prelude.Slices.{
  take, length-drop, length-append, take-nil, drop-nil, take-all, drop-all, take-append,
  drop-append,
}
use ngs3fs.Io.Range.{
  block_size, Chunk, back, put_back, needs_block, filled, Discarded, is_kept, discard_loop,
  discard_from,
}
use ngs3fs.Io.Range.Tiled.{Holds, IsChunk, is_last, Tiled}

abbrev pub new_chunk : ℕ → ℕ → Chunk
new_chunk size produced = record {
  mapping = some [];
  offset = produced;
  length = min block_size (size - produced);
  used = 0;
}

nil_length : (xs : List ℕ) → xs ≡ [] → length xs ≡ 0
nil_length xs h = ap length h

new_chunk-IsChunk :
    (size start produced : ℕ) (rest : List ℕ)
    → rest ≡ []
    → produced ≡ start
    → start < size
    → IsChunk size start rest (new_chunk size produced)
new_chunk-IsChunk size start produced rest none_left e h = record {
  starts = e;
  inside = h;
  spans = ap (λ n. min block_size (size - n)) e;
  counts = omega (arith, nil_length rest none_left);
  holds = sym (ap (take block_size) none_left ∙ take-nil block_size);
}

-- A block that is wanted is the next one.
pub Tiled-new :
    (size start produced : ℕ) (cs : List Chunk) (rest : List ℕ)
    → Tiled size start cs rest
    → produced ≡ start + length rest
    → produced < size
    → needs_block produced (back cs) ≡ true
    → Tiled size start (cs ++ new_chunk size produced ∷ []) rest
unfolding Tiled needs_block back
Tiled-new size start produced [] rest t e h n = (
  new_chunk-IsChunk size start produced rest t (omega (arith, e, nil_length rest t))
      (omega (arith, e, h)),
  inl refl,
  rw t (drop-nil block_size),
)
Tiled-new size start produced (c ∷ []) rest t e h n =
    let v = t.0 in
    let long = length-drop block_size rest in
    let full : c.offset + c.length ≤ produced = ground (arith, n) in
    let whole : block_size ≤ length rest = omega (arith, v.starts, v.spans, e, h, full) in
    (
      v,
      inr whole,
      Tiled-new size (start + block_size) produced [] (drop block_size rest) t.2
          (omega (arith, e, long, whole)) h refl,
    )
Tiled-new size start produced (c ∷ d ∷ ds) rest (v, inl last, t) e h n = absurd (cc)
Tiled-new size start produced (c ∷ d ∷ ds) rest (v, inr whole, t) e h n =
    let long = length-drop block_size rest in
    (
      v,
      inr whole,
      Tiled-new size (start + block_size) produced (d ∷ ds) (drop block_size rest) t
          (omega (arith, e, long, whole)) h n,
    )

filled-Holds :
    (m : Option (List ℕ)) (rest bytes : List ℕ)
    → Holds m (take block_size rest)
    → length rest ≤ block_size
    → length (rest ++ bytes) ≤ block_size
    → Holds (Option.map (λ (t : List ℕ). t ++ bytes) m) (take block_size (rest ++ bytes))
filled-Holds none rest bytes h k l = tt
filled-Holds (some held) rest bytes h k l =
    ap (λ (t : List ℕ). t ++ bytes) (h ∙ take-all block_size rest k)
    ∙ sym (take-all block_size (rest ++ bytes) l)

Tiled-filled_last :
    (size start : ℕ) (rest bytes : List ℕ) (c : Chunk)
    → Tiled size start (c ∷ []) rest
    → c.offset + c.used ≡ start + length rest
    → length bytes ≤ c.length - c.used
    → Tiled size start (filled bytes c ∷ []) (rest ++ bytes)
unfolding Tiled filled
Tiled-filled_last size start rest bytes c (v, last, t) e h =
    let grown = length-append rest bytes in
    let long = length-drop block_size rest in
    let none_left = nil_length (drop block_size rest) t in
    let fits : length (rest ++ bytes) ≤ block_size =
      omega (arith, grown, long, none_left, e, v.starts, v.spans, v.counts, h) in
    (
      record {
        starts = v.starts;
        inside = v.inside;
        spans = v.spans;
        counts = omega (arith, v.counts, fits, grown, e, v.starts);
        holds = filled-Holds c.mapping rest bytes v.holds (omega (arith, grown, fits)) fits;
      },
      inl refl,
      drop-all block_size (rest ++ bytes) fits,
    )

pub Tiled-filled :
    (size start : ℕ) (cs : List Chunk) (rest bytes : List ℕ) (b : Chunk)
    → Tiled size start cs rest
    → back cs ≡ some b
    → b.offset + b.used ≡ start + length rest
    → length bytes ≤ b.length - b.used
    → Tiled size start (put_back (filled bytes b) cs) (rest ++ bytes)
unfolding Tiled back put_back
Tiled-filled size start [] rest bytes b t q e h = absurd (cc)
Tiled-filled size start (c ∷ []) rest bytes b t q e h =
    let same : c ≡ b = cc in
    subst (λ (x : Chunk). Tiled size start (filled bytes x ∷ []) (rest ++ bytes)) same
      (Tiled-filled_last size start rest bytes c t
        (subst (λ (x : Chunk). x.offset + x.used ≡ start + length rest) (sym same) e)
        (subst (λ (x : Chunk). length bytes ≤ x.length - x.used) (sym same) h))
Tiled-filled size start (c ∷ d ∷ ds) rest bytes b (v, inl last, t) q e h = absurd (cc)
Tiled-filled size start (c ∷ d ∷ ds) rest bytes b (v, inr whole, t) q e h =
    let long = length-drop block_size rest in
    let grown = length-append rest bytes in
    (
      record {
        starts = v.starts;
        inside = v.inside;
        spans = v.spans;
        counts = omega (arith, v.counts, whole, grown);
        holds = subst (Holds c.mapping) (sym (take-append block_size rest bytes whole)) v.holds;
      },
      inr (omega (arith, grown, whole)),
      subst (Tiled size (start + block_size) (put_back (filled bytes b) (d ∷ ds)))
          (sym (drop-append block_size rest bytes whole))
          (Tiled-filled size (start + block_size) (d ∷ ds) (drop block_size rest) bytes b t q
            (omega (arith, e, long, whole)) h),
    )

-- The last chunk ends within the storage.
pub back_inside :
    (size start : ℕ) (cs : List Chunk) (rest : List ℕ) (b : Chunk)
    → Tiled size start cs rest
    → back cs ≡ some b
    → b.offset + b.length ≤ size
unfolding Tiled back
back_inside size start [] rest b t q = absurd (cc)
back_inside size start (c ∷ []) rest b (v, last, t) q =
    let same : c ≡ b = cc in
    subst (λ (x : Chunk). x.offset + x.length ≤ size) same
      (omega (arith, v.starts, v.spans, v.inside))
back_inside size start (c ∷ d ∷ ds) rest b (v, last, t) q =
    back_inside size (start + block_size) (d ∷ ds) (drop block_size rest) b t q

-- A recycled chunk stays in its place.
abbrev pub KeepsTiles : ℕ → ℕ → List Chunk → List ℕ → Discarded → Type 0
KeepsTiles size start cs rest d = Tiled size start d.chunks rest × (is_last d.chunks ≡ is_last cs)

kept_behind :
    (size start : ℕ) (c e : Chunk) (cs : List Chunk) (rest : List ℕ) (d : Discarded)
    → Tiled size start (c ∷ cs) rest
    → IsChunk size start rest e
    → KeepsTiles size (start + block_size) cs (drop block_size rest) d
    → Tiled size start (e ∷ d.chunks) rest
unfolding Tiled
kept_behind size start c e cs rest d (v, inl last, t) w k = (w, inl (k.1 ∙ last), k.0)
kept_behind size start c e cs rest d (v, inr whole, t) w k = (w, inr whole, k.0)

chunk_of :
    (size start : ℕ) (c : Chunk) (cs : List Chunk) (rest : List ℕ)
    → Tiled size start (c ∷ cs) rest
    → IsChunk size start rest c
unfolding Tiled
chunk_of size start c cs rest t = t.0

tiles_behind :
    (size start : ℕ) (c : Chunk) (cs : List Chunk) (rest : List ℕ)
    → Tiled size start (c ∷ cs) rest
    → Tiled size (start + block_size) cs (drop block_size rest)
unfolding Tiled
tiles_behind size start c cs rest t = t.2

recycled-IsChunk :
    (size start : ℕ) (rest : List ℕ) (c : Chunk)
    → IsChunk size start rest c
    → IsChunk size start rest (record c { mapping = none })
recycled-IsChunk size start rest c v = record {
  starts = v.starts;
  inside = v.inside;
  spans = v.spans;
  counts = v.counts;
  holds = tt;
}

discard_loop-KeepsTiles :
    (offset end size start : ℕ) (cs : List Chunk) (rest : List ℕ)
    → Tiled size start cs rest
    → KeepsTiles size start cs rest (discard_loop offset end cs)
unfolding discard_loop
discard_loop-KeepsTiles offset end size start [] rest t = (t, refl)
discard_loop-KeepsTiles offset end size start (c ∷ cs) rest t =
    let v = chunk_of size start c cs rest t in
    let behind =
      discard_loop-KeepsTiles offset end size (start + block_size) cs (drop block_size rest)
        (tiles_behind size start c cs rest t) in
    if_elim (KeepsTiles size start (c ∷ cs) rest) (leb end c.offset) (λ _. (t, refl))
      (λ _.
        if_elim (KeepsTiles size start (c ∷ cs) rest) (is_kept offset end c)
          (λ _. (kept_behind size start c c cs rest (discard_loop offset end cs) t v behind, refl))
          (λ _. (
            kept_behind size start c (record c { mapping = none }) cs rest
                (discard_loop offset end cs) t (recycled-IsChunk size start rest c v) behind,
            refl,
          )))

pub discard_from-KeepsTiles :
    (n offset end size start : ℕ) (cs : List Chunk) (rest : List ℕ)
    → Tiled size start cs rest
    → KeepsTiles size start cs rest (discard_from n offset end cs)
unfolding discard_from
discard_from-KeepsTiles zero offset end size start cs rest t =
    discard_loop-KeepsTiles offset end size start cs rest t
discard_from-KeepsTiles (suc n) offset end size start [] rest t = (t, refl)
discard_from-KeepsTiles (suc n) offset end size start (c ∷ cs) rest t = (
  kept_behind size start c c cs rest (discard_from n offset end cs) t
      (chunk_of size start c cs rest t)
      (discard_from-KeepsTiles n offset end size (start + block_size) cs (drop block_size rest)
        (tiles_behind size start c cs rest t)),
  refl,
)
