-- ===== src/Io/Pool/Sound.antt =====
-- No block is handed out twice, and no more is mapped than the capacity.
use ngs3fs.Prelude.{
  ℕ, suc, ◌+◌, ◌*◌, ◌/◌, ◌≤◌, ◌<◌, min, false, leb, ◌==◌, if◌then◌else◌, if_elim, List, [], ◌∷◌,
  ◌++◌, Option, none, some, length, ◌≡◌, refl, arith, subst, sym, ap, word, sub64, ==_iff,
}
use ngs3fs.Io.Range.{block_size}
use ngs3fs.Io.Pool.{
  Pool, new_pool, Acquired, reused, exhausted, mapping, map_more, acquire_from, acquire, map_failed,
  release, preallocate,
}

-- The pool, the blocks that callers have, and the number of those that are being mapped.
pub record System : Type 0 where
  pub pool : Pool
  pub live : List ℕ
  pub pending : ℕ

abbrev pub system : Pool → List ℕ → ℕ → System
system pool live pending = record { pool = pool; live = live; pending = pending }

unfoldable pub times : ℕ → List ℕ → ℕ
times b [] = 0
times b (x ∷ xs) = (if x == b then 1 else 0) + times b xs

-- The calls in any order. A block that the kernel maps is none of those that are mapped.
pub data Step : System → System → Type 0 where
  reuse :
      {p q : Pool} {live : List ℕ} {pending : ℕ} (b : ℕ)
      → acquire p ≡ reused b q
      → Step (system p live pending) (system q (b ∷ live) pending)
  begin_map :
      {p q : Pool} {live : List ℕ} {pending : ℕ}
      → acquire p ≡ mapping q
      → Step (system p live pending) (system q live (suc pending))
  begin_preallocate :
      {p q : Pool} {live : List ℕ} {pending : ℕ} (count : ℕ)
      → preallocate p count ≡ some q
      → Step (system p live pending) (system q live (suc pending))
  end_map :
      {p : Pool} {live : List ℕ} {pending : ℕ} (b : ℕ)
      → times b p.free + times b live ≡ 0
      → Step (system p live (suc pending)) (system p (b ∷ live) pending)
  fail_map :
      {p : Pool} {live : List ℕ} {pending : ℕ}
      → Step (system p live (suc pending)) (system (map_failed p) live pending)
  give_back :
      {p : Pool} {pending : ℕ} (xs ys : List ℕ) (b : ℕ)
      → Step (system p (xs ++ b ∷ ys) pending) (system (release p b) (xs ++ ys) pending)

pub data Reach : System → Type 0 where
  start :
      {p : Pool} (capacity : ℕ)
      → capacity < word
      → new_pool capacity ≡ some p
      → Reach (system p [] 0)
  next : {s t : System} → Reach s → Step s t → Reach t

pub record IsPooled (p : Pool) (live : List ℕ) (pending : ℕ) : Type 0 where
  pub mapped : p.mapped ≡ (length p.free + length live + pending) * block_size
  pub idle : p.idle ≡ length p.free * block_size
  pub within : p.mapped ≤ p.capacity
  pub whole : p.capacity ≡ p.capacity / block_size * block_size
  pub fits : p.capacity < word
  pub once : (b : ℕ) → times b p.free + times b live ≤ 1

lt_of_leb : (m n : ℕ) → leb m n ≡ false → n < m
lt_of_leb m n h = ground arith

times-middle : (b c : ℕ) (xs ys : List ℕ) → times b (xs ++ c ∷ ys) ≡ times b (c ∷ (xs ++ ys))
unfolding times
times-middle b c [] ys = refl
times-middle b c (x ∷ xs) ys = omega (arith, times-middle b c xs ys)

length-middle : (c : ℕ) (xs ys : List ℕ) → length (xs ++ c ∷ ys) ≡ suc (length (xs ++ ys))
length-middle c [] ys = refl
length-middle c (x ∷ xs) ys = ap suc (length-middle c xs ys)

Starts : Option Pool → Type 0
Starts none = Unit
Starts (some p) = IsPooled p [] 0

start-IsPooled : (capacity : ℕ) → capacity < word → Starts (new_pool capacity)
unfolding Starts new_pool times
start-IsPooled capacity h =
    if_elim Starts (capacity / block_size * block_size == 0) (λ _. tt)
      (λ _. record {
        mapped = omega arith;
        idle = omega arith;
        within = omega arith;
        whole = omega arith;
        fits = omega (arith, h);
        once = λ b. omega arith;
      })

map_more-IsPooled :
    (p : Pool) (live : List ℕ) (pending : ℕ)
    → p.mapped < p.capacity
    → IsPooled p live pending
    → IsPooled (map_more p) live (suc pending)
unfolding map_more
map_more-IsPooled p live pending h v = record {
  mapped = omega (arith, v.mapped, v.whole, v.fits, h);
  idle = v.idle;
  within = omega (arith, v.mapped, v.whole, v.fits, h);
  whole = v.whole;
  fits = v.fits;
  once = v.once;
}

Acquires : List ℕ → ℕ → Acquired → Type 0
Acquires live pending (reused b q) = IsPooled q (b ∷ live) pending
Acquires live pending exhausted = Unit
Acquires live pending (mapping q) = IsPooled q live (suc pending)

reuse-IsPooled :
    (p : Pool) (live rest : List ℕ) (pending b : ℕ)
    → p.free ≡ b ∷ rest
    → IsPooled p live pending
    → IsPooled (record p { free = rest; idle = sub64 p.idle block_size }) (b ∷ live) pending
unfolding times
reuse-IsPooled p live rest pending b e v =
    let long : length p.free ≡ suc (length rest) = ap length e in
    record {
      mapped = omega (arith, v.mapped, long);
      idle = omega (arith, v.idle, v.mapped, v.within, v.fits, long);
      within = v.within;
      whole = v.whole;
      fits = v.fits;
      once = λ c.
          let same : times c p.free ≡ times c (b ∷ rest) = ap (times c) e in
          omega (arith, v.once c, same);
    }

acquire-IsPooled :
    (p : Pool) (live free : List ℕ) (pending : ℕ)
    → p.free ≡ free
    → IsPooled p live pending
    → Acquires live pending (acquire_from p free)
unfolding Acquires acquire_from
acquire-IsPooled p live [] pending e v =
    if_elim (Acquires live pending) (p.mapped == p.capacity) (λ _. tt)
      (λ n. map_more-IsPooled p live pending (ground (arith, n, v.within)) v)
acquire-IsPooled p live (b ∷ rest) pending e v = reuse-IsPooled p live rest pending b e v

Preallocates : List ℕ → ℕ → Option Pool → Type 0
Preallocates live pending none = Unit
Preallocates live pending (some q) = IsPooled q live (suc pending)

preallocate-IsPooled :
    (p : Pool) (live : List ℕ) (pending count : ℕ)
    → IsPooled p live pending
    → Preallocates live pending (preallocate p count)
unfolding Preallocates preallocate
preallocate-IsPooled p live pending count v =
    if_elim (Preallocates live pending)
      (leb (min count (p.capacity / block_size) * block_size) p.mapped) (λ _. tt)
      (λ n. map_more-IsPooled p live pending (omega (arith, v.whole, lt_of_leb _ _ n)) v)

fresh_once : (b c : ℕ) (P : ℕ → ℕ) → (P b ≡ 0) → P c ≤ 1 → (if b == c then 1 else 0) + P c ≤ 1
fresh_once b c P fresh one =
    if_elim (λ n. n + P c ≤ 1) (b == c)
      (λ e. let same : P c ≡ P b = ap P (sym ((==_iff b c).0 e)) in omega (arith, same, fresh))
      (λ _. omega (arith, one))

end_map-IsPooled :
    (p : Pool) (live : List ℕ) (pending b : ℕ)
    → times b p.free + times b live ≡ 0
    → IsPooled p live (suc pending)
    → IsPooled p (b ∷ live) pending
unfolding times
end_map-IsPooled p live pending b fresh v = record {
  mapped = omega (arith, v.mapped);
  idle = v.idle;
  within = v.within;
  whole = v.whole;
  fits = v.fits;
  once = λ c. omega (arith, fresh_once b c (λ x. times x p.free + times x live) fresh (v.once c));
}

fail_map-IsPooled :
    (p : Pool) (live : List ℕ) (pending : ℕ)
    → IsPooled p live (suc pending)
    → IsPooled (map_failed p) live pending
unfolding map_failed
fail_map-IsPooled p live pending v = record {
  mapped = omega (arith, v.mapped, v.within, v.fits);
  idle = v.idle;
  within = omega (arith, v.mapped, v.within, v.fits);
  whole = v.whole;
  fits = v.fits;
  once = v.once;
}

release-IsPooled :
    (p : Pool) (xs ys : List ℕ) (pending b : ℕ)
    → IsPooled p (xs ++ b ∷ ys) pending
    → IsPooled (release p b) (xs ++ ys) pending
unfolding release times
release-IsPooled p xs ys pending b v =
    let long = length-middle b xs ys in
    record {
      mapped = omega (arith, v.mapped, long);
      idle = omega (arith, v.idle, v.mapped, v.within, v.fits, long);
      within = v.within;
      whole = v.whole;
      fits = v.fits;
      once = λ c. omega (arith, v.once c, times-middle c b xs ys);
    }

Step-IsPooled :
    {s t : System} → Step s t → IsPooled s.pool s.live s.pending → IsPooled t.pool t.live t.pending
unfolding Acquires acquire Preallocates
Step-IsPooled {s} {t} (reuse b h) v =
    subst (Acquires s.live s.pending) h
      (acquire-IsPooled s.pool s.live s.pool.free s.pending refl v)
Step-IsPooled {s} {t} (begin_map h) v =
    subst (Acquires s.live s.pending) h
      (acquire-IsPooled s.pool s.live s.pool.free s.pending refl v)
Step-IsPooled {s} {t} (begin_preallocate count h) v =
    subst (Preallocates s.live s.pending) h (preallocate-IsPooled s.pool s.live s.pending count v)
Step-IsPooled (end_map b fresh) v = end_map-IsPooled _ _ _ b fresh v
Step-IsPooled fail_map v = fail_map-IsPooled _ _ _ v
Step-IsPooled (give_back xs ys b) v = release-IsPooled _ xs ys _ b v

-- However blocks are acquired, preallocated and released: the mapped bytes are those of the blocks
-- that are free, handed out or being mapped, and within the capacity, and no block is handed out
-- twice, or free while it is handed out.
pub Reach-IsPooled : {s : System} → Reach s → IsPooled s.pool s.live s.pending
Reach-IsPooled (start capacity small h) =
    unfold Starts in subst Starts h (start-IsPooled capacity small)
Reach-IsPooled (next r step) = Step-IsPooled step (Reach-IsPooled r)
