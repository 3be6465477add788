-- ===== src/Cache/Region/Sum.antt =====
-- The sum of the pin counts under the loops that pin and unpin.
use ngs3fs.Prelude.{
  inside, ℕ, zero, suc, ◌+◌, ◌-◌, ◌*◌, ◌%◌, ◌^◌, ◌≤◌, ◌<◌, false, ◌≡◌, refl, ◌==◌, if◌then◌else◌,
  word, arith, Bool-cases, inl, inr, ap, ◌∙◌,
}
use ngs3fs.Cache.Entry.{update}
use ngs3fs.Cache.Region.{
  max_pins, any_full, pin_loop, Unpinned, unpin_one, unpin_loop, sum_pins, Counted,
}

pub update-eq {ℓ} :
    {A : Type ℓ} (f : ℕ → A) (i j : ℕ) (v : A) → update f i v j ≡ (if i == j then v else f j)
unfolding update
update-eq f i j v = refl

sum_pins-update_above : (f : ℕ → ℕ) (n i v : ℕ) → n ≤ i → sum_pins (update f i v) n ≡ sum_pins f n
unfolding sum_pins
sum_pins-update_above f zero i v h = refl
sum_pins-update_above f (suc n) i v h =
    ground (arith, sum_pins-update_above f n i v, update-eq f i n v)

pub sum_pins-update :
    (f : ℕ → ℕ) (n i v : ℕ) → i < n → sum_pins (update f i v) n + f i ≡ sum_pins f n + v
unfolding sum_pins
sum_pins-update f zero i v h = absurd (omega arith)
sum_pins-update f (suc n) i v h = elim (Bool-cases (i == n)) [
  | inl e ↦
      let q : i ≡ n = ground (arith, e) in
      ground (arith, ap f q, sum_pins-update_above f n i v, update-eq f i n v)
  | inr ne ↦ ground (arith, ne, sum_pins-update f n i v, update-eq f i n v)
]

pub term-le-sum : (f : ℕ → ℕ) (n i : ℕ) → i < n → f i ≤ sum_pins f n
unfolding sum_pins
term-le-sum f zero i h = absurd (omega arith)
term-le-sum f (suc n) i h = elim (Bool-cases (i == n)) [
  | inl e ↦ let q : i ≡ n = ground (arith, e) in omega (arith, ap f q)
  | inr ne ↦ ground (arith, ne, term-le-sum f n i)
]

pub sum_pins_bound : (f : ℕ → ℕ) (n k : ℕ) → ((r : ℕ) → f r ≤ k) → sum_pins f n ≤ n * k
unfolding sum_pins
sum_pins_bound f zero k h = omega arith
sum_pins_bound f (suc n) k h = omega (arith, h n, sum_pins_bound f n k h)

-- A sum of counts stays below 2 ^ 64.
pub Counted-lt : {f : ℕ → ℕ} {n p : ℕ} → Counted f n p → p < word
Counted-lt {f} {n} {p} c = omega (arith, c.counted, c.few, sum_pins_bound f n max_pins c.bounded)

any_full-update_below :
    (f : ℕ → ℕ) (i v a n : ℕ) → i < a → any_full (update f i v) a n ≡ any_full f a n
unfolding any_full
any_full-update_below f i v a zero h = refl
any_full-update_below f i v a (suc n) h =
    ground (arith, update-eq f i a v, any_full-update_below f i v (a + 1) n)

-- One round of the pinning loop: the count does not wrap, and stays a 32-bit number.
pinned_once : (ℕ → ℕ) → ℕ → ℕ → ℕ
pinned_once f a = update f a ((f a + 1) % 2 ^ 32)

pinned_once_value :
    (f : ℕ → ℕ) (a r : ℕ)
    → (f a == max_pins) ≡ false
    → f a ≤ max_pins
    → pinned_once f a r ≡ (if a == r then f a + 1 else f r)
unfolding pinned_once
pinned_once_value f a r h b = ground (arith, update-eq f a r ((f a + 1) % 2 ^ 32))

pinned_once_bounded :
    (f : ℕ → ℕ) (a : ℕ)
    → (f a == max_pins) ≡ false
    → ((i : ℕ) → f i ≤ max_pins)
    → (i : ℕ) → pinned_once f a i ≤ max_pins
pinned_once_bounded f a h b i = ground (arith, pinned_once_value f a i h (b a), b i, b a)

module _ (f : ℕ → ℕ) (a n : ℕ) (h : any_full f a (suc n) ≡ false) where
  not_full : (f a == max_pins) ≡ false
  unfolding any_full
  not_full = ground arith

  not_full_rest : any_full (pinned_once f a) (a + 1) n ≡ false
  unfolding any_full pinned_once
  not_full_rest = ground (arith, any_full-update_below f a ((f a + 1) % 2 ^ 32) (a + 1) n)

-- A pin count after the loop: one more in the pinned regions.
pub pin_loop_lem :
    (f : ℕ → ℕ) (a n r : ℕ)
    → any_full f a n ≡ false
    → ((i : ℕ) → f i ≤ max_pins)
    → pin_loop f a n r ≡ (if inside a n r then f r + 1 else f r)
unfolding pin_loop pinned_once
pin_loop_lem f a zero r h b = ground arith
pin_loop_lem f a (suc n) r h b =
    pin_loop_lem (pinned_once f a) (a + 1) n r (not_full_rest f a n h)
      (pinned_once_bounded f a (not_full f a n h) b)
    ∙ counts
  where
    g : ℕ → ℕ
    g = pinned_once f a

    value : g r ≡ (if a == r then f a + 1 else f r)
    value = pinned_once_value f a r (not_full f a n h) (b a)

    at_start : a ≡ r → f a ≡ f r
    at_start e = ap f e

    counts :
        (if inside (a + 1) n r then g r + 1 else g r)
        ≡ (if inside a (suc n) r then f r + 1 else f r)
    counts = ground (arith, value, at_start)

pub pin_loop_bounded :
    (f : ℕ → ℕ) (a n : ℕ)
    → any_full f a n ≡ false
    → ((i : ℕ) → f i ≤ max_pins)
    → (r : ℕ) → pin_loop f a n r ≤ max_pins
unfolding pin_loop pinned_once
pin_loop_bounded f a zero h b r = b r
pin_loop_bounded f a (suc n) h b r =
    pin_loop_bounded (pinned_once f a) (a + 1) n (not_full_rest f a n h)
      (pinned_once_bounded f a (not_full f a n h) b) r

pub sum_pins-pin_loop :
    (f : ℕ → ℕ) (a n m : ℕ)
    → any_full f a n ≡ false
    → ((i : ℕ) → f i ≤ max_pins)
    → a + n ≤ m
    → sum_pins (pin_loop f a n) m ≡ sum_pins f m + n
unfolding pin_loop pinned_once
sum_pins-pin_loop f a zero m h b k = omega arith
sum_pins-pin_loop f a (suc n) m h b k = omega (
  arith,
  sum_pins-pin_loop (pinned_once f a) (a + 1) n m (not_full_rest f a n h)
      (pinned_once_bounded f a (not_full f a n h) b) (omega arith),
  sum_pins-update f m a ((f a + 1) % 2 ^ 32) (omega arith),
  wraps,
)
  where
    wraps : (f a + 1) % 2 ^ 32 ≡ f a + 1
    wraps = ground (arith, not_full f a n h, b a)

-- Unpinning keeps `pinned` the sum of the counts.
pub unpin_one-Counted :
    (u : Unpinned) (regions r : ℕ)
    → r < regions
    → Counted u.pins regions u.pinned
    → Counted (unpin_one u r).pins regions (unpin_one u r).pinned
unfolding unpin_one
unpin_one-Counted u regions r h c = elim (Bool-cases (u.pins r == 0)) [
  | inl e ↦ rw e c
  | inr ne ↦ rw ne (
      let small : u.pinned < word = Counted-lt c in
      let change = sum_pins-update u.pins regions r (u.pins r - 1) h in
      let term = term-le-sum u.pins regions r h in
      record {
        counted = ground (arith, ne, small, change, term, c.counted);
        few = c.few;
        bounded =
            λ i. ground (arith, update-eq u.pins r i (u.pins r - 1), c.bounded i, c.bounded r);
      })
]

pub unpin_loop-Counted :
    (u : Unpinned) (regions a n : ℕ)
    → a + n ≤ regions
    → Counted u.pins regions u.pinned
    → Counted (unpin_loop u a n).pins regions (unpin_loop u a n).pinned
unfolding unpin_loop
unpin_loop-Counted u regions a zero h c = c
unpin_loop-Counted u regions a (suc n) h c =
    unpin_loop-Counted (unpin_one u a) regions (a + 1) n (omega arith)
      (unpin_one-Counted u regions a (omega arith) c)

unpin_one_value :
    (u : Unpinned) (a r : ℕ) → (unpin_one u a).pins r ≡ (if a == r then u.pins a - 1 else u.pins r)
unfolding unpin_one
unpin_one_value u a r = elim (Bool-cases (u.pins a == 0)) [
  | inl z ↦ rw z (elim (Bool-cases (a == r)) [
    | inl e ↦ rw e (let q : a ≡ r = ground (arith, e) in ground (arith, z, ap u.pins q))
    | inr ne ↦ rw ne
  ])
  | inr nz ↦ rw nz (update-eq u.pins a r (u.pins a - 1))
]

-- A pin count after the loop: one less in the regions that it passes, if there was a pin.
pub unpin_loop_lem :
    (u : Unpinned) (a n r : ℕ)
    → (unpin_loop u a n).pins r ≡ (if inside a n r then u.pins r - 1 else u.pins r)
unfolding unpin_loop
unpin_loop_lem u a zero r = ground arith
unpin_loop_lem u a (suc n) r = unpin_loop_lem (unpin_one u a) (a + 1) n r ∙ counts
  where
    g : ℕ
    g = (unpin_one u a).pins r

    value : g ≡ (if a == r then u.pins a - 1 else u.pins r)
    value = unpin_one_value u a r

    at_start : a ≡ r → u.pins a ≡ u.pins r
    at_start e = ap u.pins e

    counts :
        (if inside (a + 1) n r then g - 1 else g)
        ≡ (if inside a (suc n) r then u.pins r - 1 else u.pins r)
    counts = ground (arith, value, at_start)
