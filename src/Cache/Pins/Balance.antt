-- ===== src/Cache/Pins/Balance.antt =====
-- `pinned_regions_` stays the sum of the pin counts, and an unpin undoes a pin.
use Prim.Native.Nat.{ℕ, ◌+◌, ◌-◌, ◌/◌, ◌≤◌, ◌<◌}
use ngs3fs.Prelude.{
  if_elim, false, ◌||◌, ltb, ◌==◌, not, add64, sub64, word, ◌≡◌, refl, arith, Bool-cases, inl, inr,
  ap,
}
use ngs3fs.Prelude.Blocks.{div_mono}
use ngs3fs.Cache.Entry.{Entry, Outcome, after, notify_waiters}
use ngs3fs.Cache.Region.{any_full, pin_loop, Unpinned, unpin_loop, sum_pins, Counted}
use ngs3fs.Cache.Region.Sum.{pin_loop_bounded, sum_pins-pin_loop, unpin_loop-Counted, Counted-lt}
use ngs3fs.Cache.Pins.{
  first_region, last_region, add_pins, drop_pins, store_pins, refused, pin_clean, pin, unpin,
}

abbrev pub IsBalanced : Entry → Type 0
IsBalanced e = Counted e.pins e.regions e.pinned_regions

-- The range begins in a region of the entry, and ends below 2 ^ 64.
pub record InEntry (e : Entry) (offset length : ℕ) : Type 0 where
  pub block_pos : 0 < e.block_size
  pub starts : offset / e.block_size ≤ e.regions
  pub ends : offset + length < word

pub region_order :
    {e : Entry} {offset length : ℕ}
    → InEntry e offset length
    → 0 < length
    → first_region e offset ≤ last_region e offset length
region_order {e} {offset} {length} v h =
    let mono : offset / e.block_size ≤ (offset + length - 1) / e.block_size =
      div_mono offset (offset + length - 1) e.block_size v.block_pos (omega arith) in
    omega (arith, ap (λ (t : ℕ). t / e.block_size) end, mono, v.starts)
  where
    end : sub64 (add64 offset length) 1 ≡ offset + length - 1
    end = omega (arith, v.ends)

pub add_pins-IsBalanced :
    (e : Entry) (first last : ℕ)
    → first ≤ last
    → last ≤ e.regions
    → any_full e.pins first (last - first) ≡ false
    → IsBalanced e
    → IsBalanced (add_pins e first last)
unfolding add_pins
add_pins-IsBalanced e first last h k full b = record {
  counted = omega (arith, b.counted, sum, Counted-lt after_pins, b.few);
  few = b.few;
  bounded = after_pins.bounded;
}
  where
    sum :
        sum_pins (pin_loop e.pins first (last - first)) e.regions
        ≡ sum_pins e.pins e.regions + (last - first)
    sum = sum_pins-pin_loop e.pins first (last - first) e.regions full b.bounded (omega arith)

    after_pins :
        Counted
          (pin_loop e.pins first (last - first))
          e.regions
          (sum_pins (pin_loop e.pins first (last - first)) e.regions)
    after_pins = record {
      counted = refl;
      few = b.few;
      bounded = pin_loop_bounded e.pins first (last - first) full b.bounded;
    }

drop_pins-Counted :
    (e : Entry) (first last : ℕ)
    → last ≤ e.regions
    → IsBalanced e
    → Counted (drop_pins e first last).pins e.regions (drop_pins e first last).pinned
unfolding drop_pins unpin_loop
drop_pins-Counted e first last h b = elim (Bool-cases (ltb first last)) [
  | inl lt ↦ unpin_loop-Counted _ e.regions first (last - first) (ground (arith, lt)) b
  | inr ge ↦ let none_left : last - first ≡ 0 = ground (arith, ge) in rw none_left b
]

notify-IsBalanced : (e : Entry) → IsBalanced e → IsBalanced (notify_waiters e)
unfolding notify_waiters
notify-IsBalanced e b = elim (Bool-cases (not e.wait_fd || e.waiters == 0)) [
  | inl t ↦ rw t b
  | inr f ↦ rw f b
]

module _ {e : Entry} (offset length : ℕ) (v : InEntry e offset length) (b : IsBalanced e) where
  abbrev lo : ℕ
  lo = first_region e offset

  abbrev hi : ℕ
  hi = last_region e offset length

  pub added :
      (length == 0) ≡ false → any_full e.pins lo (hi - lo) ≡ false → IsBalanced (add_pins e lo hi)
  added l f = add_pins-IsBalanced e lo hi (region_order v (ground (arith, l))) (omega arith) f b

  abbrev Keeps : {A : Type 0} → Outcome A → Type 0
  Keeps o = IsBalanced (after o)

  pin_keeps : IsBalanced (after (pin e offset length))
  unfolding pin
  pin_keeps =
      if_elim Keeps e.stale (λ _. b)
        λ _.
          if_elim Keeps (length == 0) (λ _. b)
            λ l. if_elim Keeps (any_full e.pins lo (hi - lo)) (λ _. b) (added l)

  pin_clean_keeps : IsBalanced (after (pin_clean e offset length))
  unfolding pin_clean
  pin_clean_keeps =
      if_elim Keeps e.stale (λ _. b)
        λ _.
          if_elim Keeps (length == 0) (λ _. b)
            λ l.
              if_elim Keeps (refused e offset length) (λ _. b)
                λ _. if_elim Keeps (any_full e.pins lo (hi - lo)) (λ _. b) (added l)

pub unpin_keeps :
    (e : Entry) (offset length : ℕ) → IsBalanced e → IsBalanced (unpin e offset length)
unfolding unpin store_pins
unpin_keeps e offset length b =
    if_elim IsBalanced (length == 0) (λ _. b)
      λ _.
        if_elim IsBalanced u.released (λ _. notify-IsBalanced (store_pins e u) dropped)
          (λ _. dropped)
  where
    u : Unpinned
    u = drop_pins e (first_region e offset) (last_region e offset length)

    dropped : IsBalanced (store_pins e u)
    dropped =
        drop_pins-Counted e (first_region e offset) (last_region e offset length) (omega arith) b

-- `pin` and `pin_clean` keep the sum of the pins, on every branch, where the range begins within
-- the entry's regions and ends below 2 ^ 64; `unpin` keeps it of any range.
pub pin-IsBalanced :
    {e : Entry} (offset length : ℕ)
    → InEntry e offset length
    → IsBalanced e
    → IsBalanced (after (pin e offset length))
      × IsBalanced (after (pin_clean e offset length))
      × IsBalanced (unpin e offset length)
pin-IsBalanced offset length v b =
    (pin_keeps offset length v b, pin_clean_keeps offset length v b, unpin_keeps _ offset length b)
