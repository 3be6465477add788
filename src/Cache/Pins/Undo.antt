-- ===== src/Cache/Pins/Undo.antt =====
-- `unpin` undoes `pin`.
use Prim.Native.Nat.{ℕ, ◌-◌}
use ngs3fs.Prelude.{
  inside, if_elim, true, false, ◌||◌, ◌==◌, if◌then◌else◌, not, ◌≡◌, refl, arith, subst, ◌⊎◌, inl,
  inr, ap, fun_ext, sym, ◌∙◌,
}
use ngs3fs.Cache.Entry.{Entry, Outcome, done, notify_waiters}
use ngs3fs.Cache.Region.{any_full, Unpinned, sum_pins, Counted}
use ngs3fs.Cache.Region.Sum.{pin_loop_lem, unpin_loop_lem}
use ngs3fs.Cache.Pins.Balance.{IsBalanced, InEntry, added, unpin_keeps}
use ngs3fs.Cache.Pins.{first_region, last_region, add_pins, drop_pins, store_pins, pin, unpin}

-- What a successful `pin` does.
pin_result :
    (e : Entry) (offset length : ℕ) (e' : Entry)
    → pin e offset length ≡ done tt e'
    → (((length == 0) ≡ true) × (e' ≡ e))
      ⊎ (((length == 0) ≡ false)
          × (any_full e.pins
                (first_region e offset)
                (last_region e offset length - first_region e offset)
              ≡ false)
          × (e' ≡ add_pins e (first_region e offset) (last_region e offset length)))
unfolding pin
pin_result e offset length e' h =
    if_elim Result e.stale (λ _ q. absurd (cc))
      (λ _.
        if_elim Result (length == 0) (λ l q. inl (l, cc))
          (λ l.
            if_elim Result (any_full e.pins lo (hi - lo)) (λ _ q. absurd (cc))
              (λ f q. inr (l, f, cc))))
      h
  where
    lo : ℕ
    lo = first_region e offset

    hi : ℕ
    hi = last_region e offset length

    Result : Outcome (Unit {0}) → Type 0
    Result o =
        o ≡ done tt e'
        → (((length == 0) ≡ true) × (e' ≡ e))
          ⊎ (((length == 0) ≡ false)
              × (any_full e.pins lo (hi - lo) ≡ false)
              × (e' ≡ add_pins e lo hi))

pins-notify : (e : Entry) → (notify_waiters e).pins ≡ e.pins
unfolding notify_waiters
pins-notify e =
    if_elim (λ (t : Entry). t.pins ≡ e.pins) (not e.wait_fd || e.waiters == 0) (λ _. refl)
      (λ _. refl)

regions-notify : (e : Entry) → (notify_waiters e).regions ≡ e.regions
unfolding notify_waiters
regions-notify e =
    if_elim (λ (t : Entry). t.regions ≡ e.regions) (not e.wait_fd || e.waiters == 0) (λ _. refl)
      (λ _. refl)

regions-unpin : (e : Entry) (offset length : ℕ) → (unpin e offset length).regions ≡ e.regions
unfolding unpin store_pins
regions-unpin e offset length =
    if_elim Same (length == 0) (λ _. refl)
      λ _. if_elim Same u.released (λ _. regions-notify (store_pins e u)) (λ _. refl)
  where
    u : Unpinned
    u = drop_pins e (first_region e offset) (last_region e offset length)

    Same : Entry → Type 0
    Same t = t.regions ≡ e.regions

-- The pin counts after `unpin`.
pub pins-unpin :
    (e : Entry) (offset length r : ℕ)
    → (length == 0) ≡ false
    → (unpin e offset length).pins r ≡ (
        if inside (first_region e offset) (last_region e offset length - first_region e offset) r
        then e.pins r - 1
        else e.pins r)
unfolding unpin drop_pins store_pins
pins-unpin e offset length r h = rw h (
    if_elim Value u.released (λ _. ap (λ (f : ℕ → ℕ). f r) (pins-notify (store_pins e u)) ∙ loop)
      (λ _. loop))
  where
    lo : ℕ
    lo = first_region e offset

    hi : ℕ
    hi = last_region e offset length

    u : Unpinned
    u = drop_pins e lo hi

    Value : Entry → Type 0
    Value t = t.pins r ≡ (if inside lo (hi - lo) r then e.pins r - 1 else e.pins r)

    loop : u.pins r ≡ (if inside lo (hi - lo) r then e.pins r - 1 else e.pins r)
    loop = unpin_loop_lem _ lo (hi - lo) r

module _ (e : Entry) (offset length : ℕ) (v : InEntry e offset length) (b : IsBalanced e) where
  abbrev lo : ℕ
  lo = first_region e offset

  abbrev hi : ℕ
  hi = last_region e offset length

  -- A region's count, up by the pin and down again.
  undone_count :
      (r : ℕ)
      → any_full e.pins lo (hi - lo) ≡ false
      → (if inside lo (hi - lo) r then (add_pins e lo hi).pins r - 1 else (add_pins e lo hi).pins r)
        ≡ e.pins r
  unfolding add_pins
  undone_count r f = ground (arith, pin_loop_lem e.pins lo (hi - lo) r f b.bounded)

  undone_pins :
      (length == 0) ≡ false
      → any_full e.pins lo (hi - lo) ≡ false
      → (unpin (add_pins e lo hi) offset length).pins ≡ e.pins
  unfolding add_pins
  undone_pins l f = fun_ext λ r. pins-unpin (add_pins e lo hi) offset length r l ∙ undone_count r f

  abbrev Undone : Entry → Type 0
  Undone e' =
      ((unpin e' offset length).pins ≡ e.pins)
      × ((unpin e' offset length).pinned_regions ≡ e.pinned_regions)

  undone : (length == 0) ≡ false → any_full e.pins lo (hi - lo) ≡ false → Undone (add_pins e lo hi)
  unfolding add_pins
  undone l f = (
    undone_pins l f,
    omega (
      arith,
      kept.counted,
      b.counted,
      ap (λ (g : ℕ → ℕ). sum_pins g e.regions) (undone_pins l f),
    ),
  )
    where
      kept :
          Counted
            (unpin (add_pins e lo hi) offset length).pins
            e.regions
            (unpin (add_pins e lo hi) offset length).pinned_regions
      kept =
          subst
            (λ n.
              Counted (unpin (add_pins e lo hi) offset length).pins n
                (unpin (add_pins e lo hi) offset length).pinned_regions)
            (regions-unpin (add_pins e lo hi) offset length)
            (unpin_keeps (add_pins e lo hi) offset length (added offset length v b l f))

-- In a balanced entry, unpinning a range that `pin` has pinned, which begins within the regions and
-- ends below 2 ^ 64, gives every region its pin count back, and the entry its sum.
pub unpin-pin :
    {e e' : Entry} (offset length : ℕ)
    → InEntry e offset length
    → IsBalanced e
    → pin e offset length ≡ done tt e'
    → ((unpin e' offset length).pins ≡ e.pins)
      × ((unpin e' offset length).pinned_regions ≡ e.pinned_regions)
unfolding unpin
unpin-pin {e} {e'} offset length v b h = elim (pin_result e offset length e' h) [
  | inl (l, same) ↦ rw (same, l) (refl, refl)
  | inr (l, f, same) ↦
      subst (Undone e offset length v b) (sym same) (undone e offset length v b l f)
]
