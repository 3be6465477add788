-- ===== src/Cache/Evict/Shape.antt =====
-- What `evict_one_region` leaves alone: the sizes and the active fetches.
use ngs3fs.Prelude.{
  ℕ, zero, suc, ◌%◌, Bool, false, ◌||◌, ◌==◌, not, List, ◌≡◌, refl, if_elim, add64,
}
use ngs3fs.Cache.Entry.{Entry, update, notify_waiters}
use ngs3fs.Cache.Entry.Geometry.{SameShape}
use ngs3fs.Cache.Evict.{
  Punch, RegionScan, evict_region, no_pages, region_scan, clock, evict_one_region,
}

pub record Unshaped (e e' : Entry) : Type 0 where
  pub shape : SameShape e e'
  pub active : e'.active ≡ e.active

-- The fields that a `record e` keeps are the same by computation.
kept : (e : Entry) → SameShape e e
kept e = record { block_size = refl; size = refl; page_count = refl; regions = refl }

notify_waiters-Unshaped : (e e' : Entry) → Unshaped e e' → Unshaped e (notify_waiters e')
unfolding notify_waiters
notify_waiters-Unshaped e e' x =
    if_elim (Unshaped e) (not e'.wait_fd || e'.waiters == 0) (λ _. x)
      (λ _. record {
        shape = record {
          block_size = x.shape.block_size;
          size = x.shape.size;
          page_count = x.shape.page_count;
          regions = x.shape.regions;
        };
        active = x.active;
      })

evict_region-Unshaped :
    (e : Entry) (k : Punch) (region : ℕ) (pages : List ℕ)
    → Unshaped e (evict_region e k region pages).1
unfolding evict_region
evict_region-Unshaped e k region pages =
    if_elim Same (not k.stat_before) (λ _. record { shape = kept e; active = refl })
      (λ _.
        if_elim Same (not k.punches)
          (λ _. record {
            shape = record { block_size = refl; size = refl; page_count = refl; regions = refl };
            active = refl;
          })
          (λ _.
            if_elim Same (not k.stat_after)
              (λ _. record {
                shape = record {
                  block_size = refl;
                  size = refl;
                  page_count = refl;
                  regions = refl;
                };
                active = refl;
              })
              (λ _. notify_waiters-Unshaped e _ (record {
                shape = record {
                  block_size = refl;
                  size = refl;
                  page_count = refl;
                  regions = refl;
                };
                active = refl;
              }))))
  where
    Same : ℕ × Entry → Type 0
    Same r = Unshaped e r.1

-- A round that only moves the hand.
moved-Unshaped :
    (e e' : Entry) (referenced : ℕ → Bool) (hand : ℕ)
    → Unshaped (record e { referenced = referenced; clock_hand = hand }) e'
    → Unshaped e e'
moved-Unshaped e e' referenced hand x = record {
  shape = record {
    block_size = x.shape.block_size;
    size = x.shape.size;
    page_count = x.shape.page_count;
    regions = x.shape.regions;
  };
  active = x.active;
}

clock-Unshaped : (scans : ℕ) (e : Entry) (k : Punch) → Unshaped e (clock scans e k).1
unfolding clock
clock-Unshaped zero e k = record { shape = kept e; active = refl }
clock-Unshaped (suc scans) e k =
    if_elim Same (e.referenced region)
      (λ _.
        moved-Unshaped e _ (update e.referenced region false) (add64 e.clock_hand 1)
          (clock-Unshaped scans _ k))
      (λ _.
        if_elim Same (not scan.evictable || (not (e.pins region == 0) || no_pages scan.clean_pages))
          (λ _. moved-Unshaped e _ e.referenced (add64 e.clock_hand 1) (clock-Unshaped scans _ k))
          (λ _.
            moved-Unshaped e _ e.referenced (add64 e.clock_hand 1)
              (evict_region-Unshaped _ k region scan.clean_pages)))
  where
    region : ℕ
    region = e.clock_hand % e.regions

    scan : RegionScan
    scan = region_scan e region

    Same : ℕ × Entry → Type 0
    Same r = Unshaped e r.1

pub evict_one_region-Unshaped :
    (unlimited : Bool) (e : Entry) (k : Punch) → Unshaped e (evict_one_region unlimited e k).1
unfolding evict_one_region
evict_one_region-Unshaped unlimited e k =
    if_elim (λ (r : ℕ × Entry). Unshaped e r.1)
      (unlimited
        || (e.stale
            || (e.eviction_disabled || ((e.header.dirty || e.header.exported) || e.regions == 0))))
      (λ _. record { shape = kept e; active = refl }) (λ _. clock-Unshaped e.regions e k)
