-- ===== src/Io/Prefetch/Release.antt =====
-- What is given back of a reservation, and its split.
use ngs3fs.Prelude.{
  ℕ, ◌+◌, ◌-◌, ◌%◌, ◌≤◌, Bool, true, false, ◌||◌, ◌&&◌, ltb, ◌==◌, not, if◌then◌else◌, List, [],
  ◌∷◌, ◌++◌, some, add64, ◌≡◌, refl, arith, ap, ◌∙◌, if_elim, ==_iff,
}
use ngs3fs.Io.Prefetch.{
  Usage, unused, Budget, Reservation, new_budget, usage, put_usage, erase_usage, discharge,
  reserved, Attempt, try_reserve, split, is_unused, reset, subscribe, unsubscribe, begin_async_wait,
  end_async_wait, notify_reclaimable, stop,
}
use ngs3fs.Io.Prefetch.Files.{usage-erase_usage}
use ngs3fs.Io.Prefetch.Ledger.{
  Ledger, bytes_for, file_bytes_for, total, total-middle, discharged, other_counter, rest_counter,
}
use ngs3fs.Io.Prefetch.Sound.{IsSound, file_within, entry_demand, entry_speculative}

-- A file's counters after the end of a reservation, which erases an entry that is unused.
entry_left : List (ℕ × Usage) → ℕ → Usage → List (ℕ × Usage)
entry_left files file u = if is_unused u then erase_usage files file else put_usage files file u

left_demand :
    (files : List (ℕ × Usage)) (file f : ℕ) (u : Usage)
    → (usage (entry_left files file u) f).demand
      ≡ (if file == f then u.demand else (usage files f).demand)
unfolding entry_left is_unused
left_demand files file f u =
    if_elim (λ t. (usage t f).demand ≡ (if file == f then u.demand else (usage files f).demand))
      (u.demand == 0 && u.speculative == 0)
      (λ z.
        ap (λ (v : Usage). v.demand) (usage-erase_usage files file f)
        ∙ if_elim
            (λ (v : Usage). v.demand ≡ (if file == f then u.demand else (usage files f).demand))
            (file == f) (λ e. rw e (ground (arith, z))) (λ e. rw e refl))
      (λ _. entry_demand files file f u)

left_speculative :
    (files : List (ℕ × Usage)) (file f : ℕ) (u : Usage)
    → (usage (entry_left files file u) f).speculative
      ≡ (if file == f then u.speculative else (usage files f).speculative)
unfolding entry_left is_unused
left_speculative files file f u =
    if_elim
      (λ t.
        (usage t f).speculative
        ≡ (if file == f then u.speculative else (usage files f).speculative))
      (u.demand == 0 && u.speculative == 0)
      (λ z.
        ap (λ (v : Usage). v.speculative) (usage-erase_usage files file f)
        ∙ if_elim
            (λ (v : Usage).
              v.speculative ≡ (if file == f then u.speculative else (usage files f).speculative))
            (file == f) (λ e. rw e (ground (arith, z))) (λ e. rw e refl))
      (λ _. entry_speculative files file f u)

-- The state that `reset` leaves, of a reservation of some bytes.
abbrev released : Budget → ℕ → ℕ → Bool → Budget
released s file bytes demand = record s {
  files = entry_left s.files file (discharge demand bytes (usage s.files file));
  used = discharge demand bytes s.used;
  revision = add64 s.revision 1;
  waiters = [];
}

released-IsSound :
    (s : Budget) (rs : Ledger) (file bytes : ℕ) (demand : Bool)
    → IsSound s (record { file = file; bytes = bytes; demand = demand } ∷ rs)
    → IsSound (released s file bytes demand) rs
unfolding discharge total
released-IsSound s rs file bytes true v =
    let (d, p) = file_within file v in
    let all : s.used.demand ≡ bytes + total (bytes_for true) rs = v.demand in
    record {
      demand = omega arith;
      speculative = omega (arith, v.speculative);
      file_demand = λ f.
          left_demand s.files file f _
          ∙ discharged file bytes f (λ g. (usage s.files g).demand) true rs (v.file_demand f)
              (omega arith);
      file_speculative = λ f.
          left_speculative s.files file f _
          ∙ rest_counter file bytes f (λ g. (usage s.files g).speculative)
          ∙ v.file_speculative f
          ∙ other_counter file bytes f (λ g. (usage s.files g).speculative) true rs;
      within = omega arith;
      reserve_free = omega arith;
      fits = v.fits;
    }
released-IsSound s rs file bytes false v =
    let (d, p) = file_within file v in
    let all : s.used.speculative ≡ bytes + total (bytes_for false) rs = v.speculative in
    record {
      demand = omega (arith, v.demand);
      speculative = omega arith;
      file_demand = λ f.
          left_demand s.files file f _
          ∙ rest_counter file bytes f (λ g. (usage s.files g).demand)
          ∙ v.file_demand f
          ∙ other_counter file bytes f (λ g. (usage s.files g).demand) false rs;
      file_speculative = λ f.
          left_speculative s.files file f _
          ∙ discharged file bytes f (λ g. (usage s.files g).speculative) false rs
              (v.file_speculative f) (omega arith);
      within = omega arith;
      reserve_free = omega arith;
      fits = v.fits;
    }

-- A ledger that gives the same sums serves as well.
IsSound-sums :
    (s : Budget) (rs ts : Ledger)
    → ((d : Bool) → total (bytes_for d) rs ≡ total (bytes_for d) ts)
    → ((d : Bool) (f : ℕ) → total (file_bytes_for d f) rs ≡ total (file_bytes_for d f) ts)
    → IsSound s rs
    → IsSound s ts
IsSound-sums s rs ts all each v = record {
  demand = v.demand ∙ all true;
  speculative = v.speculative ∙ all false;
  file_demand = λ f. v.file_demand f ∙ each true f;
  file_speculative = λ f. v.file_speculative f ∙ each false f;
  within = v.within;
  reserve_free = v.reserve_free;
  fits = v.fits;
}

-- A reservation of no bytes counts for nothing.
total-none :
    (d : Bool) (r : Reservation) (rs : Ledger)
    → r.bytes ≡ 0
    → total (bytes_for d) (r ∷ rs) ≡ total (bytes_for d) rs
unfolding total
total-none d r rs z = ground (arith, z)

file_total-none :
    (d : Bool) (f : ℕ) (r : Reservation) (rs : Ledger)
    → r.bytes ≡ 0
    → total (file_bytes_for d f) (r ∷ rs) ≡ total (file_bytes_for d f) rs
unfolding total
file_total-none d f r rs z = ground (arith, z)

pub reset-IsSound :
    (s : Budget) (rs : Ledger) (r : Reservation) → IsSound s (r ∷ rs) → IsSound (reset s r).1 rs
unfolding reset ngs3fs.Io.Prefetch.detach_waiters
reset-IsSound s rs r v =
    if_elim {A = List ℕ × Budget} (λ t. IsSound t.1 rs) (r.bytes == 0)
      (λ z.
        let none_left : r.bytes ≡ 0 = (==_iff r.bytes 0).0 z in
        IsSound-sums s (r ∷ rs) rs (λ d. total-none d r rs none_left)
          (λ d f. file_total-none d f r rs none_left) v)
      (λ _. unfold entry_left in released-IsSound s rs r.file r.bytes r.demand v)

pub IsSound-middle :
    (s : Budget) (xs ys : Ledger) (r : Reservation)
    → IsSound s (xs ++ r ∷ ys)
    → IsSound s (r ∷ (xs ++ ys))
unfolding total
IsSound-middle s xs ys r =
    IsSound-sums s _ _ (λ d. total-middle (bytes_for d) xs ys r)
      (λ d f. total-middle (file_bytes_for d f) xs ys r)

split_parts :
    (s : Budget) (r kept part : Reservation) (bytes : ℕ)
    → split s r bytes ≡ some (kept, part)
    → (kept ≡ record r { bytes = r.bytes - bytes })
      × (part ≡ record r { bytes = bytes })
      × (bytes ≤ r.bytes)
unfolding split
split_parts s r kept part bytes =
    if_elim (λ o. o ≡ some (kept, part) → Parts)
      (bytes == 0 || (ltb r.bytes bytes || not (bytes % s.page_size == 0))) (λ _ h. absurd (cc))
      (λ c h. (cc, cc, ground (arith, c)))
  where
    Parts : Type 0
    Parts =
        (kept ≡ record r { bytes = r.bytes - bytes })
        × (part ≡ record r { bytes = bytes })
        × (bytes ≤ r.bytes)

-- The two parts weigh as the whole.
split_weight :
    (d : Bool) (r : Reservation) (bytes : ℕ)
    → bytes ≤ r.bytes
    → bytes_for d r
      ≡ bytes_for d (record r { bytes = r.bytes - bytes })
        + bytes_for d (record r { bytes = bytes })
split_weight d r bytes h = ground arith

split_file_weight :
    (d : Bool) (f : ℕ) (r : Reservation) (bytes : ℕ)
    → bytes ≤ r.bytes
    → file_bytes_for d f r
      ≡ file_bytes_for d f (record r { bytes = r.bytes - bytes })
        + file_bytes_for d f (record r { bytes = bytes })
split_file_weight d f r bytes h = ground arith

-- A reservation and the part that is split off it count as the whole.
pub IsSound-split :
    (s : Budget) (xs ys : Ledger) (r kept part : Reservation) (bytes : ℕ)
    → split s r bytes ≡ some (kept, part)
    → IsSound s (xs ++ r ∷ ys)
    → IsSound s (part ∷ (xs ++ kept ∷ ys))
unfolding total
IsSound-split s xs ys r kept part bytes h v =
    let (k, p, le) = split_parts s r kept part bytes h in
    IsSound-sums s (xs ++ r ∷ ys) (part ∷ (xs ++ kept ∷ ys))
      (λ d.
        rw (total-middle (bytes_for d) xs ys r, total-middle (bytes_for d) xs ys kept, k, p)
          (omega (arith, split_weight d r bytes le)))
      (λ d f.
        rw
          (
            total-middle (file_bytes_for d f) xs ys r,
            total-middle (file_bytes_for d f) xs ys kept,
            k,
            p,
          )
          (omega (arith, split_file_weight d f r bytes le)))
      v
