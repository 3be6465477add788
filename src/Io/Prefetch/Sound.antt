-- ===== src/Io/Prefetch/Sound.antt =====
-- The counters of the budget are the sums of the reservations that are out, and stay within the
-- capacity.
use ngs3fs.Prelude.{
  ℕ, ◌+◌, ◌-◌, ◌%◌, ◌≤◌, ◌<◌, min, Bool, true, false, ◌||◌, ltb, ◌==◌, not, if◌then◌else◌, List,
  ◌∷◌, word, ◌≡◌, refl, arith, ap, sym, ◌∙◌, if_elim,
}
use ngs3fs.Io.Prefetch.{
  Usage, Budget, usage, put_usage, charge, both, Attempt, invalid, refused, reserved,
  commit_reserve, grant, reserve_speculative, reserve_checked, try_reserve,
}
use ngs3fs.Io.Prefetch.Files.{usage-put_usage}
use ngs3fs.Io.Prefetch.Ledger.{
  Ledger, bytes_for, file_bytes_for, total, total-le, file_bytes_for-le, charged, other_counter,
  rest_counter,
}

pub record IsSound (s : Budget) (rs : Ledger) : Type 0 where
  pub demand : s.used.demand ≡ total (bytes_for true) rs
  pub speculative : s.used.speculative ≡ total (bytes_for false) rs
  pub file_demand : (f : ℕ) → (usage s.files f).demand ≡ total (file_bytes_for true f) rs
  pub file_speculative : (f : ℕ) → (usage s.files f).speculative ≡ total (file_bytes_for false f) rs
  pub within : s.used.demand + s.used.speculative ≤ s.capacity
  pub reserve_free : s.used.speculative + s.demand_reserve ≤ s.capacity
  pub fits : s.capacity < word

-- The bytes that a reservation may take without breaking the bounds.
pub record Room (s : Budget) (bytes : ℕ) (demand : Bool) : Type 0 where
  pub all : s.used.demand + s.used.speculative + bytes ≤ s.capacity
  pub ahead : demand ≡ false → s.used.speculative + s.demand_reserve + bytes ≤ s.capacity

-- The bytes of a file are among all the bytes.
pub file_within :
    {s : Budget} {rs : Ledger} (f : ℕ)
    → IsSound s rs
    → ((usage s.files f).demand ≤ s.used.demand)
      × ((usage s.files f).speculative ≤ s.used.speculative)
file_within {rs} f v = (
  omega (
    arith,
    v.file_demand f,
    v.demand,
    total-le (file_bytes_for true f) (bytes_for true) rs (file_bytes_for-le true f),
  ),
  omega (
    arith,
    v.file_speculative f,
    v.speculative,
    total-le (file_bytes_for false f) (bytes_for false) rs (file_bytes_for-le false f),
  ),
)

-- A reservation is entered in the ledger.
unfoldable pub Granted : Budget → Ledger → Attempt → Type 0
Granted s rs invalid = Unit
Granted s rs refused = Unit
Granted s rs (reserved r s') = IsSound s' (r ∷ rs)

-- The two counters of a file after a write to the entry of another or the same one.
pub entry_demand :
    (files : List (ℕ × Usage)) (file f : ℕ) (u : Usage)
    → (usage (put_usage files file u) f).demand
      ≡ (if file == f then u.demand else (usage files f).demand)
entry_demand files file f u =
    ap (λ (v : Usage). v.demand) (usage-put_usage files file f u)
    ∙ if_elim (λ (v : Usage). v.demand ≡ (if file == f then u.demand else (usage files f).demand))
        (file == f) (λ e. rw e refl) (λ e. rw e refl)

pub entry_speculative :
    (files : List (ℕ × Usage)) (file f : ℕ) (u : Usage)
    → (usage (put_usage files file u) f).speculative
      ≡ (if file == f then u.speculative else (usage files f).speculative)
entry_speculative files file f u =
    ap (λ (v : Usage). v.speculative) (usage-put_usage files file f u)
    ∙ if_elim
        (λ (v : Usage).
          v.speculative ≡ (if file == f then u.speculative else (usage files f).speculative))
        (file == f) (λ e. rw e refl) (λ e. rw e refl)

abbrev demand_of : Budget → ℕ → ℕ
demand_of s f = (usage s.files f).demand

abbrev speculative_of : Budget → ℕ → ℕ
speculative_of s f = (usage s.files f).speculative

refused-Granted : (s : Budget) (rs : Ledger) → Granted s rs refused
unfolding Granted
refused-Granted s rs = tt

invalid-Granted : (s : Budget) (rs : Ledger) → Granted s rs invalid
unfolding Granted
invalid-Granted s rs = tt

commit-IsSound :
    (s : Budget) (rs : Ledger) (file bytes : ℕ) (demand : Bool)
    → IsSound s rs
    → Room s bytes demand
    → Granted s rs (commit_reserve s file bytes demand)
unfolding Granted commit_reserve charge total
commit-IsSound s rs file bytes true v room =
    let (d, p) = file_within file v in
    record {
      demand = omega arith;
      speculative = omega arith;
      file_demand = λ f.
          entry_demand s.files file f _
          ∙ charged file bytes f (demand_of s) true rs (v.file_demand f) (omega arith);
      file_speculative = λ f.
          entry_speculative s.files file f _
          ∙ rest_counter file bytes f (speculative_of s)
          ∙ v.file_speculative f
          ∙ sym (other_counter file bytes f (speculative_of s) true rs);
      within = omega arith;
      reserve_free = omega arith;
      fits = v.fits;
    }
commit-IsSound s rs file bytes false v room =
    let (d, p) = file_within file v in
    record {
      demand = omega arith;
      speculative = omega arith;
      file_demand = λ f.
          entry_demand s.files file f _
          ∙ rest_counter file bytes f (demand_of s)
          ∙ v.file_demand f
          ∙ sym (other_counter file bytes f (demand_of s) false rs);
      file_speculative = λ f.
          entry_speculative s.files file f _
          ∙ charged file bytes f (speculative_of s) false rs (v.file_speculative f) (omega arith);
      within = omega arith;
      reserve_free = omega (arith, room.ahead refl);
      fits = v.fits;
    }

grant-IsSound :
    (s : Budget) (rs : Ledger) (file bytes minimum : ℕ) (demand : Bool)
    → IsSound s rs
    → Room s bytes demand
    → Granted s rs (grant s file bytes minimum demand)
unfolding grant
grant-IsSound s rs file bytes minimum demand v room =
    if_elim (Granted s rs) (ltb bytes minimum) (λ _. refused-Granted s rs)
      (λ _. commit-IsSound s rs file bytes demand v room)

speculative-IsSound :
    (s : Budget) (rs : Ledger) (file limit bytes minimum : ℕ)
    → IsSound s rs
    → s.used.demand + s.used.speculative + bytes ≤ s.capacity
    → Granted s rs (reserve_speculative s file limit bytes minimum)
unfolding reserve_speculative
speculative-IsSound s rs file limit bytes minimum v fits =
    if_elim (Granted s rs)
      (ltb (s.capacity - s.demand_reserve) s.used.speculative
        || ltb (limit - min limit s.demand_reserve) (usage s.files file).speculative)
      (λ _. refused-Granted s rs)
      (λ room.
        grant-IsSound s rs file _ minimum false v
          (record { all = omega (arith); ahead = λ _. omega arith }))

-- Whatever is asked for: a budget that is sound stays so, with the new reservation in the ledger.
pub try_reserve-IsSound :
    (s : Budget) (rs : Ledger) (file limit preferred minimum : ℕ) (demand : Bool)
    → IsSound s rs
    → Granted s rs (try_reserve s file limit preferred minimum demand)
unfolding try_reserve reserve_checked both
try_reserve-IsSound s rs file limit preferred minimum demand v =
    if_elim (Granted s rs)
      ((minimum == 0 || ltb preferred minimum)
        || (limit == 0
            || (not (limit % s.page_size == 0)
                || (not (preferred % s.page_size == 0) || not (minimum % s.page_size == 0)))))
      (λ _. invalid-Granted s rs)
      (λ _.
        if_elim (Granted s rs) s.stopped (λ _. refused-Granted s rs)
          (λ _.
            if_elim (Granted s rs)
              (ltb s.capacity (both s.used) || ltb limit (both (usage s.files file)))
              (λ _. refused-Granted s rs)
              (λ _.
                if_elim (Granted s rs) demand
                  (λ _.
                    grant-IsSound s rs file _ minimum true v
                      (record { all = omega arith; ahead = λ t. absurd (cc) }))
                  (λ _. speculative-IsSound s rs file limit _ minimum v (omega arith)))))
