-- ===== src/Io/Prefetch/Reach.antt =====
-- The budget through all its uses: what the ledger of the reservations that are out says of it.
use ngs3fs.Prelude.{
  ℕ, ◌%◌, ◌<◌, Bool, ◌||◌, ltb, ◌==◌, not, List, [], ◌∷◌, ◌++◌, Option, none, some, word, ◌≡◌, refl,
  arith, subst, if_elim,
}
use ngs3fs.Io.Prefetch.{
  Usage, unused, Budget, Reservation, new_budget, usage, put_usage, erase_usage, discharge,
  reserved, Attempt, try_reserve, split, is_unused, reset, subscribe, unsubscribe, begin_async_wait,
  end_async_wait, notify_reclaimable, stop,
}
use ngs3fs.Io.Prefetch.Ledger.{Ledger, total}
use ngs3fs.Io.Prefetch.Sound.{IsSound, Granted, try_reserve-IsSound}
use ngs3fs.Io.Prefetch.Release.{reset-IsSound, IsSound-middle, IsSound-split}

-- The uses of a budget: reservations are made, split, and given up in any order; waiters come, are
-- called, and the budget is stopped.
pub data Step : Budget → Ledger → Budget → Ledger → Type 0 where
  reserve :
      {s s' : Budget} {rs : Ledger} (r : Reservation) (file limit preferred minimum : ℕ)
      (demand : Bool)
      → try_reserve s file limit preferred minimum demand ≡ reserved r s'
      → Step s rs s' (r ∷ rs)
  give_up :
      {s : Budget} (xs ys : Ledger) (r : Reservation)
      → Step s (xs ++ r ∷ ys) (reset s r).1 (xs ++ ys)
  divide :
      {s : Budget} (xs ys : Ledger) (r kept part : Reservation) (bytes : ℕ)
      → split s r bytes ≡ some (kept, part)
      → Step s (xs ++ r ∷ ys) s (part ∷ (xs ++ kept ∷ ys))
  wait :
      {s : Budget} {rs : Ledger} (waiter revision : ℕ)
      → Step s rs (subscribe s waiter revision).1 rs
  reclaim : {s : Budget} {rs : Ledger} → Step s rs (notify_reclaimable s).1 rs
  leave : {s : Budget} {rs : Ledger} (waiter : ℕ) → Step s rs (unsubscribe s waiter).1 rs
  begin_async :
      {s : Budget} {rs : Ledger} (revision : ℕ) → Step s rs (begin_async_wait s revision).1 rs
  end_async : {s : Budget} {rs : Ledger} → Step s rs (end_async_wait s) rs
  end : {s : Budget} {rs : Ledger} → Step s rs (stop s).1 rs

pub data Reach : Budget → Ledger → Type 0 where
  start :
      {s : Budget} (capacity demand_reserve page : ℕ)
      → capacity < word
      → new_budget capacity demand_reserve page ≡ some s
      → Reach s []
  next : {s t : Budget} {rs ts : Ledger} → Reach s rs → Step s rs t ts → Reach t ts

Begins : Option Budget → Type 0
Begins none = Unit
Begins (some s) = IsSound s []

start-IsSound :
    (s : Budget) (capacity demand_reserve page : ℕ)
    → capacity < word
    → new_budget capacity demand_reserve page ≡ some s
    → IsSound s []
unfolding Begins new_budget total usage
start-IsSound s capacity demand_reserve page small h = subst Begins h (
    if_elim Begins
      (page == 0
        || (demand_reserve == 0
            || (ltb capacity demand_reserve
                || (not (capacity % page == 0) || not (demand_reserve % page == 0)))))
      (λ _. tt)
      (λ c. record {
        demand = refl;
        speculative = refl;
        file_demand = λ f. refl;
        file_speculative = λ f. refl;
        within = omega arith;
        reserve_free = ground (arith, c);
        fits = small;
      }))

Granted-reserved :
    (s s' : Budget) (rs : Ledger) (r : Reservation) (a : Attempt)
    → a ≡ reserved r s'
    → Granted s rs a
    → IsSound s' (r ∷ rs)
unfolding Granted
Granted-reserved s s' rs r a h g = subst (Granted s rs) h g

-- What the events leave alone.
event-IsSound :
    (s : Budget) (waiters : List ℕ) (revision event_waiters : ℕ) (stopped : Bool) (rs : Ledger)
    → IsSound s rs
    → IsSound
        (record s {
          waiters = waiters;
          revision = revision;
          event_waiters = event_waiters;
          stopped = stopped;
        })
        rs
event-IsSound s waiters revision event_waiters stopped rs v = record {
  demand = v.demand;
  speculative = v.speculative;
  file_demand = v.file_demand;
  file_speculative = v.file_speculative;
  within = v.within;
  reserve_free = v.reserve_free;
  fits = v.fits;
}

Step-IsSound : {s t : Budget} {rs ts : Ledger} → Step s rs t ts → IsSound s rs → IsSound t ts
unfolding subscribe unsubscribe begin_async_wait end_async_wait notify_reclaimable stop
    ngs3fs.Io.Prefetch.detach_waiters
Step-IsSound {s} {t} {rs} (reserve r file limit preferred minimum demand h) v =
    Granted-reserved s t rs r _ h (try_reserve-IsSound s rs file limit preferred minimum demand v)
Step-IsSound {s} (give_up xs ys r) v = reset-IsSound s (xs ++ ys) r (IsSound-middle s xs ys r v)
Step-IsSound {s} (divide xs ys r kept part bytes h) v = IsSound-split s xs ys r kept part bytes h v
Step-IsSound {s} {t} {rs} (wait waiter revision) v =
    if_elim {A = Bool × Budget} (λ t. IsSound t.1 rs) (s.stopped || not (s.revision == revision))
      (λ _. v) (λ _. event-IsSound s _ _ _ _ rs v)
Step-IsSound {s} {t} {rs} reclaim v =
    if_elim {A = List ℕ × Budget} (λ t. IsSound t.1 rs) s.stopped (λ _. v)
      (λ _. event-IsSound s _ _ _ _ rs v)
Step-IsSound {s} {t} {rs} (leave waiter) v = event-IsSound s _ _ _ _ rs v
Step-IsSound {s} {t} {rs} (begin_async revision) v =
    if_elim {A = Bool × Budget} (λ t. IsSound t.1 rs) (s.stopped || not (s.revision == revision))
      (λ _. v) (λ _. event-IsSound s _ _ _ _ rs v)
Step-IsSound {s} {t} {rs} end_async v = event-IsSound s _ _ _ _ rs v
Step-IsSound {s} {t} {rs} end v =
    if_elim {A = List ℕ × Budget} (λ t. IsSound t.1 rs) s.stopped (λ _. v)
      (λ _. event-IsSound s _ _ _ _ rs v)

-- However reservations are made, split and given up, from a new budget on: the counters of the
-- budget and those of every file are the sums of the reservations that are out, for each of the two
-- purposes; all of them stay within the capacity, and the speculative ones leave the demand reserve
-- free.
pub Reach-IsSound : {s : Budget} {rs : Ledger} → Reach s rs → IsSound s rs
Reach-IsSound {s} (start capacity demand_reserve page small h) =
    start-IsSound s capacity demand_reserve page small h
Reach-IsSound (next r st) = Step-IsSound st (Reach-IsSound r)
