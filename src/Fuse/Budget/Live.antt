-- ===== src/Fuse/Budget/Live.antt =====
-- What holds of the writers' budget in every state that the steps reach (src/fuse.cpp).
use ngs3fs.Prelude.{
  ℕ, zero, suc, ◌+◌, ◌<◌, Bool, true, List, [], ◌∷◌, ◌++◌, length, ◌≡◌, arith, sym, subst, ◌⊎◌, inl,
  inr,
}
use ngs3fs.Fuse.Budget.{
  Budget, unsigned_word, available, reserved, refused, ticket, enter, can_resume, resume,
}
use ngs3fs.Fuse.Budget.System.{
  System, system, Step, take, give_up, queue, wake, release, Reach, start, next,
}
use ngs3fs.Fuse.Budget.Fair.{
  IsFair, Enters, initial-IsFair, enter-IsFair, wake-first, resume-IsFair, release-IsFair,
}

take_step :
    (b b' : Budget) (held : ℕ) (ts : List ℕ) (wait : Bool)
    → enter b wait ≡ (reserved, b')
    → IsFair b held ts
    → IsFair b' (suc held) ts
unfolding Enters
take_step b b' held ts wait h v = subst (Enters held ts) h (enter-IsFair b held ts wait v)

give_up_step :
    (b b' : Budget) (held : ℕ) (ts : List ℕ) (wait : Bool)
    → enter b wait ≡ (refused, b')
    → IsFair b held ts
    → IsFair b' held ts
unfolding Enters
give_up_step b b' held ts wait h v = subst (Enters held ts) h (enter-IsFair b held ts wait v)

queue_step :
    (b b' : Budget) (held : ℕ) (ts : List ℕ) (wait : Bool) (n : ℕ)
    → enter b wait ≡ (ticket n, b')
    → length ts + 1 < unsigned_word
    → IsFair b held ts
    → IsFair b' held (ts ++ n ∷ [])
unfolding Enters
queue_step b b' held ts wait n h k v = subst (Enters held ts) h (enter-IsFair b held ts wait v) k

wake_step :
    (b : Budget) (held : ℕ) (xs ys : List ℕ) (n : ℕ)
    → can_resume b n ≡ true
    → IsFair b held (xs ++ n ∷ ys)
    → IsFair (resume b) (suc held) (xs ++ ys)
wake_step b held xs ys n c v =
    let first : xs ≡ [] = wake-first b held xs ys n v c in
    subst (λ (zs : List ℕ). IsFair (resume b) (suc held) (zs ++ ys)) (sym first)
      (resume-IsFair b held ys n (subst (λ (zs : List ℕ). IsFair b held (zs ++ n ∷ ys)) first v) c)

Step-IsFair :
    {s t : System} → Step s t → IsFair s.budget s.held s.tickets → IsFair t.budget t.held t.tickets
Step-IsFair (take wait h) v = take_step _ _ _ _ wait h v
Step-IsFair (give_up wait h) v = give_up_step _ _ _ _ wait h v
Step-IsFair (queue wait n h k) v = queue_step _ _ _ _ wait n h k v
Step-IsFair (wake xs ys n c) v = wake_step _ _ xs ys n c v
Step-IsFair release v = release-IsFair _ _ _ v

-- In every state that reservations, waits of fewer than 2 ^ 32 writers at a time, wake-ups and
-- releases reach from an empty budget that has room for a part, the pinned bytes are those
-- of the parts held and within the budget, the number of waiting writers is that of the tickets
-- out, and these are consecutive from the one that is served.
pub Reach-IsFair : (s : System) → Reach s → IsFair s.budget s.held s.tickets
Reach-IsFair s (start m p h k l) = initial-IsFair m p h k l
Reach-IsFair s (next r step) = Step-IsFair step (Reach-IsFair _ r)

first_ticket :
    (b : Budget) (held n : ℕ) (ts : List ℕ) → IsFair b held (n ∷ ts) → n ≡ b.serving_budget_ticket
first_ticket b held n ts v = let e = v.in_turn in cc

-- In a reached state with waiting writers, the one that has waited longest can go on, or a part of
-- memory is held that a release gives back.
pub no_stall :
    (b : Budget) (held n : ℕ) (ts : List ℕ)
    → Reach (system b held (n ∷ ts))
    → (can_resume b n ≡ true) ⊎ (0 < held)
unfolding can_resume available
no_stall b zero n ts r =
    let v = Reach-IsFair (system b zero (n ∷ ts)) r in
    inl (ground (arith, v.parts, v.part_fits, v.small, first_ticket b zero n ts v))
no_stall b (suc held) n ts r = inr (omega arith)

-- In a reached state, a woken writer is the one that has waited longest.
pub wake_in_order :
    (b : Budget) (held n : ℕ) (xs ys : List ℕ)
    → Reach (system b held (xs ++ n ∷ ys))
    → can_resume b n ≡ true
    → xs ≡ []
wake_in_order b held n xs ys r c =
    wake-first b held xs ys n (Reach-IsFair (system b held (xs ++ n ∷ ys)) r) c
