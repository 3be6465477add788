-- ===== src/Fuse/Budget/System.antt =====
-- The writers round the budget: how many parts they hold, and the tickets of those that wait, the
-- longest first. The scheduler chooses the next step. Fewer than 2 ^ 32 writers wait at a time.
use ngs3fs.Prelude.{
  ℕ, suc, ◌+◌, ◌≤◌, ◌<◌, Bool, true, false, List, [], ◌∷◌, ◌++◌, length, ◌≡◌, word,
}
use ngs3fs.Fuse.Budget.{
  Budget, unsigned_word, reserved, refused, ticket, enter, can_resume, resume, release_part_budget,
}

pub record System : Type 0 where
  pub budget : Budget
  pub held : ℕ
  pub tickets : List ℕ

abbrev pub system : Budget → ℕ → List ℕ → System
system b held tickets = record { budget = b; held = held; tickets = tickets }

pub data Step : System → System → Type 0 where
  take :
      {b b' : Budget} {held : ℕ} {ts : List ℕ} (wait : Bool)
      → enter b wait ≡ (reserved, b')
      → Step (system b held ts) (system b' (suc held) ts)
  give_up :
      {b b' : Budget} {held : ℕ} {ts : List ℕ} (wait : Bool)
      → enter b wait ≡ (refused, b')
      → Step (system b held ts) (system b' held ts)
  queue :
      {b b' : Budget} {held : ℕ} {ts : List ℕ} (wait : Bool) (n : ℕ)
      → enter b wait ≡ (ticket n, b')
      → length ts + 1 < unsigned_word
      → Step (system b held ts) (system b' held (ts ++ n ∷ []))
  wake :
      {b : Budget} {held : ℕ} (xs ys : List ℕ) (n : ℕ)
      → can_resume b n ≡ true
      → Step (system b held (xs ++ n ∷ ys)) (system (resume b) (suc held) (xs ++ ys))
  release :
      {b : Budget} {held : ℕ} {ts : List ℕ}
      → Step (system b (suc held) ts) (system (release_part_budget b) held ts)

-- The limits are those that the mount options pass: a part of memory, and the budget not below it.
abbrev pub initial : ℕ → ℕ → Budget
initial max_pinned_memory part_size = record {
  max_pinned_memory = max_pinned_memory;
  part_size = part_size;
  pinned_bytes = 0;
  waiting_writers = 0;
  budget_exhausted = false;
  next_budget_ticket = 0;
  serving_budget_ticket = 0;
}

pub data Reach : System → Type 0 where
  start :
      (max_pinned_memory part_size : ℕ)
      → part_size ≤ max_pinned_memory
      → max_pinned_memory < word
      → 0 < part_size
      → Reach (system (initial max_pinned_memory part_size) 0 [])
  next : {s t : System} → Reach s → Step s t → Reach t
