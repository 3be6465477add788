-- ===== src/Fuse/Budget/Fair.antt =====
-- The budget is not exceeded, tickets are served in order, and no writer waits for nothing.
use ngs3fs.Prelude.{
  ℕ, zero, suc, ◌+◌, ◌*◌, ◌%◌, ◌≤◌, ◌<◌, Bool, true, false, ◌||◌, ◌&&◌, ltb, ◌==◌, not, List, [],
  ◌∷◌, ◌++◌, length, ◌≡◌, refl, arith, ap, sym, ◌∙◌, word, add64, if_elim,
}
use ngs3fs.Fuse.Budget.{
  Budget, unsigned_word, available, take_part, Entered, reserved, refused, ticket, enter,
  can_resume, resume, recovered, release_part_budget,
}
use ngs3fs.Fuse.Budget.System.{initial}

-- `n` tickets in turn, from one on.
abbrev pub run : ℕ → ℕ → List ℕ
run first zero = []
run first (suc n) = first ∷ run (add64 first 1) n

pub record IsFair (b : Budget) (held : ℕ) (ts : List ℕ) : Type 0 where
  pub parts : b.pinned_bytes ≡ held * b.part_size
  pub within : b.pinned_bytes ≤ b.max_pinned_memory
  pub part_fits : b.part_size ≤ b.max_pinned_memory
  pub part_pos : 0 < b.part_size
  pub small : b.max_pinned_memory < word
  pub counted : b.waiting_writers ≡ length ts
  pub few : length ts < unsigned_word
  pub serving_small : b.serving_budget_ticket < word
  pub next_ticket : b.next_budget_ticket ≡ (b.serving_budget_ticket + length ts) % word
  pub in_turn : ts ≡ run b.serving_budget_ticket (length ts)

run-snoc :
    (first n : ℕ) → first < word → run first n ++ ((first + n) % word) ∷ [] ≡ run first (suc n)
run-snoc first zero h = let e : (first + 0) % word ≡ first = omega arith in rw e refl
run-snoc first (suc n) h =
    let e : (first + suc n) % word ≡ (add64 first 1 + n) % word = omega arith in
    rw e (ap (λ (t : List ℕ). first ∷ t) (run-snoc (add64 first 1) n (omega arith)))

length-snoc : (ts : List ℕ) (n : ℕ) → length (ts ++ n ∷ []) ≡ length ts + 1
length-snoc [] n = refl
length-snoc (t ∷ ts) n = omega (arith, length-snoc ts n)

length-run : (first n : ℕ) → length (run first n) ≡ n
length-run first zero = refl
length-run first (suc n) = ap suc (length-run (add64 first 1) n)

length-append-le : (xs ys : List ℕ) → length xs ≤ length (xs ++ ys)
length-append-le [] ys = omega arith
length-append-le (x ∷ xs) ys = omega (arith, length-append-le xs ys)

length-middle : (xs ys : List ℕ) (n : ℕ) → length (xs ++ n ∷ ys) ≡ length (xs ++ ys) + 1
length-middle [] ys n = omega arith
length-middle (x ∷ xs) ys n = omega (arith, length-middle xs ys n)

-- The ticket behind others is theirs and as many further.
run_at :
    (xs ys : List ℕ) (first n k : ℕ)
    → first < word
    → run first k ≡ xs ++ n ∷ ys
    → n ≡ (first + length xs) % word
run_at [] ys first n zero h e = absurd (cc)
run_at (x ∷ xs) ys first n zero h e = absurd (cc)
run_at [] ys first n (suc k) h e = let same : first ≡ n = cc in omega arith
run_at (x ∷ xs) ys first n (suc k) h e =
    let rest : run (add64 first 1) k ≡ xs ++ n ∷ ys = cc in
    omega (arith, run_at xs ys (add64 first 1) n k (omega arith) rest)

run-tail :
    (ys : List ℕ) (first n k : ℕ) → run first k ≡ n ∷ ys → ys ≡ run (add64 first 1) (length ys)
run-tail ys first n zero e = absurd (cc)
run-tail ys first n (suc k) e =
    let rest : run (add64 first 1) k ≡ ys = cc in
    let k_len : length ys ≡ k = sym (ap length rest) ∙ length-run (add64 first 1) k in
    rw k_len (sym rest)

pub initial-IsFair :
    (max_pinned_memory part_size : ℕ)
    → part_size ≤ max_pinned_memory
    → max_pinned_memory < word
    → 0 < part_size
    → IsFair (initial max_pinned_memory part_size) 0 []
initial-IsFair m p h k l = record {
  parts = omega arith;
  within = omega arith;
  part_fits = h;
  part_pos = l;
  small = k;
  counted = refl;
  few = omega arith;
  serving_small = omega arith;
  next_ticket = refl;
  in_turn = refl;
}

available_room :
    (b : Budget) (held : ℕ) (ts : List ℕ)
    → available b ≡ true
    → IsFair b held ts
    → b.pinned_bytes + b.part_size ≤ b.max_pinned_memory
unfolding available
available_room b held ts a v = ground (arith, a, v.part_fits, v.small)

-- A part is taken where there is room.
take_part-IsFair :
    (b : Budget) (held : ℕ) (ts : List ℕ)
    → available b ≡ true
    → IsFair b held ts
    → IsFair (take_part b) (suc held) ts
unfolding available take_part
take_part-IsFair b held ts a v =
    let room = available_room b held ts a v in
    record {
      parts = omega (arith, room, v.small);
      within = omega (arith, room, v.small);
      part_fits = v.part_fits;
      part_pos = v.part_pos;
      small = v.small;
      counted = v.counted;
      few = v.few;
      serving_small = v.serving_small;
      next_ticket = v.next_ticket;
      in_turn = v.in_turn;
    }

warned-IsFair :
    (b : Budget) (held : ℕ) (ts : List ℕ) (exhausted : Bool)
    → IsFair b held ts
    → IsFair (record b { budget_exhausted = exhausted }) held ts
warned-IsFair b held ts exhausted v = record {
  parts = v.parts;
  within = v.within;
  part_fits = v.part_fits;
  part_pos = v.part_pos;
  small = v.small;
  counted = v.counted;
  few = v.few;
  serving_small = v.serving_small;
  next_ticket = v.next_ticket;
  in_turn = v.in_turn;
}

-- What the first part of `reserve_part_budget` promises.
unfoldable pub Enters : ℕ → List ℕ → Entered × Budget → Type 0
Enters held ts (reserved, b) = IsFair b (suc held) ts
Enters held ts (refused, b) = IsFair b held ts
Enters held ts (ticket n, b) = length ts + 1 < unsigned_word → IsFair b held (ts ++ n ∷ [])

queue-IsFair :
    (b : Budget) (held : ℕ) (ts : List ℕ)
    → IsFair b held ts
    → length ts + 1 < unsigned_word
    → IsFair
        (record b {
          budget_exhausted = true;
          next_budget_ticket = add64 b.next_budget_ticket 1;
          waiting_writers = (b.waiting_writers + 1) % unsigned_word;
        })
        held
        (ts ++ b.next_budget_ticket ∷ [])
queue-IsFair b held ts v few =
    let len = length-snoc ts b.next_budget_ticket in
    let grown : length (ts ++ b.next_budget_ticket ∷ []) ≡ suc (length ts) = omega (arith, len) in
    record {
      parts = v.parts;
      within = v.within;
      part_fits = v.part_fits;
      part_pos = v.part_pos;
      small = v.small;
      counted = omega (arith, len, v.counted, few);
      few = omega (arith, len, few);
      serving_small = v.serving_small;
      next_ticket = omega (arith, len, v.next_ticket);
      in_turn =
          ap (λ (t : ℕ). ts ++ t ∷ []) v.next_ticket
          ∙ ap (λ (xs : List ℕ). xs ++ ((b.serving_budget_ticket + length ts) % word) ∷ [])
              v.in_turn
          ∙ run-snoc b.serving_budget_ticket (length ts) v.serving_small
          ∙ ap (run b.serving_budget_ticket) (sym grown);
    }

pub enter-IsFair :
    (b : Budget) (held : ℕ) (ts : List ℕ) (wait : Bool)
    → IsFair b held ts
    → Enters held ts (enter b wait)
unfolding Enters enter
enter-IsFair b held ts wait v =
    if_elim (Enters held ts) (not (available b) || not (b.waiting_writers == 0))
      (λ _.
        if_elim (Enters held ts) (not wait) (λ _. warned-IsFair b held ts true v)
          (λ _. queue-IsFair b held ts v))
      (λ room. take_part-IsFair b held ts (ground (arith, room)) v)

-- Only the ticket that has waited longest can go on.
pub wake-first :
    (b : Budget) (held : ℕ) (xs ys : List ℕ) (n : ℕ)
    → IsFair b held (xs ++ n ∷ ys)
    → can_resume b n ≡ true
    → xs ≡ []
unfolding can_resume
wake-first b held [] ys n v c = refl
wake-first b held (x ∷ xs) ys n v c = absurd (
    ground (
      arith,
      c,
      run_at (x ∷ xs) ys b.serving_budget_ticket n (length ((x ∷ xs) ++ n ∷ ys)) v.serving_small
          (sym v.in_turn),
      v.few,
      length-middle (x ∷ xs) ys n,
      v.serving_small,
      length-append-le xs ys,
    ))

pub resume-IsFair :
    (b : Budget) (held : ℕ) (ys : List ℕ) (n : ℕ)
    → IsFair b held (n ∷ ys)
    → can_resume b n ≡ true
    → IsFair (resume b) (suc held) ys
unfolding resume can_resume available
resume-IsFair b held ys n v c = take_part-IsFair _ held ys (ground (arith, c)) (record {
  parts = v.parts;
  within = v.within;
  part_fits = v.part_fits;
  part_pos = v.part_pos;
  small = v.small;
  counted = omega (arith, v.counted, v.few);
  few = omega (arith, v.few);
  serving_small = omega arith;
  next_ticket = omega (arith, v.next_ticket, v.serving_small);
  in_turn = run-tail ys b.serving_budget_ticket n (length (n ∷ ys)) (sym v.in_turn);
})

recovered-IsFair :
    (b : Budget) (held : ℕ) (ts : List ℕ) → IsFair b held ts → IsFair (recovered b) held ts
unfolding recovered
recovered-IsFair b held ts v =
    if_elim (λ t. IsFair t held ts) (b.budget_exhausted && available b)
      (λ _. warned-IsFair b held ts false v) (λ _. v)

pub release-IsFair :
    (b : Budget) (held : ℕ) (ts : List ℕ)
    → IsFair b (suc held) ts
    → IsFair (release_part_budget b) held ts
unfolding release_part_budget
release-IsFair b held ts v =
    if_elim (λ t. IsFair t held ts) (ltb b.pinned_bytes b.part_size)
      (λ low. absurd (ground (arith, low, v.parts)))
      (λ _. recovered-IsFair _ held ts (record {
        parts = omega (arith, v.parts, v.small, v.within);
        within = omega (arith, v.within, v.parts, v.small);
        part_fits = v.part_fits;
        part_pos = v.part_pos;
        small = v.small;
        counted = v.counted;
        few = v.few;
        serving_small = v.serving_small;
        next_ticket = v.next_ticket;
        in_turn = v.in_turn;
      }))
