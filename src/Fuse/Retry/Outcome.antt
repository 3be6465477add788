-- ===== src/Fuse/Retry/Outcome.antt =====
-- How a request that is repeated ends.
use ngs3fs.Prelude.{
  ℕ, zero, suc, ◌+◌, ◌≤◌, ◌<◌, Bool, true, false, if_elim, ◌≡◌, refl, arith, subst, ◌⊎◌, inl, inr,
}
use ngs3fs.Fuse.Retry.{
  retryable_response, Try, responded, thrown, Ending, returned, rethrown, Result,
  check_request_stop, retry, attempted, attempts, request_with_retries,
}

-- The attempt is not the last word.
abbrev pub is_retried : Try → Bool
is_retried (responded answer) = retryable_response answer
is_retried thrown = true

abbrev pub ending_of : Try → Ending
ending_of (responded answer) = returned answer
ending_of thrown = rethrown

unstopped :
    (stop attempt place : ℕ)
    → 16 ≤ stop
    → attempt < 4
    → place < 4
    → check_request_stop stop attempt place ≡ false
unfolding check_request_stop
unstopped stop attempt place h k l = ground arith

-- An attempt that is repeated leaves the end to the next ones.
attempted-retried :
    (stop attempt : ℕ) (ambiguous : Bool) (t : Try) (more : Result)
    → 16 ≤ stop
    → attempt < 3
    → is_retried t ≡ true
    → attempted stop attempt ambiguous t more ≡ more
unfolding attempted retry check_request_stop
attempted-retried stop attempt ambiguous (responded answer) more h k r = ground arith
attempted-retried stop attempt ambiguous thrown more h k r = ground arith

-- The last attempt.
attempted-last :
    (stop attempt : ℕ) (ambiguous : Bool) (t : Try) (more : Result)
    → 16 ≤ stop
    → attempt < 4
    → (is_retried t ≡ false) ⊎ (attempt ≡ 3)
    → (attempted stop attempt ambiguous t more).ending ≡ ending_of t
unfolding attempted retry check_request_stop
attempted-last stop attempt ambiguous (responded answer) more h k (inl r) = ground arith
attempted-last stop attempt ambiguous (responded answer) more h k (inr r) = ground arith
attempted-last stop attempt ambiguous thrown more h k (inl r) = absurd (cc)
attempted-last stop attempt ambiguous thrown more h k (inr r) = ground arith

FinalAt : (ℕ → Try) → ℕ → Type 0
FinalAt request n = (is_retried (request n) ≡ false) ⊎ (n ≡ 3)

first_end :
    (request : ℕ → Try) (stop : ℕ) (k left attempt : ℕ) (ambiguous : Bool)
    → 16 ≤ stop
    → attempt + k < 4
    → k < left
    → ((j : ℕ) → j < k → is_retried (request (attempt + j)) ≡ true)
    → FinalAt request (attempt + k)
    → (attempts request stop left attempt ambiguous).ending ≡ ending_of (request (attempt + k))
unfolding attempts FinalAt
first_end request stop k zero attempt ambiguous h l m before last = absurd (omega (arith, m))
first_end request stop zero (suc left) attempt ambiguous h l m before last =
    let e : attempt + 0 ≡ attempt = omega arith in
    let last' : FinalAt request attempt = subst (FinalAt request) e last in
    rw (unstopped stop attempt 0 h (omega arith) (omega arith), e)
      (attempted-last stop attempt ambiguous (request attempt)
        (attempts request stop left (attempt + 1) true) h (omega arith) last')
first_end request stop (suc k) (suc left) attempt ambiguous h l m before last =
    let e : attempt + suc k ≡ (attempt + 1) + k = omega arith in
    let first : is_retried (request attempt) ≡ true =
      subst (λ n. is_retried (request n) ≡ true) (omega arith) (before 0 (omega arith)) in
    let rest : (j : ℕ) → j < k → is_retried (request ((attempt + 1) + j)) ≡ true = λ j b.
      subst (λ n. is_retried (request n) ≡ true) (omega arith)
        (before (suc j) (omega (arith, b))) in
    rw
      (
        unstopped stop attempt 0 h (omega arith) (omega arith),
        attempted-retried stop attempt ambiguous (request attempt)
            (attempts request stop left (attempt + 1) true) h (omega arith) first,
        e,
      )
      (first_end request stop k left (attempt + 1) true h (omega arith) (omega arith) rest
        (subst (FinalAt request) e last))

-- Where no stop is requested before the end, the call ends as its first attempt does that is
-- answered by a response that is not repeated, and as the fourth one if there is none.
pub ends_with_first :
    (request : ℕ → Try) (stop k : ℕ)
    → 16 ≤ stop
    → k < 4
    → ((j : ℕ) → j < k → is_retried (request j) ≡ true)
    → (is_retried (request k) ≡ false) ⊎ (k ≡ 3)
    → (request_with_retries request stop).ending ≡ ending_of (request k)
unfolding request_with_retries FinalAt
ends_with_first request stop k h l before last =
    subst (λ n. (attempts request stop 4 0 false).ending ≡ ending_of (request n)) (omega arith)
      (first_end request stop k 4 0 false h (omega arith) l
        (λ j b. subst (λ n. is_retried (request n) ≡ true) (omega arith) (before j b))
        (subst (FinalAt request) (omega arith) last))

attempted-ambiguous :
    (stop attempt : ℕ) (t : Try) (more : Result)
    → more.ambiguous ≡ true
    → (attempted stop attempt true t more).ambiguous ≡ true
unfolding attempted retry
attempted-ambiguous stop attempt (responded answer) more h = ground arith
attempted-ambiguous stop attempt thrown more h = ground arith

-- Attempts behind the first one are marked as ambiguous.
attempts-ambiguous :
    (request : ℕ → Try) (stop left attempt : ℕ)
    → (attempts request stop left attempt true).ambiguous ≡ true
unfolding attempts
attempts-ambiguous request stop zero attempt = refl
attempts-ambiguous request stop (suc left) attempt =
    if_elim (λ (r : Result). r.ambiguous ≡ true) (check_request_stop stop attempt 0) (λ _. refl)
      (λ _.
        attempted-ambiguous stop attempt (request attempt) _
          (attempts-ambiguous request stop left (attempt + 1)))

attempted-calls :
    (stop attempt bound : ℕ) (ambiguous : Bool) (t : Try) (more : Result)
    → attempt < bound
    → more.calls ≤ bound
    → (attempted stop attempt ambiguous t more).calls ≤ bound
unfolding attempted retry
attempted-calls stop attempt bound ambiguous (responded answer) more h k = ground arith
attempted-calls stop attempt bound ambiguous thrown more h k = ground arith

attempts-calls :
    (request : ℕ → Try) (stop left attempt : ℕ) (ambiguous : Bool)
    → (attempts request stop left attempt ambiguous).calls ≤ attempt + left
unfolding attempts
attempts-calls request stop zero attempt ambiguous = omega arith
attempts-calls request stop (suc left) attempt ambiguous =
    if_elim (λ (r : Result). r.calls ≤ attempt + suc left) (check_request_stop stop attempt 0)
      (λ _. omega arith)
      (λ _.
        attempted-calls stop attempt (attempt + suc left) ambiguous (request attempt) _
          (omega arith) (omega (arith, attempts-calls request stop left (attempt + 1) true)))

-- The request is made four times at most.
pub request_with_retries-calls :
    (request : ℕ → Try) (stop : ℕ) → (request_with_retries request stop).calls ≤ 4
unfolding request_with_retries
request_with_retries-calls request stop = omega (arith, attempts-calls request stop 4 0 false)

single_call :
    (stop : ℕ) (t : Try) (more : Result)
    → more.ambiguous ≡ true
    → (attempted stop 0 false t more).ambiguous ≡ false
    → (attempted stop 0 false t more).calls ≤ 1
unfolding attempted retry
single_call stop (responded answer) more h k = ground (arith, h, k)
single_call stop thrown more h k = ground (arith, h, k)

-- A result that is not marked as ambiguous comes from one call of the request at most, whenever a
-- stop is requested and whatever the attempts answer.
pub unambiguous_once :
    (request : ℕ → Try) (stop : ℕ)
    → (request_with_retries request stop).ambiguous ≡ false
    → (request_with_retries request stop).calls ≤ 1
unfolding request_with_retries attempts
unambiguous_once request stop =
    if_elim (λ (r : Result). r.ambiguous ≡ false → r.calls ≤ 1) (check_request_stop stop 0 0)
      (λ _ _. omega arith)
      (λ _ h. single_call stop (request 0) _ (attempts-ambiguous request stop 3 (0 + 1)) h)
