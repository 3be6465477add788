-- ===== src/Fuse/Retry.antt =====
-- Requests that are repeated (src/fuse.cpp, `retryable_response`, `request_with_retries`).
pub mod Outcome
use ngs3fs.Prelude.{
  ℕ, zero, suc, ◌+◌, ◌*◌, Bool, true, false, ◌||◌, leb, ◌==◌, not, if◌then◌else◌, Option, none,
  some,
}
use ngs3fs.S3.Text.{Text}
use ngs3fs.Fuse.Errors.{retryable_status, retryable_s3_code}

-- Of a response: its status, and the code that `parse_s3_error` reads in its body. There is none if
-- the body is empty or no error document.
pub record Answer : Type 0 where
  pub status : ℕ
  pub error_code : Option Text

unfoldable pub retryable_code : Option Text → Bool
retryable_code none = false
retryable_code (some code) = retryable_s3_code code

unfoldable pub retryable_response : Answer → Bool
retryable_response answer = retryable_status answer.status || retryable_code answer.error_code

-- What the call of `request` does.
pub data Try : Type 0 where
  responded : Answer → Try
  thrown : Try

-- How `request_with_retries` ends: it returns, passes the last exception on, or throws ECANCELED.
pub data Ending : Type 0 where
  returned : Answer → Ending
  rethrown cancelled : Ending

-- The end, `*ambiguous`, and how often `request` was called.
pub record Result : Type 0 where
  pub ending : Ending
  pub ambiguous : Bool
  pub calls : ℕ

abbrev pub result : Ending → Bool → ℕ → Result
result ending ambiguous calls = record { ending = ending; ambiguous = ambiguous; calls = calls }

-- The calls of `check_request_stop` are numbered, four for an attempt: before the request, behind it,
-- behind an exception, and before the delay. From the call `stop` on, a stop has been requested.
unfoldable pub check_request_stop : ℕ → ℕ → ℕ → Bool
check_request_stop stop attempt place = leb stop (attempt * 4 + place)

-- The delay does not change the result. `more`: the attempts behind this one.
unfoldable pub retry : ℕ → ℕ → Result → Result
retry stop attempt more =
    if check_request_stop stop attempt 3 then result cancelled true (attempt + 1) else more

-- An attempt behind its first test. A stop behind the response is thrown, caught, and thrown again.
unfoldable pub attempted : ℕ → ℕ → Bool → Try → Result → Result
attempted stop attempt ambiguous (responded answer) more =
    if check_request_stop stop attempt 1
    then result cancelled ambiguous (attempt + 1)
    else if not (retryable_response answer) || attempt == 3
    then result (returned answer) ambiguous (attempt + 1)
    else retry stop attempt more
attempted stop attempt ambiguous thrown more =
    if check_request_stop stop attempt 2
    then result cancelled ambiguous (attempt + 1)
    else if attempt == 3
    then result rethrown true (attempt + 1)
    else retry stop attempt more

-- The loop, for a number of attempts; the last one always ends it.
unfoldable pub attempts : (ℕ → Try) → ℕ → ℕ → ℕ → Bool → Result
attempts request stop zero attempt ambiguous = result rethrown ambiguous attempt
attempts request stop (suc left) attempt ambiguous =
    let more = attempts request stop left (attempt + 1) true in
    if check_request_stop stop attempt 0
    then result cancelled ambiguous attempt
    else attempted stop attempt ambiguous (request attempt) more

-- `request n` is what the call number `n` does; `ambiguous` is false before.
unfoldable pub request_with_retries : (ℕ → Try) → ℕ → Result
request_with_retries request stop = attempts request stop 4 0 false
