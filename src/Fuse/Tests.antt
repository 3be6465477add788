-- ===== src/Fuse/Tests.antt =====
-- The theorems of the file system's parts at concrete inputs.
use ngs3fs.Prelude.{
  ℕ, zero, suc, ◌*◌, ◌≤◌, ◌<◌, ◌≡◌, refl, true, false, List, [], ◌∷◌, ◌++◌, arith, none, some, ◌⊎◌,
  inl,
}
use ngs3fs.S3.Text.{Text, bytes}
use ngs3fs.S3.Decimal.{decimal}
use ngs3fs.S3.Path.{uri_encode}
use ngs3fs.S3.Path.Encode.{IsBytes}
use ngs3fs.Fuse.Options.{parse_byte_size, units}
use ngs3fs.Fuse.Options.Sizes.{EachUnit, fitting, parse_byte_size-decimal}
use ngs3fs.Fuse.Names.{percent_decode}
use ngs3fs.Fuse.Names.Decode.{percent_decode-uri_encode}
use ngs3fs.Fuse.Budget.{Budget, enter, can_resume, reserved, ticket, release_part_budget}
use ngs3fs.Fuse.Budget.System.{system, take, queue, release, Reach, start, next}
use ngs3fs.Fuse.Budget.Fair.{IsFair}
use ngs3fs.Fuse.Budget.Live.{Reach-IsFair, no_stall}
use ngs3fs.Fuse.Errors.{Errno, eagain, retryable_s3_code, errno_for_s3_error}
use ngs3fs.Fuse.Errors.Codes.{retryable-eagain}
use ngs3fs.Fuse.Retry.{Answer, Try, responded, thrown, returned, request_with_retries}
use ngs3fs.Fuse.Retry.Outcome.{is_retried, ends_with_first, unambiguous_once}

parse_byte_size-decimal_example :
    EachUnit (λ u. parse_byte_size (decimal 20 ++ u.0) ≡ fitting (20 * u.1)) (([], 1) ∷ units)
parse_byte_size-decimal_example = parse_byte_size-decimal 20 (omega arith)

-- "a b/%"
abbrev name : Text
name = b'a' ∷ 0x20 ∷ b'b' ∷ b'/' ∷ b'%' ∷ []

name-IsBytes : IsBytes name
name-IsBytes = (omega arith, (omega arith, (omega arith, (omega arith, (omega arith, tt)))))

percent_decode-uri_encode_example : percent_decode (uri_encode name false) ≡ some name
percent_decode-uri_encode_example = percent_decode-uri_encode name false name-IsBytes

-- A budget of two parts, both taken, two writers behind each other, and one part given back.
abbrev budget : ℕ → ℕ → ℕ → Budget
budget pinned waiting served = record {
  max_pinned_memory = 10;
  part_size = 5;
  pinned_bytes = pinned;
  waiting_writers = waiting;
  budget_exhausted = true;
  next_budget_ticket = 2;
  serving_budget_ticket = served;
}

two_wait : Reach (system (budget 10 2 0) 2 (0 ∷ 1 ∷ []))
unfolding enter ngs3fs.Fuse.Budget.available ngs3fs.Fuse.Budget.take_part
two_wait =
    next
      (next
        (next (next (start 10 5 (omega arith) (omega arith) (omega arith)) (take true refl))
          (take true refl))
        (queue true 0 refl (omega arith)))
      (queue true 1 refl (omega arith))

one_back : Reach (system (release_part_budget (budget 10 2 0)) 1 (0 ∷ 1 ∷ []))
one_back = next two_wait release

first_can_resume : can_resume (release_part_budget (budget 10 2 0)) 0 ≡ true
unfolding can_resume release_part_budget ngs3fs.Fuse.Budget.available ngs3fs.Fuse.Budget.recovered
first_can_resume = refl

Reach-IsFair_example : IsFair (budget 10 2 0) 2 (0 ∷ 1 ∷ [])
Reach-IsFair_example = Reach-IsFair (system (budget 10 2 0) 2 (0 ∷ 1 ∷ [])) two_wait

no_stall_example : (can_resume (budget 10 2 0) 0 ≡ true) ⊎ (0 < 2)
no_stall_example = no_stall (budget 10 2 0) 2 0 (1 ∷ []) two_wait

abbrev before_first : List ℕ
before_first = []

slow_down : retryable_s3_code (bytes "SlowDown") ≡ true
unfolding retryable_s3_code ngs3fs.Fuse.Errors.one_of ngs3fs.S3.Text.same_text
slow_down = refl

retryable-eagain_example : errno_for_s3_error 400 (bytes "SlowDown") ≡ eagain
retryable-eagain_example = retryable-eagain 400 (bytes "SlowDown") slow_down

-- The first attempt fails, the second one is told to slow down, and the third one is answered.
abbrev answers : ℕ → Try
answers zero = thrown
answers (suc zero) = responded (record { status = 503; error_code = some (bytes "SlowDown") })
answers (suc (suc n)) = responded (record { status = 200; error_code = none })

answers_retried : (j : ℕ) → j < 2 → is_retried (answers j) ≡ true
unfolding ngs3fs.Fuse.Retry.retryable_response ngs3fs.Fuse.Errors.retryable_status
answers_retried zero h = refl
answers_retried (suc zero) h = refl
answers_retried (suc (suc n)) h = absurd (omega (arith, h))

answer_final : is_retried (answers 2) ≡ false
unfolding ngs3fs.Fuse.Retry.retryable_response ngs3fs.Fuse.Errors.retryable_status
    ngs3fs.Fuse.Retry.retryable_code
answer_final = refl

ends_with_first_example :
    (request_with_retries answers 16).ending ≡ returned (record { status = 200; error_code = none })
ends_with_first_example =
    ends_with_first answers 16 2 (omega arith) (omega arith) answers_retried (inl answer_final)

-- Only one attempt, and a stop behind it.
stopped_once : (request_with_retries answers 2).ambiguous ≡ false
unfolding request_with_retries ngs3fs.Fuse.Retry.attempts ngs3fs.Fuse.Retry.attempted
    ngs3fs.Fuse.Retry.retry ngs3fs.Fuse.Retry.check_request_stop
stopped_once = refl

unambiguous_once_example : (request_with_retries answers 2).calls ≤ 1
unambiguous_once_example = unambiguous_once answers 2 stopped_once
