-- ===== src/Fuse/Errors.antt =====
-- What the file system answers for an error of S3 (src/fuse.cpp, `retryable_status`,
-- `retryable_s3_code`, `errno_for_s3_status`, `errno_for_s3_error`).
pub mod Codes
use ngs3fs.Prelude.{ℕ, Bool, true, false, ◌||◌, ◌&&◌, leb, ◌==◌, not, if◌then◌else◌, List, [], ◌∷◌}
use ngs3fs.S3.Text.{Text, bytes, same_text}

-- The numbers of <errno.h> that the functions return.
pub data Errno : Type 0 where
  einval eacces enoent ebusy estale eagain enospc eremoteio eio eexist efbig enametoolong
        eopnotsupp :
      Errno

unfoldable pub retryable_status : ℕ → Bool
retryable_status status =
    status == 408
    || (status == 425
        || (status == 429
            || (leb 500 status
                && (leb status 599 && (not (status == 501) && not (status == 505))))))

unfoldable pub one_of : List Text → Text → Bool
one_of [] code = false
one_of (name ∷ names) code = same_text code name || one_of names code

abbrev pub retryable_codes : List Text
retryable_codes =
    bytes "RequestTimeout"
    ∷ bytes "RequestTimeoutException"
    ∷ bytes "SlowDown"
    ∷ bytes "InternalError"
    ∷ bytes "ServiceUnavailable"
    ∷ bytes "OperationAborted"
    ∷ bytes "ConditionalRequestConflict"
    ∷ []

unfoldable pub retryable_s3_code : Text → Bool
retryable_s3_code code = one_of retryable_codes code

unfoldable pub errno_for_s3_status : ℕ → Errno
errno_for_s3_status status =
    if status == 400 || status == 416
    then einval
    else if status == 401 || status == 403
    then eacces
    else if status == 404
    then enoent
    else if status == 409
    then ebusy
    else if status == 412
    then estale
    else if status == 425 || status == 429
    then eagain
    else if status == 507
    then enospc
    else if leb 500 status
    then eremoteio
    else eio

abbrev pub missing_codes : List Text
missing_codes = bytes "NoSuchBucket" ∷ bytes "NoSuchKey" ∷ bytes "NoSuchUpload" ∷ []

abbrev pub existing_codes : List Text
existing_codes = bytes "BucketAlreadyExists" ∷ bytes "BucketAlreadyOwnedByYou" ∷ []

abbrev pub access_codes : List Text
access_codes =
    bytes "AccessDenied"
    ∷ bytes "InvalidAccessKeyId"
    ∷ bytes "SignatureDoesNotMatch"
    ∷ bytes "ExpiredToken"
    ∷ bytes "TokenRefreshRequired"
    ∷ []

abbrev pub archive_codes : List Text
archive_codes = bytes "InvalidObjectState" ∷ bytes "ObjectNotInActiveTierError" ∷ []

abbrev pub argument_codes : List Text
argument_codes =
    bytes "InvalidRange"
    ∷ bytes "InvalidArgument"
    ∷ bytes "InvalidRequest"
    ∷ bytes "MalformedXML"
    ∷ bytes "EntityTooSmall"
    ∷ bytes "InvalidPart"
    ∷ bytes "InvalidPartOrder"
    ∷ []

abbrev pub size_codes : List Text
size_codes = bytes "EntityTooLarge" ∷ bytes "TooManyParts" ∷ []

abbrev pub name_codes : List Text
name_codes = bytes "KeyTooLongError" ∷ []

abbrev pub method_codes : List Text
method_codes = bytes "NotImplemented" ∷ bytes "MethodNotAllowed" ∷ []

abbrev pub precondition_codes : List Text
precondition_codes = bytes "PreconditionFailed" ∷ []

-- The codes of each test, with the number that it returns, in the order of the tests.
abbrev pub error_codes : List (List Text × Errno)
error_codes =
    (missing_codes, enoent)
    ∷ (existing_codes, eexist)
    ∷ (access_codes, eacces)
    ∷ (archive_codes, eio)
    ∷ (argument_codes, einval)
    ∷ (size_codes, efbig)
    ∷ (name_codes, enametoolong)
    ∷ (method_codes, eopnotsupp)
    ∷ (precondition_codes, estale)
    ∷ (retryable_codes, eagain)
    ∷ (bytes "InsufficientStorage" ∷ [], enospc)
    ∷ []

unfoldable pub errno_of : List (List Text × Errno) → Text → Errno → Errno
errno_of [] code otherwise = otherwise
errno_of ((codes, errno) ∷ rest) code otherwise =
    if one_of codes code then errno else errno_of rest code otherwise

unfoldable pub errno_for_s3_error : ℕ → Text → Errno
errno_for_s3_error status code = errno_of error_codes code (errno_for_s3_status status)
