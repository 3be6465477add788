-- ===== src/Lib.antt =====
-- ngs3fs, an S3 FUSE client: a model of the parts of the program that keep its data right, and the
-- theorems about them.
--
-- The local cache (src/cache.cpp, src/cache.hpp) stores an object in a file, in blocks, with a
-- state of two bits for each page of 32 KiB. A reader claims a run of blocks that are missing,
-- downloads them and publishes the finished ones; others wait. Regions in use are pinned against
-- the clock eviction, checksum parts are verified over clean pages and block the reads of a part
-- that failed, and a writer publishes pages in order.
--   Cache/Bitmap.antt     page_state, set_page_state, range_has_state, range_all_state
--   Cache/Entry.antt      the fields of CacheEntry as a record, its helpers
--   Cache/Region.antt     the loops over region_pins_ and referenced_
--   Cache/Pins.antt       pin, pin_clean, unpin, touch, disable_eviction
--   Cache/Parts.antt      checksum_blocked_locked
--   Cache/Claim.antt      claim_fetch
--   Cache/Fetch.antt      publish_clean, end_fetch_locked, finish_fetch, rollback_fetch, mark_bad
--   Cache/Wait.antt       range_ready_locked, the begin_*_wait calls, retire_generation
--   Cache/Retry.antt      pin_fetch_verification, begin_retry_locked, finish_retry
--   Cache/Checksum.antt   begin_checksum_manifest to abandon_checksum
--   Cache/Evict.antt      evict_one_region
--   Cache/Write.antt      begin_write, publish_dirty, set_upload_id, discard_write, commit_write
--   Cache/Capacity.antt   the account of LocalCache: reservations and allocated bytes
--   Cache/Name.antt       the names of the cached files, cache_hex to cache_encode_component
-- Each operation runs under the entry's mutex, so it is a function from the state to the state;
-- one that throws leaves a state beside its error. A blocking wait is the repetition of a locked
-- step, and the step is what is modelled.
--
-- The S3 protocol (src/s3.cpp) is texts, lists of bytes here: request paths that are encoded and
-- checked, names of checksum algorithms, canonical header values. A function that throws returns
-- an Option.
--   S3/Text.antt          bytes, and the operations of std::string_view that the others use
--   S3/Decimal.antt       parse_unsigned, over std::from_chars and std::to_string
--   S3/Range.antt         s3_content_range_matches, content_range_matches (src/fuse.cpp)
--   S3/Path.antt          uri_encode, is_encoded_request_path, make_copy_source and their helpers
--   S3/Checksum.antt      parse_checksum_algorithm, checksum_option_name and the other names
--   S3/Header.antt        lowercase, normalize_header_value
--   S3/Crc.antt           make_crc_tables, update_crc32, update_crc64 and the loads they use
--   S3/Combine.antt       gf2_matrix_times, gf2_matrix_square, combine_crc64
--   S3/Time.antt          fixed_decimal, leap_year, utc_time
--   S3/Mtime.antt         parse_s3_mtime, parse_http_mtime
--
-- The credentials (src/credentials.cpp): what reads texts without JSON, files or processes.
--   Credentials.antt            environment_true, credential_trim, validate_credentials
--   Credentials/Expiration.antt days_from_civil, parse_expiration
--   Credentials/Endpoint.antt   parse_credential_endpoint
--   Credentials/Profile.antt    parse_profile_file, load_profile
--   Credentials/Profile/Written.antt the texts of profile files, from sections and entries
--
-- The file system (src/fuse.cpp): the parts that compute without the kernel and S3.
--   Fuse/Options.antt     parse_byte_size, parse_mode, decode_mountinfo_path, format_authority
--   Fuse/Names.antt       percent_decode, valid_fuse_component, trim_xml_space, destination_path
--   Fuse/Errors.antt      retryable_status, retryable_s3_code, errno_for_s3_error
--   Fuse/Retry.antt       request_with_retries
--   Fuse/Budget.antt      reserve_part_budget, release_part_budget
--   Fuse/Window.antt      cache_fetch_expansion
--   Fuse/Inode.antt       retain_inode_count, release_inode_count, item_tree_unreferenced
--   Fuse/SharedMutex.antt ReactorSharedMutex
--   Fuse/Multipart.antt   combined_multipart_checksum, the parts of a multipart copy
-- The writers share a budget of memory, and wait for it with tickets: Fuse/Budget/System.antt has
-- the steps of the writers, in any order. A step of the shared lock is one atomic access of a thread
-- (Fuse/SharedMutex/Exclusive.antt).
--
-- The I/O layer (src/io.cpp): the memory of the reads ahead.
--   Io/Prefetch.antt      PrefetchBudget: try_reserve, split, reset, subscribe, stop
--   Io/Range.antt         AnonymousRangeStorage: writable, commit, copy_to, available, discard
--   Io/Pool.antt          ReceiveBlockPool: acquire, preallocate, release
-- Their uses, in any order, are the steps of Io/Prefetch/Reach.antt, Io/Range/Reach.antt and
-- Io/Pool/Sound.antt. `commit` takes the bytes that stand in the span, and a block holds its bytes
-- as a list.
--
-- Numbers are natural numbers; where the code computes on uint64_t or size_t the wrap is written
-- out by add64, sub64 and mul64 (Prelude/Word.antt). A loop over pages or regions runs over the
-- number of its rounds. A loop over blocks has fuel for one round more than the blocks between its
-- first and last byte, which is enough because each round adds a block.
--
-- Not modelled: the HTTP client, the rest of the FUSE layer and of the I/O layer, the reactor, the
-- sources of credentials and the system calls of the cache; of S3, the XML and the signature.
-- SHA-256 is an argument. What the kernel answers is an argument too, and what is asked of it is
-- recorded.
pub mod Prelude
pub mod Cache
pub mod S3
pub mod Credentials
pub mod Fuse
pub mod Io
