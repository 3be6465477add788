-- ===== src/Cache/Entry.antt =====
-- The state of a cache entry (src/cache.hpp, `CacheEntry`), and the helpers of its operations
-- (src/cache.cpp): block and page numbers, the lookup of an active fetch, waking the waiters.
-- Every operation runs under the entry's mutex, so it is a function from the entry to its outcome.
-- `referenced_` and `region_pins_` always have one size, `regions`; each is a function of the
-- region's number. What an operation asks of the kernel is recorded: `punched` holds the calls of
-- `punch_range`, and `signals` the numbers written to the eventfd, the latest first.
pub mod Pages
pub mod Geometry
use ngs3fs.Prelude.{
  ℕ, zero, suc, ◌+◌, ◌-◌, ◌*◌, ◌/◌, min, Bool, ◌||◌, ◌&&◌, ◌==◌, not, if◌then◌else◌, List, [], ◌∷◌,
  Option, none, some, add64, sub64,
}
use ngs3fs.Cache.Bitmap.{PageState, Words, page_size, page_state, set_page_state, same_state}

-- What an operation throws. `estale`, `enospc` and `eoverflow` are `std::system_error`s;
-- `io_error` is one with the `errno` of a call that failed.
pub data Error : Type 0 where
  estale enospc eoverflow io_error overflow_error logic_error retirement_pending : Error

-- `kChecksumUnknown` to `kChecksumUnavailable`
pub data Manifest : Type 0 where
  unknown loading available unavailable : Manifest

-- `kPartUnverified` to `kPartBad`
pub data PartState : Type 0 where
  unverified verifying retrying verified part_bad : PartState

-- `CacheChecksumPart`
pub record Part : Type 0 where
  pub offset : ℕ
  pub size : ℕ
  pub algorithm : ℕ
  pub value : List ℕ

-- `CacheFetchClaim`; the empty claim has length 0.
pub record FetchClaim : Type 0 where
  pub offset : ℕ
  pub epoch : ℕ
  pub id : ℕ
  pub length : ℕ

abbrev pub no_claim : FetchClaim
no_claim = record { offset = 0; epoch = 0; id = 0; length = 0 }

-- `CacheEntry::ActiveFetch`
pub record ActiveFetch : Type 0 where
  pub id : ℕ
  pub epoch : ℕ
  pub offset : ℕ
  pub length : ℕ
  pub published : ℕ
  pub verifying : Bool
  pub retrying : Bool
  pub prior_states : List PageState

-- The fields of `CacheMetaHeader` that the operations read or write. A text stands for its array
-- and its length.
pub record Header : Type 0 where
  pub dirty : Bool
  pub exported : Bool
  pub object_size : ℕ
  pub written_end : ℕ
  pub mtime : ℕ
  pub write_phase : ℕ
  pub upload_part_size : ℕ
  pub upload_id : List ℕ
  pub etag : List ℕ
  pub version_id : List ℕ

pub record Entry : Type 0 where
  pub key : List ℕ
  pub header : Header
  pub words : Words
  pub size : ℕ
  pub epoch : ℕ
  pub block_size : ℕ
  pub page_count : ℕ
  pub regions : ℕ
  pub referenced : ℕ → Bool
  pub pins : ℕ → ℕ
  pub pinned_regions : ℕ
  pub active : List ActiveFetch
  pub parts : List Part
  pub part_states : List PartState
  pub manifest : Manifest
  pub next_claim_id : ℕ
  pub clock_hand : ℕ
  pub checksum_ops : ℕ
  pub eviction_disabled : Bool
  pub detached : Bool
  pub stale : Bool
  pub dirty_fd : Bool
  pub wait_fd : Bool
  pub waiters : ℕ
  pub signals : List ℕ
  pub punched : List (ℕ × ℕ)

-- An operation returns a value or throws; either way it leaves a state.
pub data Outcome {ℓ} (A : Type ℓ) : Type ℓ where
  done : A → Entry → Outcome A
  thrown : Error → Entry → Outcome A

-- The state that an operation leaves.
abbrev pub after {ℓ} : {A : Type ℓ} → Outcome A → Entry
after (done a e) = e
after (thrown x e) = e

-- `words[i] = v` on a function of the index.
unfoldable pub update {ℓ} : {A : Type ℓ} → (ℕ → A) → ℕ → A → ℕ → A
update f i v j = if i == j then v else f j

-- `page_state(page)` and `set_page_state(page, state)` of the entry
abbrev pub state_of : Entry → ℕ → PageState
state_of e page = page_state e.words page

-- `for (page = first; page < first + n; ++page) set_page_state(page, state);`
unfoldable pub set_pages : Words → ℕ → ℕ → PageState → Words
set_pages words page zero state = words
set_pages words page (suc n) state = set_pages (set_page_state words page state) (page + 1) n state

-- Each page in `from` becomes `to`, of the `n` pages from `page` on.
unfoldable pub change_pages : Words → ℕ → ℕ → PageState → PageState → Words
change_pages words page zero from to = words
change_pages words page (suc n) from to =
    change_pages
      (if same_state (page_state words page) from then set_page_state words page to else words)
      (page + 1) n from to

-- `block_first_page(offset)`
unfoldable pub block_first_page : Entry → ℕ → ℕ
block_first_page e offset = offset / e.block_size * e.block_size / page_size

-- `block_last_page(offset)`: one behind the last page of the block.
unfoldable pub block_last_page : Entry → ℕ → ℕ
block_last_page e offset =
    let first = offset / e.block_size * e.block_size in
    let end = min e.size (add64 first e.block_size) in
    if end == 0 then 0 else min e.page_count ((end - 1) / page_size + 1)

-- The last region of a range, plus one.
abbrev pub end_region : ℕ → ℕ → ℕ → ℕ
end_region block_size offset length = sub64 (add64 offset length) 1 / block_size + 1

-- The test of every `std::find_if` over `active_claims_`.
unfoldable pub is_claimed : FetchClaim → ActiveFetch → Bool
is_claimed c a =
    a.id == c.id && (a.epoch == c.epoch && (a.offset == c.offset && a.length == c.length))

unfoldable pub find_claim : List ActiveFetch → FetchClaim → Option ActiveFetch
find_claim [] c = none
find_claim (a ∷ rest) c = if is_claimed c a then some a else find_claim rest c

-- `active_claims_.erase(i)` at the first match.
unfoldable pub erase_claim : List ActiveFetch → FetchClaim → List ActiveFetch
erase_claim [] c = []
erase_claim (a ∷ rest) c = if is_claimed c a then rest else a ∷ erase_claim rest c

-- A write through the iterator `i`: the first match becomes `b`.
unfoldable pub replace_claim : List ActiveFetch → FetchClaim → ActiveFetch → List ActiveFetch
replace_claim [] c b = []
replace_claim (a ∷ rest) c b = if is_claimed c a then b ∷ rest else a ∷ replace_claim rest c b

-- `notify_waiters_locked`: one token for each waiter.
unfoldable pub notify_waiters : Entry → Entry
notify_waiters e =
    if not e.wait_fd || e.waiters == 0 then e else record e { signals = e.waiters ∷ e.signals }
