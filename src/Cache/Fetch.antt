-- ===== src/Cache/Fetch.antt =====
-- The life of a claimed download (src/cache.cpp, `publish_clean` to `mark_bad`): finished blocks
-- are published, and the rest is given up, rolled back or marked bad.
pub mod Exclusive
pub mod Each
pub mod Others
pub mod Download
pub mod Publish
pub mod GiveUp
pub mod Sound
pub mod Steps
pub mod Reach
use ngs3fs.Prelude.{
  ℕ, zero, suc, ◌+◌, ◌-◌, ◌/◌, ◌%◌, min, Bool, true, false, ◌||◌, ◌&&◌, ltb, ◌==◌, not,
  if◌then◌else◌, List, [], ◌∷◌, Option, none, some, word, add64, drop,
}
use ngs3fs.Cache.Bitmap.{
  PageState, Words, page_size, set_page_state, missing, read_pending, clean, bad, any_state,
  last_page,
}
use ngs3fs.Cache.Entry.{
  Entry, FetchClaim, ActiveFetch, block_first_page, block_last_page, change_pages, set_pages,
  find_claim, erase_claim, replace_claim, notify_waiters, end_region,
}
use ngs3fs.Cache.Pins.{drop_pins, store_pins}

-- What the loop of `publish_clean` changes.
pub record Publishing : Type 0 where
  pub words : Words
  pub published : ℕ
  pub changed : Bool

-- The pending pages of a block become clean.
unfoldable pub publish_block : Entry → FetchClaim → ℕ → ℕ → Publishing → Publishing
publish_block e claim block block_end p =
    let first = block_first_page e block in
    let n = block_last_page e block - first in
    record {
      words = change_pages p.words first n read_pending clean;
      published = block_end - claim.offset;
      changed = p.changed || any_state p.words first n read_pending;
    }

-- The block is not complete yet.
unfoldable pub is_unfinished : Entry → ℕ → ℕ → Bool → Bool
is_unfinished e progress block_end final =
    ltb progress block_end
    || (block_end == e.size && (not (block_end % e.block_size == 0) && not final))

-- At most one round for each block of the claim.
unfoldable pub publish_loop : ℕ → Entry → FetchClaim → ℕ → Bool → ℕ → Publishing → Publishing
publish_loop zero e claim progress final block p = p
publish_loop (suc fuel) e claim progress final block p =
    let block_end = min e.size (add64 block e.block_size) in
    let p' = publish_block e claim block block_end p in
    let rest = publish_loop fuel e claim progress final (block + e.block_size) p' in
    if ltb block (claim.offset + claim.length)
    then (if is_unfinished e progress block_end final
        then p
        else (if ltb (word - 1 - e.block_size) block then p' else rest))
    else p

-- The rounds that a loop over the blocks of a claim can make.
abbrev pub claim_rounds : Entry → FetchClaim → ℕ
claim_rounds e claim = claim.length / e.block_size + 2

unfoldable pub store_published : Entry → FetchClaim → ActiveFetch → Publishing → Entry
store_published e claim active p =
    let e' : Entry = record e {
      words = p.words;
      active = replace_claim e.active claim (record active { published = p.published });
    } in
    if p.changed then notify_waiters e' else e'

unfoldable pub publish_found : Entry → FetchClaim → Option ActiveFetch → ℕ → ℕ → Bool → Entry
publish_found e claim none published length final = e
publish_found e claim (some active) published length final =
    if e.stale || (ltb length published || (length == published && not final))
    then e
    else store_published e claim active (
        publish_loop (claim_rounds e claim) e claim (add64 claim.offset (min length claim.length))
          final (claim.offset + active.published)
          (record { words = e.words; published = active.published; changed = false }))

unfoldable pub publish_clean : Entry → FetchClaim → ℕ → ℕ → Bool → Entry
publish_clean e claim published length final =
    publish_found e claim (find_claim e.active claim) published length final

-- The regions of a claim, which are not bounded by those of the entry.
unfoldable pub end_found : Entry → FetchClaim → Option ActiveFetch → Bool × Entry
end_found e claim none = (false, e)
end_found e claim (some active) =
    let e' =
      (if active.verifying
        then store_pins e (
            drop_pins e (claim.offset / e.block_size)
              (end_region e.block_size claim.offset claim.length))
        else e) in
    (true, record e' { active = erase_claim e'.active claim })

-- `end_fetch_locked`
unfoldable pub end_fetch : Entry → FetchClaim → Bool × Entry
end_fetch e claim = end_found e claim (find_claim e.active claim)

-- The pending pages of a block are given up, and the block is punched if there was one.
unfoldable pub give_up_block : Entry → ℕ → Entry
give_up_block e block =
    let first = block_first_page e block in
    let n = block_last_page e block - first in
    let words = change_pages e.words first n read_pending missing in
    if any_state e.words first n read_pending
    then record e { words = words; punched = (block, e.block_size) ∷ e.punched }
    else record e { words = words }

unfoldable pub give_up_loop : ℕ → Entry → FetchClaim → ℕ → Entry
give_up_loop zero e claim block = e
give_up_loop (suc fuel) e claim block =
    let e' = give_up_block e block in
    let rest = give_up_loop fuel e' claim (block + e.block_size) in
    if ltb block (claim.offset + claim.length)
    then (if ltb (word - 1 - e.block_size) block then e' else rest)
    else e

unfoldable pub finish_found : Entry → FetchClaim → Option ActiveFetch → Entry
finish_found e claim none = e
finish_found e claim (some active) =
    (end_fetch (give_up_loop (claim_rounds e claim) e claim (claim.offset + active.published))
      claim).1

unfoldable pub finish_fetch : Entry → FetchClaim → Entry
finish_fetch e claim = notify_waiters (finish_found e claim (find_claim e.active claim))

unfoldable pub fail_fetch : Entry → FetchClaim → Entry
fail_fetch e claim = finish_fetch e claim

-- The states of the pages from `page` on are set to those of the list.
unfoldable pub restore_pages : Words → ℕ → List PageState → Words
restore_pages words page [] = words
restore_pages words page (s ∷ states) =
    restore_pages (set_page_state words page s) (page + 1) states

unfoldable pub rollback_found : Entry → FetchClaim → Option ActiveFetch → Entry
rollback_found e claim none = e
rollback_found e claim (some active) =
    let index = (active.published + page_size - 1) / page_size in
    let words =
      restore_pages e.words (block_first_page e claim.offset + index)
        (drop index active.prior_states) in
    notify_waiters (end_fetch (record e { words = words }) claim).1

unfoldable pub rollback_fetch : Entry → FetchClaim → Entry
rollback_fetch e claim = rollback_found e claim (find_claim e.active claim)

-- One behind the last page of the claim.
abbrev pub claim_end_page : Entry → FetchClaim → ℕ
claim_end_page e claim = min e.page_count (last_page claim.offset claim.length + 1)

unfoldable pub mark_found : Entry → FetchClaim → Option ActiveFetch → Entry
mark_found e claim none = e
mark_found e claim (some active) =
    if e.stale
    then e
    else let first =
        claim.offset / page_size
        + (if active.verifying then 0 else (active.published + page_size - 1) / page_size) in
      record e { words = set_pages e.words first (claim_end_page e claim - first) bad }

unfoldable pub mark_bad : Entry → FetchClaim → Entry
mark_bad e claim = notify_waiters (mark_found e claim (find_claim e.active claim))
