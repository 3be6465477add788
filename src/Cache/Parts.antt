-- ===== src/Cache/Parts.antt =====
-- The verdict of the checksum parts on a range (src/cache.cpp, `checksum_blocked_locked`). The
-- result 0 of the code is `unverified`, whose number is 0.
pub mod Blocked
use ngs3fs.Prelude.{
  ℕ, zero, suc, ◌+◌, ◌-◌, min, Bool, true, false, ◌||◌, ltb, leb, ◌==◌, if◌then◌else◌, List, [],
  ◌∷◌, get_or, add64,
}
use ngs3fs.Cache.Entry.{Entry, Part, PartState, unverified, retrying, verifying, verified, part_bad}

-- `std::lower_bound` over parts in the order of their offsets: the first part that does not end
-- at `begin` or before, with its index.
unfoldable pub lower_bound : ℕ → List Part → ℕ → ℕ × List Part
lower_bound i [] begin = (i, [])
lower_bound i (p ∷ ps) begin =
    if leb (add64 p.offset p.size) begin then lower_bound (suc i) ps begin else (i, p ∷ ps)

-- A bad part decides; a retrying one is remembered.
unfoldable pub blocked_step : PartState → PartState → PartState
blocked_step part_bad rest = part_bad
blocked_step unverified rest = rest
blocked_step verifying rest = rest
blocked_step retrying rest = rest
blocked_step verified rest = rest

unfoldable pub remember : PartState → PartState → PartState
remember retrying acc = retrying
remember unverified acc = acc
remember verifying acc = acc
remember verified acc = acc
remember part_bad acc = acc

-- `for (; part != end() && part->offset < end; ++part)`
unfoldable pub blocked_loop : ℕ → List Part → List PartState → ℕ → PartState → PartState
blocked_loop i [] states end acc = acc
blocked_loop i (p ∷ ps) states end acc =
    let state = get_or states i unverified in
    let rest = blocked_loop (suc i) ps states end (remember state acc) in
    if ltb p.offset end then blocked_step state rest else acc

unfoldable pub blocked_from : ℕ × List Part → List PartState → ℕ → PartState
blocked_from (i, ps) states end = blocked_loop i ps states end unverified

unfoldable pub checksum_blocked : Entry → ℕ → ℕ → PartState
checksum_blocked e offset length =
    if e.stale || (leb e.size offset || length == 0)
    then unverified
    else let end = add64 offset (min length (e.size - offset)) in
      blocked_from (lower_bound 0 e.parts offset) e.part_states end
