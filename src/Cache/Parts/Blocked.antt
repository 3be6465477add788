-- ===== src/Cache/Parts/Blocked.antt =====
-- `checksum_blocked_locked` starts at a binary search and stops at the first part behind the
-- range; on parts that tile the object it returns what a scan of all the parts finds.
use Prim.Native.Nat.{ℕ, suc, ◌+◌, ◌-◌, ◌≤◌, ◌<◌, min}
use ngs3fs.Prelude.{
  Bool, false, ◌||◌, ◌&&◌, ltb, leb, ◌==◌, if◌then◌else◌, List, [], ◌∷◌, get_or, add64, word, ◌≡◌,
  refl, arith, Bool-cases, inl, inr, lt→ltb, not_lt→ltb,
}
use ngs3fs.Cache.Entry.{Entry, Part, PartState, unverified, retrying, verifying, verified, part_bad}
use ngs3fs.Cache.Parts.{
  lower_bound, blocked_step, remember, blocked_loop, blocked_from, checksum_blocked,
}

-- The parts follow one another without a gap from `o` on, none is empty, and no end wraps.
abbrev pub Tiles : ℕ → List Part → Type 0
Tiles o [] = Unit {0}
Tiles o (p ∷ ps) = (p.offset ≡ o) × (0 < p.size) × (o + p.size < word) × Tiles (o + p.size) ps

-- A part and a range have a byte in common.
abbrev pub overlaps : Part → ℕ → ℕ → Bool
overlaps p begin end = ltb p.offset end && ltb begin (p.offset + p.size)

-- The worse of the states: bad before retrying before all others.
unfoldable pub worse : PartState → PartState → PartState
worse part_bad t = part_bad
worse retrying part_bad = part_bad
worse retrying t = retrying
worse unverified t = t
worse verifying t = t
worse verified t = t

-- The worst state of all the parts that overlap the range.
unfoldable pub scan : ℕ → List Part → List PartState → ℕ → ℕ → PartState
scan i [] states begin end = unverified
scan i (p ∷ ps) states begin end =
    let rest = scan (suc i) ps states begin end in
    if overlaps p begin end then worse (get_or states i unverified) rest else rest

-- What the loop returns, from the state it has remembered and the worst state of the rest.
finish : PartState → PartState → PartState
finish acc part_bad = part_bad
finish acc retrying = retrying
finish acc unverified = acc
finish acc verifying = acc
finish acc verified = acc

scan_behind :
    (i o begin end : ℕ) (ps : List Part) (states : List PartState)
    → Tiles o ps
    → end ≤ o
    → scan i ps states begin end ≡ unverified
unfolding scan
scan_behind i o begin end [] states t h = refl
scan_behind i o begin end (p ∷ ps) states t h =
    ground (arith, scan_behind (suc i) (o + p.size) begin end ps states t.3)

-- The first part is not wholly before the range.
abbrev Reaches : ℕ → List Part → Type 0
Reaches begin [] = Unit {0}
Reaches begin (p ∷ ps) = begin < p.offset + p.size

Tiles-Reaches : (o begin : ℕ) (ps : List Part) → Tiles o ps → begin ≤ o → Reaches begin ps
Tiles-Reaches o begin [] t h = tt
Tiles-Reaches o begin (p ∷ ps) t h = omega arith

step_finish :
    (s acc rest : PartState)
    → blocked_step s (finish (remember s acc) rest) ≡ finish acc (worse s rest)
unfolding blocked_step finish remember worse
step_finish s acc rest = ground arith

blocked_loop_lem :
    (i o begin end : ℕ) (ps : List Part) (states : List PartState) (acc : PartState)
    → Tiles o ps
    → Reaches begin ps
    → blocked_loop i ps states end acc ≡ finish acc (scan i ps states begin end)
unfolding blocked_loop scan finish
blocked_loop_lem i o begin end [] states acc t r = refl
blocked_loop_lem i o begin end (p ∷ ps) states acc t r = elim (Bool-cases (ltb p.offset end)) [
  | inl here ↦
      rw
        (
          here,
          lt→ltb begin (p.offset + p.size) r,
          blocked_loop_lem (suc i) (o + p.size) begin end ps states
              (remember (get_or states i unverified) acc) t.3
              (Tiles-Reaches (o + p.size) begin ps t.3 (omega arith)),
        )
        (step_finish (get_or states i unverified) acc (scan (suc i) ps states begin end))
  | inr behind ↦
      rw (
        behind,
        scan_behind (suc i) (o + p.size) begin end ps states t.3 (ground (arith, behind, t)),
      )
]

blocked_from_lem :
    (i o begin end : ℕ) (ps : List Part) (states : List PartState)
    → Tiles o ps
    → blocked_from (lower_bound i ps begin) states end
      ≡ finish unverified (scan i ps states begin end)
unfolding blocked_from lower_bound scan
blocked_from_lem i o begin end [] states t =
    blocked_loop_lem i o begin end [] states unverified t tt
blocked_from_lem i o begin end (p ∷ ps) states t =
    elim (Bool-cases (leb (add64 p.offset p.size) begin)) [
      | inl before ↦
          rw (before, not_lt→ltb begin (p.offset + p.size) (ground (arith, before, t)), both_false)
            (blocked_from_lem (suc i) (o + p.size) begin end ps states t.3)
      | inr reached ↦
          rw reached (
            blocked_loop_lem i o begin end (p ∷ ps) states unverified t
              (ground (arith, reached, t)))
    ]
  where
    both_false : (ltb p.offset end && false) ≡ false
    both_false = ground arith

finish-scan :
    (i begin end : ℕ) (ps : List Part) (states : List PartState)
    → finish unverified (scan i ps states begin end) ≡ scan i ps states begin end
unfolding scan finish worse
finish-scan i begin end [] states = refl
finish-scan i begin end (p ∷ ps) states = ground (arith, finish-scan (suc i) begin end ps states)

-- Of an entry whose parts tile the object from 0 on, the verdict on a range that ends below
-- 2 ^ 64 is the worst state of all the parts that overlap the range cut at the object's end; it is
-- `unverified` for a stale entry and for a range that is empty or begins behind the object.
pub checksum_blocked-eq-scan :
    (e : Entry) (offset length : ℕ)
    → Tiles 0 e.parts
    → e.size < word
    → checksum_blocked e offset length ≡ (
        if e.stale || (leb e.size offset || length == 0)
        then unverified
        else scan 0 e.parts e.part_states offset (offset + min length (e.size - offset)))
unfolding checksum_blocked
checksum_blocked-eq-scan e offset length t h =
    elim (Bool-cases (e.stale || (leb e.size offset || length == 0))) [
      | inl out ↦ rw out
      | inr within ↦
          rw (within, end, blocked_from_lem 0 0 offset stop e.parts e.part_states t)
            (finish-scan 0 offset stop e.parts e.part_states)
    ]
  where
    stop : ℕ
    stop = offset + min length (e.size - offset)

    end :
        (e.stale || (leb e.size offset || length == 0)) ≡ false
        → add64 offset (min length (e.size - offset)) ≡ stop
    end w = ground (arith, w)
