-- ===== src/Cache/Capacity/Reserve.antt =====
-- What a reservation promises: the cache stays within its maximum and leaves the reserve free.
use ngs3fs.Prelude.{
  if_elim, not, ◌||◌, ◌%◌, ℕ, ◌+◌, ◌≤◌, ◌<◌, Bool, true, false, ◌≡◌, ◌↔◌, ◌⊎◌, inl, inr, refl,
  arith, word,
}
use ngs3fs.Cache.Capacity.{
  Limits, Statvfs, Account, reserve_floor, available_bytes, within_maximum, within_free,
  try_reserve_capacity, cancel_reservation,
}

-- The bytes that are allocated or promised.
abbrev pub Fits : Limits → Statvfs → Account → Type 0
Fits l fs a =
    ((l.maximum_bytes ≡ 0) ⊎ (a.allocated + a.pending ≤ l.maximum_bytes))
    × (reserve_floor l fs + a.pending ≤ available_bytes fs)

available_bytes-lt : (fs : Statvfs) → available_bytes fs < word
unfolding available_bytes
available_bytes-lt fs = omega arith

maximum_iff :
    (l : Limits) (a : Account) (bytes : ℕ)
    → (within_maximum l a bytes ≡ true)
      ↔ ((l.maximum_bytes ≡ 0) ⊎ (a.allocated + (a.pending + bytes) ≤ l.maximum_bytes))
unfolding within_maximum
maximum_iff l a bytes = ground arith

free_iff :
    (l : Limits) (fs : Statvfs) (a : Account) (bytes : ℕ)
    → (within_free l fs a bytes ≡ true)
      ↔ (reserve_floor l fs + (a.pending + bytes) ≤ available_bytes fs)
unfolding within_free
free_iff l fs a bytes = ground arith

-- The two outcomes of a reservation.
abbrev pub Reserved : Limits → Statvfs → Account → ℕ → Bool × Account → Type 0
Reserved l fs a bytes (ok, a') =
    let asked : Account = record a { pending = a.pending + bytes } in
    ((ok ≡ true) × Fits l fs asked × (a' ≡ asked)) ⊎ ((ok ≡ false) × (¬ Fits l fs asked) × (a' ≡ a))

module _ (l : Limits) (fs : Statvfs) (a : Account) (bytes : ℕ) where
  abbrev refuses : Bool
  refuses = not (within_maximum l a bytes) || not (within_free l fs a bytes)

  abbrev asked : Account
  asked = record a { pending = a.pending + bytes }

  room : refuses ≡ false → Fits l fs asked
  room r = ground (arith, r, (maximum_iff l a bytes).0, (free_iff l fs a bytes).0)

  no_room : refuses ≡ true → ¬ Fits l fs asked
  no_room r f = ground (arith, r, f, (maximum_iff l a bytes).1, (free_iff l fs a bytes).1)

  no_wrap : Fits l fs asked → record a { pending = (a.pending + bytes) % word } ≡ asked
  no_wrap f = ground (arith, f, available_bytes-lt fs)

-- Of a bounded cache a reservation succeeds exactly if allocated and promised bytes then stay
-- within the maximum, if there is one, and the promised ones leave the reserve free. A success
-- adds the bytes to the promised ones without a wrap, and a refusal changes nothing.
pub try_reserve_outcome :
    (l : Limits) (fs : Statvfs) (a : Account) (bytes : ℕ)
    → l.unlimited ≡ false
    → Reserved l fs a bytes (try_reserve_capacity l fs a bytes)
unfolding try_reserve_capacity
try_reserve_outcome l fs a bytes h =
    if_elim (Reserved l fs a bytes) l.unlimited (λ u. absurd (ground (arith, u, h)))
      λ _.
        if_elim (Reserved l fs a bytes) (refuses l fs a bytes)
          (λ r. inr (refl, no_room l fs a bytes r, refl))
          (λ r. inl (refl, room l fs a bytes r, no_wrap l fs a bytes (room l fs a bytes r)))

-- Of a bounded cache, a reservation that succeeds and is cancelled leaves the account as it was.
pub cancel-try_reserve :
    (l : Limits) (fs : Statvfs) (a : Account) (bytes : ℕ)
    → l.unlimited ≡ false
    → (try_reserve_capacity l fs a bytes).0 ≡ true
    → cancel_reservation (try_reserve_capacity l fs a bytes).1 bytes ≡ a
unfolding cancel_reservation
cancel-try_reserve l fs a bytes h ok = elim (try_reserve_outcome l fs a bytes h) [
  | inl (t, f, e) ↦ rw e (ground arith)
  | inr (f, n, e) ↦ absurd (ground (arith, ok, f))
]
