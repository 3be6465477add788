-- ===== src/Io/Prefetch/Ledger.antt =====
-- The reservations that are out, and the sums over them.
use ngs3fs.Prelude.{
  ℕ, ◌+◌, ◌≤◌, ◌<◌, Bool, true, false, ◌==◌, not, ◌&&◌, if◌then◌else◌, List, [], ◌∷◌, ◌++◌, ◌≡◌,
  refl, arith, ap, Bool-cases, inl, inr, ==_iff, word, add64, sub64,
}
use ngs3fs.Io.Prefetch.{Reservation}

abbrev pub Ledger : Type 0
Ledger = List Reservation

abbrev pub same : Bool → Bool → Bool
same true d = d
same false d = not d

-- The bytes reserved for one of the two purposes, and those of them for one file.
abbrev pub bytes_for : Bool → Reservation → ℕ
bytes_for demand r = if same demand r.demand then r.bytes else 0

abbrev pub file_bytes_for : Bool → ℕ → Reservation → ℕ
file_bytes_for demand file r = if same demand r.demand && (r.file == file) then r.bytes else 0

unfoldable pub total : (Reservation → ℕ) → Ledger → ℕ
total w [] = 0
total w (r ∷ rs) = w r + total w rs

pub total-cons :
    (w : Reservation → ℕ) (r : Reservation) (rs : Ledger) → total w (r ∷ rs) ≡ w r + total w rs
unfolding total
total-cons w r rs = refl

-- A reservation in the middle counts as one in front.
pub total-middle :
    (w : Reservation → ℕ) (xs ys : Ledger) (r : Reservation)
    → total w (xs ++ r ∷ ys) ≡ w r + total w (xs ++ ys)
unfolding total
total-middle w [] ys r = refl
total-middle w (x ∷ xs) ys r = omega (arith, total-middle w xs ys r)

pub total-le :
    (v w : Reservation → ℕ) (rs : Ledger)
    → ((r : Reservation) → v r ≤ w r)
    → total v rs ≤ total w rs
unfolding total
total-le v w [] h = omega arith
total-le v w (r ∷ rs) h = omega (arith, h r, total-le v w rs h)

pub file_bytes_for-le : (d : Bool) (f : ℕ) (r : Reservation) → file_bytes_for d f r ≤ bytes_for d r
file_bytes_for-le d f r = ground arith

same_self : (d : Bool) → same d d ≡ true
same_self true = refl
same_self false = refl

same_other : (d : Bool) → same (not d) d ≡ false
same_other true = refl
same_other false = refl

-- What a ledger says of a file's counter, before and after an entry for the same or the other
-- purpose is added to it or taken out of it.
module _ (file bytes f : ℕ) (counter : ℕ → ℕ) where
  abbrev pub entry : Bool → Reservation
  entry d = record { file = file; bytes = bytes; demand = d }

  abbrev pub Counts : Bool → ℕ → Ledger → Type 0
  Counts d g rs = counter g ≡ total (file_bytes_for d g) rs

  pub charged :
      (d : Bool) (rs : Ledger)
      → Counts d f rs
      → counter file + bytes < word
      → (if file == f then add64 (counter file) bytes else counter f)
        ≡ total (file_bytes_for d f) (entry d ∷ rs)
  unfolding total
  charged d rs there fits = elim (Bool-cases (file == f)) [
    | inl e ↦
        let eq = ap counter ((==_iff file f).0 e) in
        rw e (ground (arith, same_self d, eq, there, fits))
    | inr e ↦ rw e (ground (arith, same_self d, there))
  ]

  pub discharged :
      (d : Bool) (rs : Ledger)
      → Counts d f (entry d ∷ rs)
      → counter file < word
      → (if file == f then sub64 (counter file) bytes else counter f)
        ≡ total (file_bytes_for d f) rs
  unfolding total
  discharged d rs there fits = elim (Bool-cases (file == f)) [
    | inl e ↦
        let eq = ap counter ((==_iff file f).0 e) in
        rw e (ground (arith, same_self d, eq, rw e at there, fits))
    | inr e ↦ rw e (ground (arith, same_self d, rw e at there))
  ]

  -- The counter for the other purpose stays.
  pub other_counter :
      (d : Bool) (rs : Ledger)
      → total (file_bytes_for (not d) f) (entry d ∷ rs) ≡ total (file_bytes_for (not d) f) rs
  unfolding total
  other_counter d rs = ground (arith, same_other d)

  pub rest_counter : (if file == f then counter file else counter f) ≡ counter f
  rest_counter = elim (Bool-cases (file == f)) [
    | inl e ↦ rw e (ap counter ((==_iff file f).0 e))
    | inr e ↦ rw e refl
  ]

pub total-same :
    (d : Bool) (r : Reservation) (rs : Ledger)
    → r.demand ≡ d
    → total (bytes_for d) (r ∷ rs) ≡ r.bytes + total (bytes_for d) rs
unfolding total
total-same d r rs e = rw (e, same_self d) refl
