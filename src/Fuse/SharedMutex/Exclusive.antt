-- ===== src/Fuse/SharedMutex/Exclusive.antt =====
-- A writer holds the lock alone.
use ngs3fs.Prelude.{
  ℕ, suc, ◌+◌, ◌*◌, ◌≤◌, ◌<◌, Bool, false, ◌||◌, ◌==◌, if_elim, Option, none, some, ◌≡◌, refl,
  arith, subst, ==_iff, ◌⊎◌, inl, inr,
}
use ngs3fs.Fuse.SharedMutex.{
  Mutex, writer_bit, all_readers, has_writer, readers_of, exchange, try_lock, announce_writer,
  withdraw_writer, unlock, notify, refuses_reader, share, unlock_shared, decrement,
  begin_async_wait, end_async_wait,
}

-- The mutex, and how many hold it as a writer and as a reader.
pub record System : Type 0 where
  pub mutex : Mutex
  pub writers : ℕ
  pub readers : ℕ

abbrev pub system : Mutex → ℕ → ℕ → System
system mutex writers readers = record { mutex = mutex; writers = writers; readers = readers }

-- The accesses of any number of threads, in any order; those that fail change nothing. Between the
-- state that a reader reads and its exchange, the others may do anything.
pub data Step : System → System → Type 0 where
  lock : {m m' : Mutex} {w r : ℕ} → try_lock m ≡ some m' → Step (system m w r) (system m' (suc w) r)
  release : {m : Mutex} {w r : ℕ} → Step (system m (suc w) r) (system (unlock m) w r)
  lock_shared :
      {m m' : Mutex} {w r : ℕ} (observed : ℕ)
      → share m observed ≡ some m'
      → Step (system m w r) (system m' w (suc r))
  release_shared :
      {m m' : Mutex} {w r : ℕ} (wakes : Bool)
      → unlock_shared m ≡ some (wakes, m')
      → Step (system m w (suc r)) (system m' w r)
  announce : {m : Mutex} {w r : ℕ} → Step (system m w r) (system (announce_writer m) w r)
  withdraw : {m : Mutex} {w r : ℕ} → Step (system m w r) (system (withdraw_writer m) w r)
  wake : {m : Mutex} {w r : ℕ} → Step (system m w r) (system (notify m).1 w r)
  begin_wait : {m : Mutex} {w r : ℕ} → Step (system m w r) (system (begin_async_wait m) w r)
  end_wait : {m : Mutex} {w r : ℕ} → Step (system m w r) (system (end_async_wait m) w r)

abbrev pub unlocked : Mutex
unlocked = record { state = 0; wake_generation = 0; waiting_writers = 0; reactor_waiters = 0 }

pub data Reach : System → Type 0 where
  start : Reach (system unlocked 0 0)
  next : {s t : System} → Reach s → Step s t → Reach t

pub record IsExclusive (state writers readers : ℕ) : Type 0 where
  pub counts : state ≡ writers * writer_bit + readers
  pub alone : (writers ≡ 0) ⊎ ((writers ≡ 1) × (readers ≡ 0))
  pub few : readers ≤ all_readers

OnSome : {A : Type 0} → (A → Type 0) → Option A → Type 0
OnSome P none = Unit
OnSome P (some a) = P a

exchanged :
    (m m' : Mutex) (expected desired : ℕ)
    → exchange m expected desired ≡ some m'
    → (m.state ≡ expected) × (m'.state ≡ desired)
unfolding exchange
exchanged m m' expected desired =
    if_elim (λ o. o ≡ some m' → (m.state ≡ expected) × (m'.state ≡ desired)) (m.state == expected)
      (λ e h.
        let same : record m { state = desired } ≡ m' = cc in
        ((==_iff m.state expected).0 e, subst (λ (x : Mutex). x.state ≡ desired) same refl))
      (λ e h. absurd (cc))

lock-IsExclusive :
    (m m' : Mutex) (w r : ℕ)
    → try_lock m ≡ some m'
    → IsExclusive m.state w r
    → IsExclusive m'.state (suc w) r
unfolding try_lock
lock-IsExclusive m m' w r h v =
    let (before, after) = exchanged m m' 0 writer_bit h in
    record {
      counts = omega (arith, v.counts, before, after);
      alone = inr (omega (arith, v.counts, before), omega (arith, v.counts, before));
      few = v.few;
    }

release-IsExclusive :
    (m : Mutex) (w r : ℕ) → IsExclusive m.state (suc w) r → IsExclusive (unlock m).state w r
unfolding unlock
release-IsExclusive m w r v = record {
  counts = ground (arith, v.alone);
  alone = ground (arith, v.alone);
  few = v.few;
}

shared_reader :
    (state w r : ℕ)
    → refuses_reader state ≡ false
    → IsExclusive state w r
    → (w ≡ 0) × (r < all_readers)
unfolding refuses_reader has_writer readers_of
shared_reader state w r h v = ground (arith, h, v.alone, v.counts, v.few)

lock_shared-IsExclusive :
    (m m' : Mutex) (observed w r : ℕ)
    → share m observed ≡ some m'
    → IsExclusive m.state w r
    → IsExclusive m'.state w (suc r)
unfolding share
lock_shared-IsExclusive m m' observed w r =
    if_elim (λ o. o ≡ some m' → IsExclusive m.state w r → IsExclusive m'.state w (suc r))
      (refuses_reader observed) (λ _ h v. absurd (cc))
      (λ free h v.
        let (before, after) = exchanged m m' observed _ h in
        let one = shared_reader observed w r free (subst (λ n. IsExclusive n w r) before v) in
        record {
          counts = omega (arith, v.counts, before, after, one.0, one.1);
          alone = inl one.0;
          few = omega (arith, one.1);
        })

-- The test of `unlock_shared` does not abort where there is a reader.
reader_bits :
    (state w r : ℕ)
    → IsExclusive state w (suc r)
    → ((readers_of state == 0) || has_writer state) ≡ false
unfolding readers_of has_writer
reader_bits state w r v = ground (arith, v.alone, v.counts, v.few)

decrement-IsExclusive :
    (state w r : ℕ) → IsExclusive state w (suc r) → IsExclusive (decrement state) w r
decrement-IsExclusive state w r v = record {
  counts = ground (arith, v.counts, v.alone, v.few);
  alone = ground (arith, v.alone);
  few = omega (arith, v.few);
}

release_shared-IsExclusive :
    (m m' : Mutex) (w r : ℕ) (wakes : Bool)
    → unlock_shared m ≡ some (wakes, m')
    → IsExclusive m.state w (suc r)
    → IsExclusive m'.state w r
unfolding unlock_shared
release_shared-IsExclusive m m' w r wakes =
    if_elim (λ o. o ≡ some (wakes, m') → IsExclusive m.state w (suc r) → IsExclusive m'.state w r)
      (readers_of m.state == 0 || has_writer m.state) (λ _ h v. absurd (cc))
      (λ _ h v.
        let same : record m { state = decrement m.state } ≡ m' = cc in
        subst (λ (x : Mutex). IsExclusive x.state w r) same (decrement-IsExclusive m.state w r v))

Step-IsExclusive :
    {s t : System}
    → Step s t
    → IsExclusive s.mutex.state s.writers s.readers
    → IsExclusive t.mutex.state t.writers t.readers
unfolding announce_writer withdraw_writer notify begin_async_wait end_async_wait
Step-IsExclusive (lock h) v = lock-IsExclusive _ _ _ _ h v
Step-IsExclusive release v = release-IsExclusive _ _ _ v
Step-IsExclusive (lock_shared observed h) v = lock_shared-IsExclusive _ _ observed _ _ h v
Step-IsExclusive (release_shared wakes h) v = release_shared-IsExclusive _ _ _ _ wakes h v
Step-IsExclusive announce v = v
Step-IsExclusive withdraw v = v
Step-IsExclusive wake v = v
Step-IsExclusive begin_wait v = v
Step-IsExclusive end_wait v = v

-- In every state that the accesses of any number of threads reach: one writer holds the lock at
-- most, then no reader does, and `state_` is the writer bit or the number of the readers.
pub Reach-IsExclusive : (s : System) → Reach s → IsExclusive s.mutex.state s.writers s.readers
Reach-IsExclusive s start = record { counts = refl; alone = inl refl; few = omega arith }
Reach-IsExclusive s (next r step) = Step-IsExclusive step (Reach-IsExclusive _ r)

single_count :
    (state w r : ℕ)
    → IsExclusive state w (suc r)
    → ((state == 1) ≡ (r == 0)) × (decrement state ≡ r)
single_count state w r v =
    (ground (arith, v.counts, v.alone, v.few), ground (arith, v.counts, v.alone, v.few))

-- Where a reader holds the lock, `unlock_shared` does not abort; it notifies exactly if it was the
-- last one.
pub unlock_shared_runs :
    (m : Mutex) (writers others : ℕ)
    → Reach (system m writers (suc others))
    → unlock_shared m ≡ some (others == 0, record m { state = others })
unfolding unlock_shared
unlock_shared_runs m writers others r =
    let v = Reach-IsExclusive _ r in
    let one = single_count m.state writers others v in
    rw (reader_bits m.state writers others v, one.0, one.1) refl
