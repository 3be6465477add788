-- ===== src/Cache/Claim/Result.antt =====
-- What `claim_fetch` returns.
use ngs3fs.Prelude.{
  ℕ, suc, ◌+◌, ◌-◌, ◌*◌, ◌/◌, ◌≤◌, ◌<◌, min, Bool, true, ◌||◌, ◌&&◌, leb, ltb, ◌==◌, if◌then◌else◌,
  ◌≡◌, refl, arith, ap, subst, ◌∙◌, inl, inr, if_elim, some, none, ◌⊎◌, word, add64, [], ◌∷◌, ◌++◌,
  inside, Option, length,
}
use ngs3fs.Cache.Bitmap.{Words, page_size, page_state, missing, read_pending, first_page, last_page}
use ngs3fs.Cache.Entry.{
  Entry, FetchClaim, no_claim, ActiveFetch, Outcome, done, thrown, estale, block_first_page,
}
use ngs3fs.Cache.Entry.Pages.{state-set_pages}
use ngs3fs.Cache.Entry.Geometry.{Geometry, SameShape, IsAligned, first_page-aligned, aligned_pages}
use ngs3fs.Cache.Claim.{wanted_end, cut_end, make_claim, claim_from, claim_missing, claim_fetch}
use ngs3fs.Cache.Claim.Free.{
  Missing, first_missing_lem, FreeUpTo, cut_end_lem, first_round, none_before,
}
use ngs3fs.Cache.Claim.Bounds.{
  words-claim_pages, length-claim_pages, wanted_end_whole, cut_end_whole, wanted_end_low,
  wanted_end_high, begin, begin_lem, enough_rounds,
}

-- A page of the claim.
abbrev pub in_claim : FetchClaim → ℕ → Bool
in_claim c q = leb (c.offset / page_size) q && ltb (q * page_size) (c.offset + c.length)

-- A claim and the state behind it, of a request for the bytes from `offset` to `stop`.
pub record Claimed (e : Entry) (offset stop : ℕ) (c : FetchClaim) (e' : Entry) : Type 0 where
  pub aligned : IsAligned e c.offset
  pub within : c.offset + c.length ≤ e.size
  pub wanted :
      (page : ℕ) × (page_state e.words page ≡ missing)
      × (offset / page_size ≤ page)
      × (page * page_size < stop)
      × (in_claim c page ≡ true)
  pub whole : (c.offset + c.length ≡ e.size) ⊎ IsAligned e (c.offset + c.length)
  pub shape : SameShape e e'
  pub free : FreeUpTo e c.offset (c.offset + c.length)
  pub pending :
      (q : ℕ)
      → page_state e'.words q ≡ (if in_claim c q then read_pending else page_state e.words q)
  pub listed :
      (a : ActiveFetch) × (e'.active ≡ e.active ++ a ∷ [])
      × (a.id ≡ c.id)
      × (a.epoch ≡ c.epoch)
      × (a.offset ≡ c.offset)
      × (a.length ≡ c.length)
      × (a.published ≡ 0)
      × (a.offset / page_size + length a.prior_states
          ≤ (a.offset + a.length + page_size - 1) / page_size)

-- What a call promises: no claim and no change, or a `Claimed`.
unfoldable pub Promise : Entry → ℕ → ℕ → Outcome FetchClaim → Type 0
Promise e offset stop (done c e') = ((c ≡ no_claim) × (e' ≡ e)) ⊎ Claimed e offset stop c e'
Promise e offset stop (thrown error e') = e' ≡ e

-- A page is in the run that `make_claim` writes if it is in the claim.
run_in_claim :
    (e : Entry) (start end q : ℕ)
    → Geometry e
    → IsAligned e start
    → start < end
    → end ≤ e.size
    → inside
        (block_first_page e start)
        (min e.page_count ((end - 1) / page_size + 1) - block_first_page e start)
        q
      ≡ (leb (start / page_size) q && ltb (q * page_size) (start + (end - start)))
run_in_claim e start end q g a lt fits =
    rw (first_page-aligned e start a) (ground (arith, g.pages, aligned_pages e start g a))

whole_end :
    (e : Entry) (start end : ℕ)
    → start < end
    → (end ≡ e.size) ⊎ IsAligned e end
    → (start + (end - start) ≡ e.size) ⊎ IsAligned e (start + (end - start))
whole_end e start end lt whole =
    let same : end ≡ start + (end - start) = omega arith in
    subst (λ x. (x ≡ e.size) ⊎ IsAligned e x) same whole

make_claim-Promise :
    (e : Entry) (offset stop start end page : ℕ)
    → Geometry e
    → IsAligned e start
    → start < end
    → end ≤ e.size
    → (end ≡ e.size) ⊎ IsAligned e end
    → start ≤ page * page_size
    → page * page_size < end
    → page_state e.words page ≡ missing
    → offset / page_size ≤ page
    → page * page_size < stop
    → FreeUpTo e start end
    → Promise e offset stop (make_claim e start end)
unfolding make_claim Promise
make_claim-Promise e offset stop start end page g a lt fits whole lo hi found after before free =
    inr (record {
      aligned = a;
      within = omega arith;
      whole = whole_end e start end lt whole;
      shape = record { block_size = refl; size = refl; page_count = refl; regions = refl };
      wanted = (page, found, after, before, ground (arith));
      free = subst (FreeUpTo e start) (omega arith) free;
      pending = λ q.
          ap (λ (w : Words). page_state w q)
            (words-claim_pages e.words (block_first_page e start)
              (min e.page_count ((end - 1) / page_size + 1) - block_first_page e start))
          ∙ state-set_pages e.words (block_first_page e start)
              (min e.page_count ((end - 1) / page_size + 1) - block_first_page e start) read_pending
              q
          ∙ rw (run_in_claim e start end q g a lt fits) refl;
      listed = (
        _,
        refl,
        refl,
        refl,
        refl,
        refl,
        refl,
        omega (
          arith,
          length-claim_pages e.words (block_first_page e start)
              (min e.page_count ((end - 1) / page_size + 1) - block_first_page e start),
          first_page-aligned e start a,
        ),
      );
    })

-- The end that the claim is cut to lies behind the missing page, if the claim is not empty.
cut_behind :
    (e : Entry) (start page request_end expansion x : ℕ)
    → Geometry e
    → start < e.size
    → expansion ≤ word - 1
    → page * page_size < e.size
    → page * page_size < start + e.block_size
    → (x ≡ wanted_end e start request_end expansion) ⊎ (start + e.block_size ≤ x)
    → page * page_size < x
cut_behind e start page request_end expansion x g h k inside_e near (inl all) =
    omega (arith, all, wanted_end_low e start request_end expansion g h k)
cut_behind e start page request_end expansion x g h k inside_e near (inr block) = omega arith

no_claim-Promise : (e : Entry) (offset stop : ℕ) → Promise e offset stop (done no_claim e)
unfolding Promise
no_claim-Promise e offset stop = inl (refl, refl)

claim_from-Promise :
    (e : Entry) (offset stop page request_end expansion : ℕ)
    → Geometry e
    → expansion ≤ word - 1
    → page * page_size < e.size
    → page_state e.words page ≡ missing
    → offset / page_size ≤ page
    → page * page_size < stop
    → Promise e offset stop (claim_from e page request_end expansion)
unfolding claim_from
claim_from-Promise e offset stop page request_end expansion g k fits found after before =
    let (a, lo, hi) = begin_lem e page g fits in
    let high = wanted_end_high e (begin e page) request_end expansion in
    let enough = enough_rounds (begin e page) wanted e.block_size g.block_pos in
    if_elim (Promise e offset stop) (leb end (begin e page)) (λ _. no_claim-Promise e offset stop)
      (λ some_block.
        let lt : begin e page < end = ground (arith, some_block) in
        let cut =
          cut_end_lem _ e (begin e page) (begin e page) wanted g a high enough
            (none_before e (begin e page) wanted g a) in
        let low : end ≤ wanted = cut.low in
        make_claim-Promise e offset stop (begin e page) end page g a lt (omega (arith, low, high))
          (cut_end_whole _ e (begin e page) (begin e page) wanted g a
            (wanted_end_whole e (begin e page) request_end expansion g))
          lo
          (cut_behind e (begin e page) page request_end expansion end g (omega arith) k fits hi
            (first_round _ e (begin e page) wanted g a high enough lt))
          found after before cut.free)
  where
    wanted : ℕ
    wanted = wanted_end e (begin e page) request_end expansion

    end : ℕ
    end =
        cut_end (suc ((wanted - begin e page) / e.block_size + 1)) e (begin e page) (begin e page)
          wanted

claim_missing-Promise :
    (e : Entry) (offset stop n request_end expansion : ℕ) (found : Option ℕ)
    → Geometry e
    → expansion ≤ word - 1
    → stop ≤ e.size
    → (offset / page_size + n) ≤ (stop - 1) / page_size + 1
    → 0 < stop
    → ((page : ℕ) → found ≡ some page → Missing e.words (offset / page_size) n page)
    → Promise e offset stop (claim_missing e found request_end expansion)
unfolding claim_missing
claim_missing-Promise e offset stop n request_end expansion none g k fits last pos hit =
    no_claim-Promise e offset stop
claim_missing-Promise e offset stop n request_end expansion (some page) g k fits last pos hit =
    let (lo, hi, is_missing) = hit page refl in
    claim_from-Promise e offset stop page request_end expansion g k (omega arith) is_missing
      (omega arith) (omega arith)

thrown-Promise : (e : Entry) (offset stop : ℕ) → Promise e offset stop (thrown estale e)
unfolding Promise
thrown-Promise e offset stop = refl

pub claim_fetch-Promise :
    (e : Entry) (offset length expansion : ℕ)
    → Geometry e
    → expansion ≤ word - 1
    → Promise e offset
        (offset + min length (e.size - offset))
        (claim_fetch e offset length expansion)
unfolding claim_fetch
claim_fetch-Promise e offset length expansion g k =
    if_elim Good e.stale (λ _. thrown-Promise e offset stop)
      (λ _.
        if_elim Good (length == 0 || (leb e.size offset || (e.header.dirty || e.header.exported)))
          (λ _. no_claim-Promise e offset stop)
          (λ some_bytes.
            claim_missing-Promise e offset stop
              (last_page offset (min length (e.size - offset)) + 1 - first_page offset)
              (add64 offset (min length (e.size - offset))) expansion _ g k
              (ground (arith, some_bytes)) (ground (arith, some_bytes, g.size_max))
              (ground (arith, some_bytes))
              (λ page. first_missing_lem e.words (first_page offset) _ page)))
  where
    stop : ℕ
    stop = offset + min length (e.size - offset)

    Good : Outcome FetchClaim → Type 0
    Good = Promise e offset stop

-- Of an entry of `Geometry`, and an expansion that fits 64 bits: a claim that `claim_fetch` returns
-- is empty and the entry is as before, or it begins at a block, and ends at a block or with the
-- object; has a
-- page that was missing and that the request meets; no page of it was downloading or bad, and none
-- was in a pinned region; afterwards its pages are pending and all others as before; and it is
-- entered as an active fetch, with nothing published.
pub claim_fetch-Claimed :
    (e : Entry) (offset length expansion : ℕ) (c : FetchClaim) (e' : Entry)
    → Geometry e
    → expansion ≤ word - 1
    → claim_fetch e offset length expansion ≡ done c e'
    → ((c ≡ no_claim) × (e' ≡ e)) ⊎ Claimed e offset (offset + min length (e.size - offset)) c e'
unfolding Promise
claim_fetch-Claimed e offset length expansion c e' g k result =
    subst (Promise e offset (offset + min length (e.size - offset))) result
      (claim_fetch-Promise e offset length expansion g k)
