-- ===== src/Cache/Write.antt =====
-- Writing an object through the cache (src/cache.cpp, `begin_write` to `commit_write`). The dirty
-- marker is a file that `begin_write` creates and the end of the write removes; its calls and
-- `msync` are arguments where they can fail.
use ngs3fs.Prelude.{
  ℕ, ◌+◌, ◌-◌, ◌/◌, Bool, true, false, ◌||◌, ◌&&◌, ltb, ◌==◌, not, if◌then◌else◌, Option, none,
  some, List, [], ◌∷◌, length, add64,
}
use ngs3fs.Cache.Bitmap.{page_size, clean}
use ngs3fs.Cache.Entry.{
  Entry, Outcome, done, thrown, estale, eoverflow, io_error, logic_error, set_pages,
}

-- `kCacheEtagCapacity`, `kCacheVersionCapacity`, `kCacheUploadIdCapacity`
abbrev pub etag_capacity : ℕ
etag_capacity = 512

abbrev pub version_capacity : ℕ
version_capacity = 1024

abbrev pub upload_id_capacity : ℕ
upload_id_capacity = 1024

-- `begin_write` up to the creation of the marker: `none` if the entry is being written already,
-- else the epoch that the marker is made for.
unfoldable pub check_write : Entry → Outcome (Option ℕ)
check_write e =
    if e.stale then thrown estale e else if e.dirty_fd then done none e else done (some e.epoch) e

-- `begin_write` behind the creation of the marker; the entry may have changed meanwhile.
unfoldable pub enter_write : Entry → ℕ → Outcome (Unit {0})
enter_write e epoch =
    if e.stale || not (e.epoch == epoch)
    then thrown estale e
    else if e.dirty_fd
    then done tt e
    else done tt
        (record e { dirty_fd = true; header = record (e.header) { dirty = true; write_phase = 1 } })

unfoldable pub after_check : Outcome (Option ℕ) → Outcome (Unit {0})
after_check (done none e) = done tt e
after_check (done (some epoch) e) = enter_write e epoch
after_check (thrown x e) = thrown x e

-- `begin_write`, when the marker is created and nothing else runs meanwhile.
unfoldable pub begin_write : Entry → Outcome (Unit {0})
begin_write e = after_check (check_write e)

-- `resize(regions, 0)` of the references and the pin counts.
unfoldable pub grow {ℓ} : {A : Type ℓ} → (ℕ → A) → ℕ → A → ℕ → A
grow f regions v r = if ltb r regions then f r else v

unfoldable pub grow_regions : Entry → ℕ → Entry
grow_regions e regions =
    if ltb e.regions regions
    then record e {
      regions = regions;
      referenced = grow e.referenced e.regions false;
      pins = grow e.pins e.regions 0;
    }
    else e

unfoldable pub publish_dirty : Entry → ℕ → ℕ → ℕ → Outcome (Unit {0})
publish_dirty e offset length written_end =
    if e.stale || not e.header.dirty
    then thrown estale e
    else if not (offset == e.header.written_end)
        || (length == 0 || not (written_end == add64 offset length))
    then thrown logic_error e
    else let g = grow_regions e ((written_end - 1) / e.block_size + 1) in
      let first = offset / page_size in
      done tt (record g {
        page_count = (written_end - 1) / page_size + 1;
        words = set_pages e.words first ((written_end - 1) / page_size + 1 - first) clean;
        header = record (e.header) { object_size = written_end; written_end = written_end };
        size = written_end;
      })

unfoldable pub is_empty_text : List ℕ → Bool
is_empty_text [] = true
is_empty_text (c ∷ rest) = false

unfoldable pub set_upload_id : Entry → List ℕ → ℕ → Outcome (Unit {0})
set_upload_id e upload_id part_size =
    if ltb upload_id_capacity (length upload_id)
    then thrown eoverflow e
    else done tt (record e {
      header = record (e.header) {
        upload_id = upload_id;
        upload_part_size = part_size;
        write_phase = if is_empty_text upload_id then 1 else 2;
      };
    })

unfoldable pub isolate_write : Entry → Entry
isolate_write e =
    if not e.header.dirty then e else record e { header = record (e.header) { write_phase = 3 } }

unfoldable pub discard_write : Entry → Entry
discard_write e = record e {
  header = record (e.header) { dirty = false; write_phase = 0 };
  stale = true;
  detached = true;
  dirty_fd = false;
}

-- `CacheIdentity`
pub record Identity : Type 0 where
  pub key : List ℕ
  pub etag : List ℕ
  pub version_id : List ℕ
  pub size : ℕ
  pub mtime : ℕ

unfoldable pub same_text : List ℕ → List ℕ → Bool
same_text [] [] = true
same_text [] (d ∷ ds) = false
same_text (c ∷ cs) [] = false
same_text (c ∷ cs) (d ∷ ds) = c == d && same_text cs ds

-- The last argument: `msync` succeeds. Where it fails the header is written all the same, and the
-- marker is kept.
unfoldable pub commit_write : Entry → Identity → Bool → Outcome (Unit {0})
commit_write e id synced =
    if ltb etag_capacity (length id.etag) || ltb version_capacity (length id.version_id)
    then thrown eoverflow e
    else if not (same_text id.key e.key) || not (id.size == e.size)
    then thrown logic_error e
    else let e' : Entry = record e {
      header = record (e.header) {
        etag = id.etag;
        version_id = id.version_id;
        mtime = id.mtime;
        dirty = false;
        write_phase = 0;
        upload_id = [];
      };
      eviction_disabled = false;
    } in
      if synced then done tt (record e' { dirty_fd = false }) else thrown io_error e'
