-- ===== src/Dms/Grow.antt =====
-- extendFile and extendSegment (dms/dms.cpp) where the system calls succeed.
use edbc.Base.{
  ℕ, zero, suc, ◌+◌, ◌*◌, ◌%◌, ◌^◌, ◌<◌, ◌≤◌, ◌≡◌, refl, ap, true, false, length, ltb, arith,
}
use edbc.Base.Outcome.{returns, is_ok}
use edbc.Base.Outcome.Rc.{edb_ok}
use edbc.Base.Latch.{RwLatch, unlocked, writing, w_lock-free, w_unlock-held}
use edbc.Dms.File.{
  DmsFile, Os, dms_extend_size, dms_file_segment_size, page_to_offset, map_range, extend_chunks,
  extend_file, push_segment, extend_segment,
}
use edbc.Dms.Store.{Contents, Entries-same, IsStore}
use edbc.Dms.Segment.{with_segment}
use edbc.Dms.Extend.{push_segment-IsStore}

-- Every chunk is written.
extend_chunks-all :
    (os : Os) (k size : ℕ)
    → ((n : ℕ) → os.write_chunk n ≡ edb_ok)
    → extend_chunks os k size ≡ (edb_ok, size + k * dms_extend_size)
unfolding extend_chunks
extend_chunks-all os zero size h = ap (λ n. (edb_ok, n)) (omega arith)
extend_chunks-all os (suc k) size h =
    rw (h size, extend_chunks-all os k (size + dms_extend_size) h)
      (ap (λ n. (edb_ok, n)) (omega arith))

extend_file-all :
    (os : Os) (size : ℕ)
    → ((n : ℕ) → os.write_chunk n ≡ edb_ok)
    → extend_file os dms_file_segment_size size ≡ (edb_ok, size + dms_file_segment_size)
unfolding extend_file
extend_file-all os size h = extend_chunks-all os 2048 size h

-- The file's length has no part in where the pages are.
sized_IsStore :
    (d : DmsFile) (n : ℕ) (f : Contents) → IsStore d f → IsStore (record d { file_size = n }) f
unfolding page_to_offset
sized_IsStore d n f h = record {
  whole = h.whole;
  holds = h.holds;
  once = h.once;
  entries = Entries-same d (record d { file_size = n }) d.free_space_map (λ q. refl) h.entries;
}

latched_IsStore :
    (d : DmsFile) (l : RwLatch) (f : Contents) → IsStore d f → IsStore (record d { rw_mutex = l }) f
unfolding page_to_offset
latched_IsStore d l f h = record {
  whole = h.whole;
  holds = h.holds;
  once = h.once;
  entries = Entries-same d (record d { rw_mutex = l }) d.free_space_map (λ q. refl) h.entries;
}

push_latch : (d : DmsFile) (l : RwLatch) → (push_segment (record d { rw_mutex = l })).rw_mutex ≡ l
unfolding push_segment
push_latch d l = refl

pushed_size : (d : DmsFile) → (push_segment d).file_size ≡ d.file_size
unfolding push_segment
pushed_size d = refl

-- A range in the file is mapped.
pub map_range-inside :
    (os : Os) (size offset len : ℕ)
    → os.stat ≡ edb_ok
    → os.mmap offset ≡ edb_ok
    → size < 2 ^ 32
    → offset + len ≤ size
    → map_range os size offset len ≡ (edb_ok, true)
unfolding map_range
map_range-inside os size offset len stat mapped small le =
    let cut : size % 2 ^ 32 ≡ size = omega arith in
    let inside : ltb (size % 2 ^ 32) (offset + len) ≡ false = ground arith in
    rw (stat, inside, mapped)

map_range-all :
    (os : Os) (size : ℕ)
    → os.stat ≡ edb_ok
    → os.mmap size ≡ edb_ok
    → size + dms_file_segment_size < 2 ^ 32
    → map_range os (size + dms_file_segment_size) (size % 2 ^ 32) dms_file_segment_size
      ≡ (edb_ok, true)
map_range-all os size stat mapped small =
    let cut : size % 2 ^ 32 ≡ size = omega arith in
    rw cut (
      map_range-inside os (size + dms_file_segment_size) size dms_file_segment_size stat mapped
        small (omega arith))

-- extendSegment where every system call succeeds, on a store with its latch free, one map entry
-- for each page, and a length that stays below 2^32 with the new segment: it returns EDB_OK, the
-- file is a store with 32 more pages without slots, its latch is free and its length has grown by
-- one segment.
pub extend_segment-adds :
    (os : Os) (d : DmsFile) (f : Contents)
    → IsStore d f
    → length d.free_space_map ≡ length d.body * 32
    → d.rw_mutex ≡ unlocked
    → os.stat ≡ edb_ok
    → ((n : ℕ) → os.write_chunk n ≡ edb_ok)
    → os.mmap d.file_size ≡ edb_ok
    → d.file_size + dms_file_segment_size < 2 ^ 32
    → (e : DmsFile) × (extend_segment os d ≡ returns (edb_ok, e))
      × IsStore e (with_segment (length d.body * 32) f)
      × (e.rw_mutex ≡ unlocked)
      × (e.file_size ≡ d.file_size + dms_file_segment_size)
unfolding extend_segment
extend_segment-adds os d f h counted free stat writes mapped small =
    let grown : DmsFile = record d {
      file_size = d.file_size + dms_file_segment_size;
      rw_mutex = writing;
    } in
    let sized = sized_IsStore d (d.file_size + dms_file_segment_size) f h in
    let (store, _) = push_segment-IsStore grown f (latched_IsStore _ writing f sized) counted in
    let answers : is_ok os.stat ≡ true = ap is_ok stat in
    (
      record (push_segment grown) { rw_mutex = unlocked },
      rw (
        answers,
        extend_file-all os d.file_size writes,
        map_range-all os d.file_size stat mapped small,
        w_lock-free d.rw_mutex free,
        push_latch grown writing,
        w_unlock-held,
      ),
      latched_IsStore (push_segment grown) unlocked _ store,
      refl,
      pushed_size grown,
    )
