-- ===== src/Dms/File.antt =====
-- The data file as a whole: dmsFile of include/dms.hpp and dms/dms.cpp, with map of
-- oss/ossMmapFile.cpp. A segment is its 32 pages. extendMutex_ is taken and released around
-- extendSegment on both paths and nowhere else; it is left out.
use edbc.Base.{
  ℕ, zero, suc, ◌+◌, ◌-◌, ◌*◌, ◌/◌, ◌%◌, ◌^◌, Bool, true, false, not, Option, none, some, List, [],
  ◌∷◌, ◌++◌, ltb, leb, ◌==◌, if◌then◌else◌, length, get_elem?, get_or, set, replicate,
}
use edbc.Base.Outcome.{Outcome, returns, throws, fault, starved, ◌>>=◌, Rc, is_ok}
use edbc.Base.Outcome.Rc.{edb_ok, edb_sys}
use edbc.Base.Latch.{RwLatch, w_lock, r_lock, w_unlock}
use edbc.Base.Bytes.{Bytes}
use edbc.Base.Memory.{Memory, load32}
use edbc.Base.Multimap.{Multimap, insert, erase_in_range, upper_bound}
use edbc.Base.Json.{JsonLib}
use edbc.Ixm.Bucket.{Rid}
use edbc.Dms.Page.{
  dms_pagesize, dms_slot_empty, dms_max_record, dms_record_flag_dropped, record_header_size,
  page_header_size, slot_size, free_space_at, fresh_page, eye_ok, wants_rearrange, has_room,
  place_record, add_free_space, search_slot, record_text, drop_record, re_arrange_space, sub32,
}

abbrev pub dms_extend_size : ℕ
dms_extend_size = 65536

abbrev pub dms_file_segment_size : ℕ
dms_file_segment_size = 134217728

abbrev pub dms_file_header_size : ℕ
dms_file_header_size = 65536

abbrev pub dms_pages_per_segment : ℕ
dms_pages_per_segment = 32

-- What the system calls answer: fstat, the write of one chunk at the end of a file of the given
-- size, and mmap at an offset, by the codes that ossFileOp and ossMmapFile::map make of them.
pub record Os : Type 0 where
  pub stat : Rc
  pub write_chunk : ℕ → Rc
  pub mmap : ℕ → Rc

-- `pages` is the header's size_; `file_size` is the file's length.
pub record DmsFile : Type 0 where
  pub file_size : ℕ
  pub pages : ℕ
  pub body : List (List Memory)
  pub free_space_map : Multimap ℕ
  pub rw_mutex : RwLatch

-- pageToOffset; `none` is NULL.
unfoldable pub page_to_offset : DmsFile → ℕ → Option Memory
page_to_offset d pid =
    if leb (length d.body * dms_pages_per_segment) pid
    then none
    else get_elem? (get_or d.body (pid / dms_pages_per_segment) []) (pid % dms_pages_per_segment)

-- A write through the page's pointer.
unfoldable pub put_page : DmsFile → ℕ → Memory → DmsFile
put_page d pid m =
    let s = pid / dms_pages_per_segment in
    record d { body = set d.body s (set (get_or d.body s []) (pid % dms_pages_per_segment) m) }

-- ossMmapFile::map: the code, and whether the address was set. The size of the file is read into
-- an unsigned int, and a range past it is refused with EDB_OK.
unfoldable pub map_range : Os → ℕ → ℕ → ℕ → Rc × Bool
map_range os file_size offset len =
    if is_ok os.stat
    then (if ltb (file_size % 2 ^ 32) (offset + len)
        then (edb_ok, false)
        else (os.mmap offset, is_ok (os.mmap offset)))
    else (os.stat, false)

-- The loop of extendFile: the code, and the file's new length.
unfoldable pub extend_chunks : Os → ℕ → ℕ → Rc × ℕ
extend_chunks os zero file_size = (edb_ok, file_size)
extend_chunks os (suc k) file_size =
    let rest = extend_chunks os k (file_size + dms_extend_size) in
    if is_ok (os.write_chunk file_size) then rest else (os.write_chunk file_size, file_size)

unfoldable pub extend_file : Os → ℕ → ℕ → Rc × ℕ
extend_file os extend_size file_size =
    if extend_size % dms_extend_size == 0
    then extend_chunks os (extend_size / dms_extend_size) file_size
    else (edb_sys, file_size)

-- The insertions of a new segment's pages into the free space map, from page `pid` on.
unfoldable pub add_pages : ℕ → ℕ → Multimap ℕ → Multimap ℕ
add_pages zero pid m = m
add_pages (suc k) pid m = add_pages k (pid + 1) (insert (dms_pagesize - page_header_size) pid m)

-- The part of extendSegment under the latch.
unfoldable pub push_segment : DmsFile → DmsFile
push_segment d = record d {
  pages = (d.pages + dms_pages_per_segment) % 2 ^ 32;
  body = d.body ++ replicate dms_pages_per_segment fresh_page ∷ [];
  free_space_map = add_pages dms_pages_per_segment (length d.free_space_map) d.free_space_map;
}

-- extendSegment. Where map leaves the address null, the copy of the page headers is a fault.
unfoldable pub extend_segment : Os → DmsFile → Outcome (Rc × DmsFile)
extend_segment os d =
    let (rc, file_size) = extend_file os dms_file_segment_size d.file_size in
    let d' = record d { file_size = file_size } in
    let (rc', mapped) = map_range os file_size (d.file_size % 2 ^ 32) dms_file_segment_size in
    let locked = (do
      l ← w_lock d'.rw_mutex
      let e = push_segment (record d' { rw_mutex = l })
      l' ← w_unlock e.rw_mutex
      returns (edb_ok, record e { rw_mutex = l' })) in
    if not (is_ok os.stat)
    then returns (os.stat, d)
    else if not (is_ok rc)
    then returns (rc, d')
    else if not (is_ok rc')
    then returns (rc', d')
    else (if mapped then locked else fault)

-- updateFreeSpace: the page's entry moves to its new free space.
unfoldable pub update_free_space : DmsFile → Memory → ℕ → ℕ → DmsFile
update_free_space d m change pid =
    let m' = add_free_space m change in
    record (put_page d pid m') {
      free_space_map =
          insert (load32 m' free_space_at) pid
            (erase_in_range (load32 m free_space_at) (λ it. it == pid) d.free_space_map);
    }

-- insert from the page's pointer on, with the latch held.
unfoldable pub insert_into : ℕ → DmsFile → ℕ → ℕ → Bytes → Rid → Outcome (Rc × Rid × DmsFile)
insert_into fuel d pid need bytes rid = elim (page_to_offset d pid) [
  | none ↦ returns (edb_sys, rid, d)
  | some m ↦
      if eye_ok m
      then (do
        m' ← if wants_rearrange m need then re_arrange_space fuel m else returns m
        if has_room m' need
            then (do
              (m'', sid) ← place_record m' need bytes
              returns (
                edb_ok,
                record { pid = pid; sid = sid },
                update_free_space d m'' (sub32 0 need) pid,
              ))
            else returns (edb_sys, rid, put_page d pid m'))
      else returns (edb_sys, rid, d)
]

-- `done:` of insert and remove: the latch is released, held or not.
abbrev pub unlock_and {ℓ} : {A : Type ℓ} → A → DmsFile → Outcome (A × DmsFile)
unlock_and a d = do l ← w_unlock d.rw_mutex; returns (a, record d { rw_mutex = l })

-- The code between `retry:` and `goto retry`, for as many rounds as the fuel.
unfoldable pub insert_retry : Os → ℕ → DmsFile → ℕ → Bytes → Rid → Outcome ((Rc × Rid) × DmsFile)
insert_retry os zero d need bytes rid = starved
insert_retry os (suc fuel) d need bytes rid = do
  l ← w_lock d.rw_mutex
  let locked = record d { rw_mutex = l }
  elim (upper_bound need d.free_space_map) [
    | none ↦ do
      l' ← w_unlock locked.rw_mutex
      (rc, d') ← extend_segment os (record locked { rw_mutex = l' })
      elim (is_ok rc) [
        | true ↦ insert_retry os fuel d' need bytes rid
        | false ↦ unlock_and (rc, rid) d'
      ]
    | some (free_space, pid) ↦ do
      (rc, rid', d') ← insert_into fuel locked pid need bytes rid
      unlock_and (rc, rid') d'
  ]

module _ (lib : JsonLib) where
  open lib use {Json, dump, parse, id_field}

  -- insert: the code, outRecord, the rid, and the file. The size is cut to an unsigned int.
  unfoldable pub insert_record :
      Os → ℕ → DmsFile → Json → Json → Rid → Outcome (((Rc × Rid) × DmsFile) × Json)
  insert_record os fuel d r out_record rid =
      let bytes = dump r in
      let record_size = length bytes % 2 ^ 32 in
      let need = record_size + record_header_size + slot_size in
      let attempt = insert_retry os fuel d need bytes rid in
      let finish = λ (x : (Rc × Rid) × DmsFile). if is_ok x.0.0 then r else out_record in
      let refused = unlock_and (edb_sys, rid) d in
      if ltb dms_max_record record_size
      then refused >>= (λ x. returns (x, out_record))
      else elim (id_field r) [
        | none ↦ refused >>= (λ x. returns (x, out_record))
        | some _ ↦ attempt >>= (λ x. returns (x, finish x))
      ]

  -- remove
  unfoldable pub remove : DmsFile → Rid → Outcome (Rc × DmsFile)
  remove d rid = do
    l ← w_lock d.rw_mutex
    let locked = record d { rw_mutex = l }
    elim (page_to_offset d rid.pid) [
      | none ↦ unlock_and edb_sys locked
      | some m ↦ do
        (rc, slot) ← search_slot m rid.sid 0
        if not (is_ok rc)
            then unlock_and rc locked
            else if slot == dms_slot_empty
            then unlock_and edb_sys locked
            else if leb (slot + record_header_size) dms_pagesize
            then (let m' = drop_record m rid.sid slot in
                unlock_and edb_ok (update_free_space locked m' (load32 m' slot) rid.pid))
            else fault
    ]

  -- find from the slot's value on.
  abbrev pub find_at : DmsFile → Memory → Json → Rc × ℕ → Outcome (Rc × Json × DmsFile)
  find_at locked m rtn_row (rc, slot) =
      if not (is_ok rc)
      then returns (rc, rtn_row, locked)
      else if slot == dms_slot_empty
      then returns (edb_sys, rtn_row, locked)
      else if leb (slot + record_header_size) dms_pagesize
      then if load32 m (slot + 4) == dms_record_flag_dropped
        then returns (edb_sys, rtn_row, locked)
        else (do
          text ← record_text m slot
          elim (parse text) [ none ↦ throws | some row ↦ returns (edb_ok, row, locked) ])
      else fault

  -- find: the code, the row, and the file. The read latch is taken and stays taken.
  unfoldable pub find : DmsFile → Rid → Json → Outcome (Rc × Json × DmsFile)
  find d rid rtn_row = do
    l ← r_lock d.rw_mutex
    let locked = record d { rw_mutex = l }
    elim (page_to_offset d rid.pid) [
      | none ↦ returns (edb_sys, rtn_row, locked)
      | some m ↦ search_slot m rid.sid 0 >>= find_at locked m rtn_row
    ]
