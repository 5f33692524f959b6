-- ===== src/Dms/Load.antt =====
-- dmsFile::initialize, initNew and loadData (dms/dms.cpp): the file that is opened, its pages read
-- back, and the index built from them. ossMmapFile::open and the copy of the name are answers.
use edbc.Base.{
  ℕ, zero, suc, ◌+◌, ◌-◌, ◌*◌, ◌/◌, ◌%◌, ◌^◌, Bool, true, false, not, Option, none, some, List, [],
  ◌∷◌, ◌++◌, ltb, leb, ◌==◌, ◌||◌, if◌then◌else◌, get_elem?,
}
use edbc.Base.Outcome.{Outcome, returns, throws, fault, starved, ◌>>=◌, Rc, is_ok}
use edbc.Base.Outcome.Rc.{edb_ok, edb_sys, edb_oom}
use edbc.Base.Latch.{unlocked}
use edbc.Base.Bytes.{Bytes}
use edbc.Base.Memory.{Memory, load32, c_string}
use edbc.Base.Multimap.{Multimap, insert}
use edbc.Base.Json.{JsonLib}
use edbc.Ixm.Bucket.{Rid}
use edbc.Ixm.Manager.{HashManager, is_id_exist, create_index}
use edbc.Dms.Page.{
  dms_pagesize, dms_slot_empty, num_slots_at, free_space_at, slot_at, slot_size, record_header_size,
}
use edbc.Dms.File.{
  DmsFile, Os, map_range, extend_file, dms_file_header_size, dms_file_segment_size,
  dms_pages_per_segment,
}

-- What the file on the disk holds: its length, the header's size_, and the segments behind the
-- header. They are mapped MAP_SHARED: a write to a page is a write to the file.
pub record Disk : Type 0 where
  pub file_size : ℕ
  pub header_pages : ℕ
  pub segments : List (List Memory)

-- The members of dmsFile when a file has been opened and nothing is loaded.
abbrev pub opened_file : Disk → DmsFile
opened_file disk = record {
  file_size = disk.file_size;
  pages = disk.header_pages;
  body = [];
  free_space_map = [];
  rw_mutex = unlocked;
}

-- initNew: the code, the file, and whether header_ is set. A null header_ is written through.
unfoldable pub init_new : Os → Disk → Bool → Outcome (Rc × Disk × Bool)
init_new os disk header =
    let (rc, size) = extend_file os dms_file_header_size disk.file_size in
    let disk' = record disk { file_size = size } in
    let (rc', mapped) = map_range os size 0 dms_file_header_size in
    if not (is_ok rc)
    then returns (rc, disk', header)
    else if not (is_ok rc')
    then returns (rc', disk', header)
    else if mapped || header
    then returns (edb_ok, record disk' { header_pages = 0 }, true)
    else fault

-- The do-while loop of initialize. The file's length is read into an unsigned int.
unfoldable pub open_loop : ℕ → Os → Disk → Bool → Outcome (Rc × Disk × Bool)
open_loop zero os disk header = starved
open_loop (suc fuel) os disk header =
    let again = (do
      (rc, disk', header') ← init_new os disk header
      elim (is_ok rc) [
        | true ↦ open_loop fuel os disk' header'
        | false ↦ returns (rc, disk', header')
      ]) in
    if not (is_ok os.stat)
    then returns (os.stat, disk, header)
    else if disk.file_size % 2 ^ 32 == 0
    then again
    else returns (edb_ok, disk, header)

module _ (lib : JsonLib) (hash_fn : Bytes → ℕ) where
  open lib use {Json, parse}

  -- The text is read up to its NUL, without the stored size.
  unfoldable pub load_record : Memory → ℕ → Rid → HashManager → Outcome (Rc × HashManager)
  load_record m offset rid index =
      let start = offset + record_header_size in
      elim (c_string (dms_pagesize - start) m start) [
        | none ↦ fault
        | some text ↦ elim (parse text) [
          | none ↦ throws
          | some r ↦ do
            rc ← is_id_exist lib hash_fn index r
            if is_ok rc then create_index lib hash_fn index r rid else returns (rc, index)
        ]
      ]

  -- The loop over the slots from `s` on, `k` of them; `j` is what the code takes for the page.
  unfoldable pub load_slots : ℕ → ℕ → Memory → ℕ → HashManager → Outcome (Rc × HashManager)
  load_slots zero s m j index = returns (edb_ok, index)
  load_slots (suc k) s m j index =
      let offset = load32 m (slot_at s) in
      let skip = load_slots k (s + 1) m j index in
      let taken = (do
        (rc, index') ← load_record m offset (record { pid = j; sid = s }) index
        elim (is_ok rc) [
          | true ↦ load_slots k (s + 1) m j index'
          | false ↦ returns (rc, index')
        ]) in
      if leb (slot_at s + slot_size) dms_pagesize
      then (if offset == dms_slot_empty then skip else taken)
      else fault

  -- The loop over the pages of segment `i` from the `j`-th on. Page and RID are numbered as in
  -- the source: (i + 1) * j in the free space map, and j in the index.
  unfoldable pub load_pages :
      ℕ → ℕ → List Memory → Multimap ℕ → HashManager → Outcome (Rc × Multimap ℕ × HashManager)
  load_pages i j [] fm index = returns (edb_ok, fm, index)
  load_pages i j (m ∷ ms) fm index = do
    let fm' = insert (load32 m free_space_at) ((i + 1) * j) fm
    (rc, index') ← load_slots (load32 m num_slots_at) 0 m j index
    elim (is_ok rc) [
      | true ↦ load_pages i (j + 1) ms fm' index'
      | false ↦ returns (rc, fm', index')
    ]

  -- The loop over the segments from `i` on, `k` of them. `mapping` is the local pointer `data`,
  -- which keeps its value where map leaves it alone. The offset is an int.
  unfoldable pub load_segments :
      ℕ
      → ℕ
      → Os
      → Disk
      → Option (List Memory)
      → DmsFile
      → HashManager
      → Outcome (Rc × DmsFile × HashManager)
  load_segments zero i os disk mapping d index = returns (edb_ok, d, index)
  load_segments (suc k) i os disk mapping d index =
      let offset = dms_file_header_size + i * dms_file_segment_size in
      let (rc, mapped) = map_range os disk.file_size offset dms_file_segment_size in
      let mapping' = if mapped then get_elem? disk.segments i else mapping in
      let load = (λ (pages : List Memory). do
        (rc', fm, index') ← load_pages i 0 pages d.free_space_map index
        let d' = record d { body = d.body ++ pages ∷ []; free_space_map = fm }
        elim (is_ok rc') [
          | true ↦ load_segments k (i + 1) os disk mapping' d' index'
          | false ↦ returns (rc', d', index')
        ]) in
      if leb (2 ^ 31) offset
      then fault
      else if not (is_ok rc)
      then returns (rc, d, index)
      else elim mapping' [ none ↦ fault | some pages ↦ load pages ]

  -- numPages is an int: a negative count that passes the test gives no round.
  unfoldable pub load_body : Os → Disk → HashManager → Outcome (Rc × DmsFile × HashManager)
  load_body os disk index =
      let n = disk.header_pages in
      let rounds = if ltb n (2 ^ 31) then n / dms_pages_per_segment else 0 in
      if n % dms_pages_per_segment == 0
      then load_segments rounds 0 os disk none (opened_file disk) index
      else returns (edb_sys, opened_file disk, index)

  -- loadData; `header` says whether header_ is set.
  unfoldable pub load_data : Os → Disk → Bool → HashManager → Outcome (Rc × DmsFile × HashManager)
  load_data os disk header index =
      let (rc, mapped) = map_range os disk.file_size 0 dms_file_header_size in
      if header
      then load_body os disk index
      else if not (is_ok rc)
      then returns (rc, opened_file disk, index)
      else if mapped
      then load_body os disk index
      else fault

  -- initialize. `named` says whether strdup succeeds, `opened` is what open answers.
  unfoldable pub initialize :
      Os → Bool → Rc → ℕ → Disk → HashManager → Outcome (Rc × DmsFile × HashManager)
  initialize os named opened fuel disk index =
      let go = (do
        (rc, disk', header) ← open_loop fuel os disk false
        if is_ok rc
            then load_data os disk' header index
            else returns (rc, opened_file disk', index)) in
      if not named
      then returns (edb_oom, opened_file disk, index)
      else if is_ok opened
      then go
      else returns (opened, opened_file disk, index)
