-- ===== src/Rtn/Fresh.antt =====
-- rtn::init (rtn/rtn.cpp) on a new file: the header is written, and the database is empty.
use edbc.Base.{ℕ, suc, ◌≡◌, refl, sym, ap, ◌∙◌, true, false, none, some, [], arith}
use edbc.Base.Outcome.{returns, is_ok}
use edbc.Base.Outcome.Rc.{edb_ok}
use edbc.Base.Bytes.{Bytes}
use edbc.Base.Json.{JsonLib}
use edbc.Ixm.Manager.{init}
use edbc.Ixm.Index.{view}
use edbc.Ixm.Operations.{init-IsIndex}
use edbc.Dms.File.{Os, extend_file, extend_chunks, dms_file_header_size, page_to_offset}
use edbc.Dms.Store.{Contents, IsStore, occurrences}
use edbc.Dms.Grow.{map_range-inside}
use edbc.Dms.Segment.{outside_none}
use edbc.Dms.Load.{
  Disk, opened_file, init_new, open_loop, load_segments, load_body, load_data, initialize,
}
use edbc.Rtn.Methods.{Rtn}
use edbc.Rtn.Database.{IsDb}
use edbc.Rtn.Init.{ready, rtn_init, no_buckets, new_code}

abbrev pub no_pages : Contents
no_pages q = none

abbrev pub new_disk : ℕ → Disk
new_disk n = record { file_size = n; header_pages = 0; segments = [] }

new_file_IsStore : IsStore (opened_file (new_disk dms_file_header_size)) no_pages
unfolding page_to_offset occurrences
new_file_IsStore = record {
  whole = λ s h. absurd (omega arith);
  holds = λ q. rw (outside_none (opened_file (new_disk dms_file_header_size)) q (omega arith)) tt;
  once = λ q m e.
      let no : none ≡ some m =
        sym (outside_none (opened_file (new_disk dms_file_header_size)) q (omega arith)) ∙ e in
      cc;
  entries = tt;
}

module _ (os : Os) (stat : os.stat ≡ edb_ok) (writes : (n : ℕ) → os.write_chunk n ≡ edb_ok)
    (mapped : os.mmap 0 ≡ edb_ok) where
  extended : extend_file os dms_file_header_size 0 ≡ (edb_ok, dms_file_header_size)
  unfolding extend_file extend_chunks
  extended = rw (writes 0)

  header_written :
      init_new os (new_disk 0) false ≡ returns (edb_ok, new_disk dms_file_header_size, true)
  unfolding init_new
  header_written = rw (
    extended,
    map_range-inside os dms_file_header_size 0 dms_file_header_size stat mapped (omega arith)
        (omega arith),
  )

  -- The second round sees the header.
  opened_new :
      (fuel : ℕ)
      → open_loop (suc (suc fuel)) os (new_disk 0) false
        ≡ returns (edb_ok, new_disk dms_file_header_size, true)
  unfolding open_loop
  opened_new fuel =
      let answers : is_ok os.stat ≡ true = ap is_ok stat in rw (answers, header_written, answers)

  module _ (lib : JsonLib) (hash_fn : Bytes → ℕ) where
    -- rtn::init on an empty file, where every system call succeeds and the loop of initialize has
    -- two rounds or more: it returns EDB_OK and a well-formed database without pages, whose file
    -- has the length of the header and whose index has no id.
    pub rtn_init-creates :
        (fuel : ℕ)
        → (s : Rtn) × (rtn_init lib hash_fn os ready (suc (suc fuel)) (new_disk 0)
            ≡ returns (edb_ok, some s))
          × IsDb lib hash_fn s no_pages
          × (s.file.file_size ≡ dms_file_header_size)
          × ((id : Bytes) → view hash_fn s.index id ≡ none)
    unfolding rtn_init initialize load_data load_body load_segments
    rtn_init-creates fuel =
        let (valid, blank) = init-IsIndex hash_fn no_buckets in
        (
          record {
            index = (init true no_buckets).1;
            file = opened_file (new_disk dms_file_header_size);
          },
          rw (new_code, opened_new fuel),
          record {
            index_ok = valid;
            store_ok = new_file_IsStore;
            free = refl;
            linked = λ id rid e. let no : none ≡ some rid = sym (blank id) ∙ e in cc;
            distinct = λ p q rid e e'. let no : none ≡ some rid = sym (blank p) ∙ e in cc;
          },
          refl,
          blank,
        )
