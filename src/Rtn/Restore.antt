-- ===== src/Rtn/Restore.antt =====
-- rtn::init (rtn/rtn.cpp) on a file with one segment and on a new file: the database that it gives.
use edbc.Base.{
  ℕ, suc, ◌+◌, ◌/◌, ◌%◌, ◌^◌, ◌≤◌, ◌<◌, ◌≡◌, refl, sym, ap, ◌∙◌, inl, inr, true, false, none, some,
  List, [], ◌∷◌, length, get_elem?, get_elem?-lt, get_or, get_elem?-get_or, ltb, ◌==◌, ◌↔◌,
  Bool-cases, Option-cases, le→leb, lt→leb_false, arith,
}
use mathlib.Core.Path.{subst}
use edbc.Base.Outcome.{returns, is_ok}
use edbc.Base.Outcome.Rc.{edb_ok}
use edbc.Base.Bytes.{Bytes}
use edbc.Base.Memory.{Memory}
use edbc.Base.Json.{JsonLib}
use edbc.Ixm.Bucket.{Rid}
use edbc.Ixm.Manager.{HashManager, init}
use edbc.Ixm.Index.{view}
use edbc.Ixm.Operations.{init-IsIndex}
use edbc.Dms.Layout.{Slots}
use edbc.Dms.Models.{Models}
use edbc.Dms.File.{DmsFile, Os, page_to_offset, dms_file_header_size, dms_file_segment_size}
use edbc.Dms.Store.{Contents, IsStore, PageHolds, occurrences}
use edbc.Dms.Grow.{map_range-inside}
use edbc.Dms.Pages.{page_in_range}
use edbc.Dms.Load.{
  Disk, opened_file, load_pages, load_segments, load_body, load_data, open_loop, initialize,
}
use edbc.Dms.Loaded.{pages_map, occurrences-pages_map, Entries-pages_map}
use edbc.Rtn.Methods.{Rtn}
use edbc.Rtn.Cells.{cell, cell-inv}
use edbc.Rtn.Database.{IsDb, db_at, cell_of}
use edbc.Rtn.Indexed.{Before, HasId, Named, Indexed, Indexed-same, HasId-eq}
use edbc.Rtn.Loaded.{pages_Indexed}
use edbc.Rtn.Init.{ready, rtn_init, no_buckets, new_code}

-- The file with its header and one segment loaded.
module _ (size : ℕ) (pages : List Memory) (f : Contents) (whole : length pages ≡ 32)
    (hold : (i : ℕ) (m : Memory)
      → get_elem? pages i ≡ some m
      → (cs : Slots) × (f i ≡ some cs) × Models m cs)
    (outside : (q : ℕ) → 32 ≤ q → f q ≡ none) where
  abbrev pub disk : Disk
  disk = record { file_size = size; header_pages = 32; segments = pages ∷ [] }

  abbrev pub loaded_file : DmsFile
  loaded_file = record (opened_file disk) {
    body = pages ∷ [];
    free_space_map = pages_map 0 pages [];
  }

  page_inside : (q : ℕ) → q < 32 → page_to_offset loaded_file q ≡ get_elem? pages q
  unfolding page_to_offset
  page_inside q lt =
      let first : q / 32 ≡ 0 = omega arith in
      let same : q % 32 ≡ q = omega arith in rw (lt→leb_false 32 q lt, first, same)

  page_outside : (q : ℕ) → 32 ≤ q → page_to_offset loaded_file q ≡ none
  unfolding page_to_offset
  page_outside q le = rw (le→leb 32 q le)

  page_holds : (q : ℕ) → PageHolds (page_to_offset loaded_file q) (f q)
  page_holds q = elim (Bool-cases (ltb q 32)) [
    | inr t ↦ rw (page_outside q (ground arith), outside q (ground arith)) tt
    | inl t ↦
        let at = get_elem?-get_or pages q (λ _. 0) (ground arith) in
        let (cs, e, h) = hold q (get_or pages q (λ _. 0)) at in
        rw (page_inside q (ground arith), at, e) h
  ]

  pub loaded_IsStore : IsStore loaded_file f
  loaded_IsStore = record {
    whole = λ s lt. let first : s ≡ 0 = omega arith in rw first whole;
    holds = page_holds;
    once = λ q m e.
        let lt : q < 32 = omega (arith, page_in_range loaded_file q m e) in
        occurrences-pages_map 0 q pages [] ∙ unfold occurrences in rw whole (ground arith);
    entries =
        Entries-pages_map loaded_file 0 pages []
          (λ i m e.
            ap (page_to_offset loaded_file) (omega arith)
            ∙ page_inside i (omega (arith, get_elem?-lt pages i m e))
            ∙ e)
          tt;
  }

  module _ (lib : JsonLib) (hash_fn : Bytes → ℕ) (named : Named lib hash_fn f) where
    abbrev fresh_index : HashManager
    fresh_index = (init true no_buckets).1

    fresh_Indexed : Indexed lib hash_fn f (Before 0 0) fresh_index
    fresh_Indexed =
        let (valid, blank) = init-IsIndex hash_fn no_buckets in
        record {
          valid = valid;
          sound = λ id rid e. let no : none ≡ some rid = sym (blank id) ∙ e in cc;
          complete = λ id rid b k. absurd (omega arith);
        }

    in_file : (rid : Rid) (bs : Bytes) → cell f rid ≡ some bs → rid.pid < 32
    in_file rid bs at = elim (Bool-cases (ltb rid.pid 32)) [
      | inl t ↦ ground arith
      | inr t ↦
          let (cs, here, _) = cell-inv f rid bs at in
          let no : none ≡ some cs = sym (outside rid.pid (ground arith)) ∙ here in cc
    ]

    -- The pages are read in order from a new index, and every record of the file is in it.
    pages_done :
        (index : HashManager) × (load_pages lib hash_fn 0 0 pages [] fresh_index
          ≡ returns (edb_ok, pages_map 0 pages [], index))
        × Indexed lib hash_fn f (λ _. Unit {0}) index
    pages_done =
        let (index, runs, done) =
          pages_Indexed lib hash_fn f named 0 pages [] fresh_index
            (λ i m e. let (cs, p, h) = hold i m e in (cs, ap f (omega arith) ∙ p, h))
            fresh_Indexed in
        (
          index,
          runs,
          Indexed-same lib hash_fn f (Before (0 + length pages) 0) (λ _. Unit {0}) index (λ p b. tt)
              (λ p bs at u. inl (omega (arith, in_file p bs at))) done,
        )

    -- Such an index with the file is a database.
    Indexed-IsDb :
        (index : HashManager)
        → Indexed lib hash_fn f (λ _. Unit {0}) index
        → IsDb lib hash_fn (record { index = index; file = loaded_file }) f
    Indexed-IsDb index h = record {
      index_ok = h.valid;
      store_ok = loaded_IsStore;
      free = refl;
      linked = λ id rid e.
          let (bs, at, k) = (h.sound id rid e).1 in
          let (r, field, dumped, has) = named.has_id rid bs at in (r, at ∙ ap some dumped);
      distinct = λ p q rid e e'.
          let (bs, at, k) = (h.sound p rid e).1 in
          let (bs', at', k') = (h.sound q rid e').1 in
          let same : some bs' ≡ some bs = sym at' ∙ at in
          let one : bs' ≡ bs = cc in
          HasId-eq lib hash_fn bs p q k (subst (λ x. HasId lib hash_fn x q) one k');
    }

    reads_back :
        (index : HashManager)
        → Indexed lib hash_fn f (λ _. Unit {0}) index
        → (id bs : Bytes) → cell_of f (view hash_fn index id) ≡ some bs
        → (rid : Rid) × (cell f rid ≡ some bs) × HasId lib hash_fn bs id
    reads_back index h id bs at = elim (Option-cases (view hash_fn index id)) [
      | inl n ↦ let no : none ≡ some bs = sym (ap (cell_of f) n) ∙ at in cc
      | inr (rid, e) ↦
          let here : cell f rid ≡ some bs = sym (ap (cell_of f) e) ∙ at in
          let (bs', at', k) = (h.sound id rid e).1 in
          let same : some bs' ≡ some bs = sym at' ∙ here in
          let one : bs' ≡ bs = cc in (rid, here, subst (λ x. HasId lib hash_fn x id) one k)
    ]

    finds :
        (index : HashManager)
        → Indexed lib hash_fn f (λ _. Unit {0}) index
        → (id bs : Bytes) → ((rid : Rid) × (cell f rid ≡ some bs) × HasId lib hash_fn bs id)
        → cell_of f (view hash_fn index id) ≡ some bs
    finds index h id bs (rid, at, k) = ap (cell_of f) (h.complete id rid tt (bs, at, k)) ∙ at

    module _ (os : Os) (long : dms_file_header_size + dms_file_segment_size ≤ size)
        (short : size < 2 ^ 32) (stat : os.stat ≡ edb_ok)
        (mapped : (n : ℕ) → os.mmap n ≡ edb_ok) where
      segments_done :
          (index : HashManager)
          → load_pages lib hash_fn 0 0 pages [] fresh_index
            ≡ returns (edb_ok, pages_map 0 pages [], index)
          → load_segments lib hash_fn 1 0 os disk none (opened_file disk) fresh_index
            ≡ returns (edb_ok, loaded_file, index)
      unfolding load_segments
      segments_done index runs =
          let range =
            map_range-inside os size dms_file_header_size dms_file_segment_size stat (mapped _)
              short long in
          rw (range, runs)

      data_done :
          (index : HashManager)
          → load_pages lib hash_fn 0 0 pages [] fresh_index
            ≡ returns (edb_ok, pages_map 0 pages [], index)
          → load_data lib hash_fn os disk false fresh_index ≡ returns (edb_ok, loaded_file, index)
      unfolding load_data load_body
      data_done index runs =
          let range =
            map_range-inside os size 0 dms_file_header_size stat (mapped 0) short (omega arith) in
          rw range (segments_done index runs)

      -- rtn::init on a file of one segment of 32 pages, each of which models a list of slots,
      -- whose texts are dumps of records with ids of which no two are the same, below 2^32 bytes
      -- and where every system call succeeds: it returns EDB_OK, the database is well-formed with
      -- the file's pages, and it has a text at an id exactly where a slot of the file holds this
      -- text of a record with this id.
      pub rtn_init-restores :
          (fuel : ℕ)
          → (s : Rtn) × (rtn_init lib hash_fn os ready (suc fuel) disk ≡ returns (edb_ok, some s))
            × IsDb lib hash_fn s f
            × ((id bs : Bytes)
                → (db_at lib hash_fn s f id ≡ some bs)
                  ↔ ((rid : Rid) × (cell f rid ≡ some bs) × HasId lib hash_fn bs id))
      unfolding rtn_init initialize open_loop
      rtn_init-restores fuel =
          let (index, runs, h) = pages_done in
          let answers : is_ok os.stat ≡ true = ap is_ok stat in
          let opened : (size % 2 ^ 32 == 0) ≡ false = ground arith in
          (
            record { index = index; file = loaded_file },
            rw (new_code, answers, opened, data_done index runs),
            Indexed-IsDb index h,
            λ id bs. (reads_back index h id bs, finds index h id bs),
          )
