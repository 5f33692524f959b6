-- ===== src/Rtn/Database.antt =====
-- The index and the data file together are a map from ids to records (rtn/rtn.cpp).
use edbc.Base.{ℕ, ◌≡◌, sym, ap, ◌∙◌, inl, inr, Option, none, some, Option-cases}
use edbc.Base.Outcome.{returns}
use edbc.Base.Outcome.Rc.{edb_ok, edb_index_exist, edb_record_id_not_exist}
use edbc.Base.Latch.{RwLatch, unlocked, reading}
use edbc.Base.Bytes.{Bytes}
use edbc.Base.Json.{JsonLib}
use edbc.Ixm.Bucket.{Rid}
use edbc.Ixm.Index.{view, IsIndex}
use edbc.Ixm.Operations.{is_id_exist-view, find_index-view}
use edbc.Dms.File.{Os}
use edbc.Dms.Store.{Contents, IsStore}
use edbc.Dms.Operations.{find-reads}
use edbc.Rtn.Methods.{Rtn, rtn_insert, rtn_find}
use edbc.Rtn.Cells.{cell, cell-inv}

abbrev pub cell_of : Contents → Option Rid → Option Bytes
cell_of f none = none
cell_of f (some rid) = cell f rid

module _ (lib : JsonLib) (hash_fn : Bytes → ℕ) where
  open lib use {Json, dump, parse, id_field}

  -- The text of the record with this id.
  abbrev pub db_at : Rtn → Contents → Bytes → Option Bytes
  db_at s f id = cell_of f (view hash_fn s.index id)

  -- Index and file are each well-formed, every id in the index is at a record of its own, and the
  -- latch of the file is free.
  pub record IsDb (s : Rtn) (f : Contents) : Type 0 where
    pub index_ok : IsIndex hash_fn s.index
    pub store_ok : IsStore s.file f
    pub free : s.file.rw_mutex ≡ unlocked
    pub linked :
        (id : Bytes) (rid : Rid)
        → view hash_fn s.index id ≡ some rid
        → (j : Json) × (cell f rid ≡ some (dump j))
    pub distinct :
        (p q : Bytes) (rid : Rid)
        → view hash_fn s.index p ≡ some rid
        → view hash_fn s.index q ≡ some rid
        → p ≡ q

  module _ (s : Rtn) (f : Contents) (h : IsDb s f) (r field : Json)
      (has_id : id_field r ≡ some field) where
    abbrev id : Bytes
    id = dump field

    -- rtn::find of an id at which a well-formed database has the text of j: it returns EDB_OK and
    -- j, and the state is as before but for the read latch of the data file, which stays taken.
    pub rtn_find-reads :
        (j old : Json) (rid : Rid)
        → db_at s f (dump field) ≡ some (dump j)
        → rtn_find lib hash_fn s r old rid
          ≡ returns (
            edb_ok,
            j,
            record s { file = record (s.file) { rw_mutex = reading s.file.rw_mutex } },
          )
    unfolding rtn_find
    rtn_find-reads j old rid at = elim (Option-cases (view hash_fn s.index id)) [
      | inl n ↦ let no : none ≡ some (dump j) = sym (ap (cell_of f) n) ∙ at in cc
      | inr (p, found) ↦
          let here : cell f p ≡ some (dump j) = sym (ap (cell_of f) found) ∙ at in
          let (cs, page, slot) = cell-inv f p (dump j) here in
          rw (rtn_find, find_index-view hash_fn lib s.index h.index_ok r field has_id rid, found)
            (rw (
              find-reads lib s.file f h.store_ok p cs (dump j) page slot j old (lib.parse-dump j)
                (ap (λ (l : RwLatch). l.writer) h.free)))
    ]

    -- An id that the database has not.
    pub rtn_find-absent :
        (old : Json) (rid : Rid)
        → view hash_fn s.index (dump field) ≡ none
        → rtn_find lib hash_fn s r old rid ≡ returns (edb_record_id_not_exist, old, s)
    unfolding rtn_find
    rtn_find-absent old rid n =
        rw (rtn_find, find_index-view hash_fn lib s.index h.index_ok r field has_id rid, n)

    -- rtn::insert of a record whose id the index has already returns EDB_INDEX_EXIST and changes
    -- nothing.
    pub rtn_insert-exists :
        (os : Os) (fuel : ℕ) (old : Json) (rid at : Rid)
        → view hash_fn s.index (dump field) ≡ some at
        → rtn_insert lib hash_fn os fuel s r old rid ≡ returns (edb_index_exist, s)
    unfolding rtn_insert
    rtn_insert-exists os fuel old rid at found =
        rw (rtn_insert, is_id_exist-view hash_fn lib s.index h.index_ok r field has_id, found)
