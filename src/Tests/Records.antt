-- ===== src/Tests/Records.antt =====
-- The theorems on the index, the run-time layer and the agent at concrete records.
use edbc.Base.{
  ◌≡◌, refl, sym, ap, ◌∙◌, none, some, [], ◌∷◌, if◌then◌else◌, arith, inl, inr, Option-cases,
}
use edbc.Base.Outcome.{returns}
use edbc.Base.Outcome.Rc.{edb_ok, edb_index_exist}
use edbc.Base.Latch.{reading}
use edbc.Base.Bytes.{Bytes, bytes_eq}
use edbc.Ixm.Bucket.{Rid}
use edbc.Ixm.Manager.{HashManager, create_index, remove_index}
use edbc.Ixm.Index.{view, IsIndex, Writes, found_code, rid_or}
use edbc.Ixm.Operations.{init-IsIndex, create_index-Writes, remove_index-Writes}
use edbc.Dms.Page.{fresh_page}
use edbc.Dms.Store.{Contents, assign}
use edbc.Rtn.Methods.{Rtn, rtn_insert, rtn_find, rtn_remove}
use edbc.Rtn.Database.{cell_of, db_at, IsDb, rtn_find-reads, rtn_insert-exists}
use edbc.Rtn.Update.{rtn_insert-adds}
use edbc.Rtn.Remove.{rtn_remove-removes}
use edbc.Tests.Fixtures.{
  numbers, hash_length, no_rid, new_index, willing, one_segment, one_segment-IsStore,
  one_segment-free, blank_pages, first_page, page_zero, fresh_gap,
}

-- The text of the object 2.
abbrev pub two : Bytes
two = 34 ∷ 49 ∷ 49 ∷ []

pub new_index-IsIndex : IsIndex hash_length new_index
new_index-IsIndex = (init-IsIndex hash_length (record { buckets = [] })).0

pub index_blank : (id : Bytes) → view hash_length new_index id ≡ none
index_blank = (init-IsIndex hash_length (record { buckets = [] })).1

abbrev rid_two : Rid
rid_two = record { pid = 0; sid = 0 }

indexed :
    (m : HashManager) × (create_index numbers hash_length new_index 2 rid_two ≡ returns (edb_ok, m))
    × Writes hash_length new_index (34 ∷ 49 ∷ 49 ∷ []) (some rid_two) m
indexed =
    create_index-Writes hash_length numbers new_index new_index-IsIndex 2 2 refl rid_two
      (index_blank two)

create_index-Writes_example :
    (m : HashManager) × (create_index numbers hash_length new_index 2 rid_two ≡ returns (edb_ok, m))
    × Writes hash_length new_index (34 ∷ 49 ∷ 49 ∷ []) (some rid_two) m
create_index-Writes_example =
    create_index-Writes hash_length numbers new_index new_index-IsIndex 2 2 refl rid_two
      (index_blank two)

abbrev index_two : HashManager
index_two = indexed.0

index_two-IsIndex : IsIndex hash_length index_two
index_two-IsIndex = (indexed.2).valid

view-two : view hash_length index_two two ≡ some rid_two
unfolding bytes_eq
view-two = (indexed.2).reads two

remove_index-Writes_example :
    (m : HashManager) × (remove_index numbers hash_length index_two 2 no_rid
      ≡ returns (
        found_code (view hash_length index_two (34 ∷ 49 ∷ 49 ∷ [])),
        rid_or no_rid (view hash_length index_two (34 ∷ 49 ∷ 49 ∷ [])),
        m,
      ))
    × Writes hash_length index_two (34 ∷ 49 ∷ 49 ∷ []) none m
remove_index-Writes_example =
    remove_index-Writes hash_length numbers index_two index_two-IsIndex 2 2 refl no_rid

-- A database without records, and one with the object 2.
abbrev pub empty_db : Rtn
empty_db = record { index = new_index; file = one_segment }

pub empty_db-IsDb : IsDb numbers hash_length empty_db blank_pages
empty_db-IsDb = record {
  index_ok = new_index-IsIndex;
  store_ok = one_segment-IsStore;
  free = one_segment-free;
  linked = λ id rid e. absurd (no_rid_there id rid e);
  distinct = λ p q rid e e'. absurd (no_rid_there p rid e);
}
  where
    no_rid_there : (id : Bytes) (rid : Rid) → ¬ view hash_length new_index id ≡ some rid
    no_rid_there id rid e = let no : none ≡ some rid = sym (index_blank id) ∙ e in cc

abbrev pub with_two : Contents
with_two = assign blank_pages 0 (some two ∷ [])

pub filled :
    (s' : Rtn) × (rtn_insert numbers hash_length willing 1 empty_db 2 0 no_rid
      ≡ returns (edb_ok, s'))
    × IsDb numbers hash_length s' with_two
    × ((q : Bytes)
        → db_at numbers hash_length s' with_two q
          ≡ (if bytes_eq two q then some two else db_at numbers hash_length empty_db blank_pages q))
filled =
    rtn_insert-adds numbers hash_length empty_db blank_pages empty_db-IsDb 2 2 refl 0 4194276
      fresh_page [] first_page refl page_zero (omega (arith, fresh_gap)) (index_blank two) willing 0
      0 no_rid

rtn_insert-adds_example :
    (s' : Rtn) × (rtn_insert numbers hash_length willing 1 empty_db 2 0 no_rid
      ≡ returns (edb_ok, s'))
    × IsDb numbers hash_length s' (assign blank_pages 0 (some (34 ∷ 49 ∷ 49 ∷ []) ∷ []))
    × ((q : Bytes)
        → db_at numbers hash_length s' (assign blank_pages 0 (some (34 ∷ 49 ∷ 49 ∷ []) ∷ [])) q ≡ (
            if bytes_eq (34 ∷ 49 ∷ 49 ∷ []) q
            then some (34 ∷ 49 ∷ 49 ∷ [])
            else db_at numbers hash_length empty_db blank_pages q))
rtn_insert-adds_example =
    rtn_insert-adds numbers hash_length empty_db blank_pages empty_db-IsDb 2 2 refl 0 4194276
      fresh_page [] first_page refl page_zero (omega (arith, fresh_gap)) (index_blank two) willing 0
      0 no_rid

abbrev pub db_two : Rtn
db_two = filled.0

pub db_two-IsDb : IsDb numbers hash_length db_two with_two
db_two-IsDb = filled.2

pub has_two : db_at numbers hash_length db_two with_two two ≡ some two
unfolding bytes_eq
has_two = filled.3 two

rtn_find-reads_example :
    rtn_find numbers hash_length db_two 2 0 no_rid
    ≡ returns (
      edb_ok,
      2,
      record db_two { file = record (db_two.file) { rw_mutex = reading db_two.file.rw_mutex } },
    )
rtn_find-reads_example =
    rtn_find-reads numbers hash_length db_two with_two db_two-IsDb 2 2 refl 2 0 no_rid has_two

pub two_at : (p : Rid) × (view hash_length db_two.index two ≡ some p)
two_at = elim (Option-cases (view hash_length db_two.index two)) [
  | inl n ↦ let no : none ≡ some two = sym (ap (cell_of with_two) n) ∙ has_two in absurd (empty no)
  | inr (p, e) ↦ (p, e)
]
  where
    empty : ¬ none ≡ some two
    empty e = cc

rtn_insert-exists_example :
    rtn_insert numbers hash_length willing 1 db_two 2 0 no_rid ≡ returns (edb_index_exist, db_two)
rtn_insert-exists_example =
    rtn_insert-exists numbers hash_length db_two with_two db_two-IsDb 2 2 refl willing 1 0 no_rid
      (two_at.0) (two_at.1)

rtn_remove-removes_example :
    (s' : Rtn) × (f' : Contents) × (rtn_remove numbers hash_length db_two 2 no_rid
      ≡ returns (edb_ok, s'))
    × IsDb numbers hash_length s' f'
    × ((q : Bytes)
        → db_at numbers hash_length s' f' q ≡ (
            if bytes_eq (34 ∷ 49 ∷ 49 ∷ []) q
            then none
            else db_at numbers hash_length db_two with_two q))
rtn_remove-removes_example =
    rtn_remove-removes numbers hash_length db_two with_two db_two-IsDb 2 2 refl (two_at.0)
      (two_at.1) no_rid
